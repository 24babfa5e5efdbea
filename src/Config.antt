-- ===== src/Config.antt =====
-- KanchoNet/Core/EngineConfig.h and EngineConfig.cpp: the engine's settings, their defaults and the
-- check that `Initialize` makes of them.
mod Tests
use kancho_net.Common.{
  ℕ, ◌*◌, ◌≤◌, ◌≡◌, ◌↔◌, Bool, true, false, ◌||◌, arith, ltb, ◌==◌, if◌then◌else◌,
}

pub record Config : Type 0 where
  pub port : ℕ
  pub max_sessions : ℕ
  pub backlog : ℕ
  pub send_buffer_size : ℕ
  pub recv_buffer_size : ℕ
  pub no_delay : Bool
  pub keep_alive : Bool
  pub keep_alive_time : ℕ
  pub keep_alive_interval : ℕ
  pub rio_receive_buffer_count : ℕ
  pub rio_send_buffer_count : ℕ
  pub rio_max_outstanding_receive : ℕ
  pub rio_max_outstanding_send : ℕ
  pub rio_cq_size : ℕ

-- The default member values, with the constants of KanchoNet/Types.h.
abbrev pub defaults : Config
defaults = record {
  port = 9000;
  max_sessions = 10000;
  backlog = 200;
  send_buffer_size = 65536;
  recv_buffer_size = 65536;
  no_delay = true;
  keep_alive = true;
  keep_alive_time = 7200000;
  keep_alive_interval = 1000;
  rio_receive_buffer_count = 1024;
  rio_send_buffer_count = 1024;
  rio_max_outstanding_receive = 100;
  rio_max_outstanding_send = 100;
  rio_cq_size = 2048;
}

-- The early returns of `Validate` from the first to the last.
unfoldable pub validate : Config → Bool
validate c =
    if c.port == 0 || ltb c.port 1024
    then false
    else if c.max_sessions == 0 || ltb 100000 c.max_sessions
    then false
    else if c.backlog == 0 || ltb 10000 c.backlog
    then false
    else if ltb c.send_buffer_size 1024 || ltb (10 * 1024 * 1024) c.send_buffer_size
    then false
    else if ltb c.recv_buffer_size 1024 || ltb (10 * 1024 * 1024) c.recv_buffer_size
    then false
    else if c.rio_receive_buffer_count == 0 || ltb 100000 c.rio_receive_buffer_count
    then false
    else if c.rio_send_buffer_count == 0 || ltb 100000 c.rio_send_buffer_count
    then false
    else if ltb c.rio_cq_size 128 || ltb 1000000 c.rio_cq_size
    then false
    else true

-- The ranges that the settings have to lie in.
pub record InRange (c : Config) : Type 0 where
  pub port_range : 1024 ≤ c.port
  pub sessions_range : (1 ≤ c.max_sessions) × (c.max_sessions ≤ 100000)
  pub backlog_range : (1 ≤ c.backlog) × (c.backlog ≤ 10000)
  pub send_range : (1024 ≤ c.send_buffer_size) × (c.send_buffer_size ≤ 10485760)
  pub recv_range : (1024 ≤ c.recv_buffer_size) × (c.recv_buffer_size ≤ 10485760)
  pub rio_receive_range : (1 ≤ c.rio_receive_buffer_count) × (c.rio_receive_buffer_count ≤ 100000)
  pub rio_send_range : (1 ≤ c.rio_send_buffer_count) × (c.rio_send_buffer_count ≤ 100000)
  pub cq_range : (128 ≤ c.rio_cq_size) × (c.rio_cq_size ≤ 1000000)

validate_sound : (c : Config) → validate c ≡ true → InRange c
unfolding validate
validate_sound c h = ground arith

validate_complete : (c : Config) → InRange c → validate c ≡ true
unfolding validate
validate_complete c v = ground arith

-- `Validate` accepts exactly the settings whose values all lie in their ranges.
pub validate_iff : (c : Config) → (validate c ≡ true) ↔ InRange c
validate_iff c = (validate_sound c, validate_complete c)
