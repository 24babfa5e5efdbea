-- ===== src/Engine.antt =====
-- KanchoNet/Core/NetworkEngine.h and INetworkModel.h: the engine over a network model.
pub mod Phases
pub mod OnEpoll
pub mod OnIocp
pub mod Sends
mod Tests
mod IocpTests
use kancho_net.Common.{
  ℕ, Bool, true, false, ◌||◌, List, Option, none, some, not, ◌==◌, if◌then◌else◌,
}
use kancho_net.Config.{Config}
use kancho_net.Config
use kancho_net.Packet.{Packet, array}
use kancho_net.Packet
use kancho_net.Manager.{Address}
use kancho_net.Net.{Outcome, ok, and_then, or_fault}

-- `INetworkModel`, with a state `M`. `set_callbacks` stands for the four setters, which the engine
-- calls together with its own handlers.
pub record NetworkModel (M : Type 0) : Type 0 where
  pub initialize : Config → M → Outcome (Bool × M)
  pub start_listen : M → Outcome (Bool × M)
  pub process_io : ℕ → M → Outcome (Bool × M)
  pub send : Address → Packet → M → Outcome (Bool × M)
  pub shutdown : M → Outcome (Unit {0} × M)
  pub set_callbacks : M → M

pub record Engine (M : Type 0) : Type 0 where
  pub initialized : Bool
  pub running : Bool
  pub config : Config
  pub model : M

module _ {M : Type 0} (network : NetworkModel M) where
  -- The constructor, with a network model that has just been made.
  unfoldable pub create : M → Engine M
  create m = record { initialized = false; running = false; config = Config.defaults; model = m }

  -- `Initialize`, with its early returns in order.
  unfoldable pub initialize : Config → Engine M → Outcome (Bool × Engine M)
  initialize config e =
      if e.initialized
      then ok (false, e)
      else if not (Config.validate config)
      then ok (false, e)
      else and_then (network.initialize config (network.set_callbacks e.model)) (λ r.
        if r.0
        then ok (true, record e { config = config; model = r.1; initialized = true })
        else ok (false, record e { config = config; model = r.1 }))

  unfoldable pub start : Engine M → Outcome (Bool × Engine M)
  start e =
      if not e.initialized || e.running
      then ok (false, e)
      else and_then (network.start_listen e.model) (λ r.
        if r.0
        then ok (true, record e { model = r.1; running = true })
        else ok (false, record e { model = r.1 }))

  -- `Stop`, which the destructor calls too.
  unfoldable pub stop : Engine M → Outcome (Unit {0} × Engine M)
  stop e =
      if e.running
      then and_then (network.shutdown e.model)
          (λ r. ok (tt, record e { running = false; model = r.1; initialized = false }))
      else ok (tt, e)

  unfoldable pub process_io : ℕ → Engine M → Outcome (Bool × Engine M)
  process_io timeout_ms e =
      if e.running
      then and_then (network.process_io timeout_ms e.model)
          (λ r. ok (r.0, record e { model = r.1 }))
      else ok (false, e)

  -- The two `Send`s; a null pointer is the address 0, or `none` for bytes.
  unfoldable pub send : Address → Packet → Engine M → Outcome (Bool × Engine M)
  send p packet e =
      if not e.running || p == 0
      then ok (false, e)
      else and_then (network.send p packet e.model) (λ r. ok (r.0, record e { model = r.1 }))

  unfoldable pub send_data : Address → Option (List ℕ) → ℕ → Engine M → Outcome (Bool × Engine M)
  send_data p none size e = ok (false, e)
  send_data p (some data_bytes) size e =
      if not e.running || p == 0 || size == 0
      then ok (false, e)
      else and_then (or_fault (Packet.of_data (array data_bytes) size)) (λ packet.
        and_then (network.send p packet e.model) (λ r. ok (r.0, record e { model = r.1 })))

  -- `GetSession` gives the null pointer, and `Broadcast` does nothing.
  unfoldable pub get_session : ℕ → Engine M → Address
  get_session id e = 0

  unfoldable pub broadcast : Packet → Engine M → Engine M
  broadcast packet e = e
