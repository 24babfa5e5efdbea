-- ===== src/Sockets.antt =====
-- KanchoNet/Network/SocketUtils.cpp: the options of a socket, on Linux and on Windows, over setsockopt, fcntl
-- and their counterparts, which are a parameter. Bool and int options are the int that is passed.
pub mod Options
use kancho_net.Common.{
  ℕ, ◌+◌, ◌-◌, ◌/◌, ◌%◌, ◌^◌, Bool, true, false, Option, none, some, not, ◌==◌, ◌||◌, if◌then◌else◌,
}
use kancho_net.Types.{Socket}
use kancho_net.Config.{Config}

-- `SO_REUSEADDR`, `TCP_NODELAY`, `SO_KEEPALIVE`, `TCP_KEEPIDLE`, `TCP_KEEPINTVL`, `TCP_KEEPCNT`,
-- `SO_SNDBUF` and `SO_RCVBUF`.
pub data Name : Type 0 where
  reuse_addr no_delay keep_alive keep_idle keep_intvl keep_cnt snd_buf rcv_buf : Name

-- The calls, on a state of the operating system; a Bool says whether a call succeeded. `fcntl` gives the
-- flags of a socket, if it can; `WSAIoctl` with `SIO_KEEPALIVE_VALS` takes the time and the interval.
pub record Calls (K : Type 0) : Type 0 where
  pub setsockopt : Socket → Name → ℕ → K → Bool × K
  pub get_flags : Socket → K → Option ℕ × K
  pub set_flags : Socket → ℕ → K → Bool × K
  pub ioctl_nonblocking : Socket → ℕ → K → Bool × K
  pub keepalive_values : Socket → ℕ → ℕ → K → Bool × K

abbrev pub to_int : Bool → ℕ
to_int b = if b then 1 else 0

-- `O_NONBLOCK` set in flags, or cleared.
abbrev pub nonblock : ℕ
nonblock = 2048

unfoldable pub with_nonblock : Bool → ℕ → ℕ
with_nonblock true flags = if flags / nonblock % 2 == 1 then flags else flags + nonblock
with_nonblock false flags = if flags / nonblock % 2 == 1 then flags - nonblock else flags

module _ {K : Type 0} (calls : Calls K) where
  unfoldable pub set_reuse_address : Socket → Bool → K → Bool × K
  set_reuse_address socket reuse = calls.setsockopt socket reuse_addr (to_int reuse)

  unfoldable pub set_no_delay : Socket → Bool → K → Bool × K
  set_no_delay socket on = calls.setsockopt socket no_delay (to_int on)

  unfoldable pub set_send_buffer_size : Socket → ℕ → K → Bool × K
  set_send_buffer_size socket size = calls.setsockopt socket snd_buf size

  unfoldable pub set_recv_buffer_size : Socket → ℕ → K → Bool × K
  set_recv_buffer_size socket size = calls.setsockopt socket rcv_buf size

  -- `SetKeepAlive` on Linux, with the times in milliseconds.
  unfoldable pub set_keep_alive_linux : Socket → Bool → ℕ → ℕ → K → Bool × K
  set_keep_alive_linux socket enable time interval k =
      let (done, k1) = calls.setsockopt socket keep_alive (to_int enable) k in
      if not done || not enable
      then (done, k1)
      else let k2 = (calls.setsockopt socket keep_idle (time / 1000) k1).1 in
        let k3 = (calls.setsockopt socket keep_intvl (interval / 1000) k2).1 in
        let k4 = (calls.setsockopt socket keep_cnt 5 k3).1 in (true, k4)

  unfoldable pub set_keep_alive_windows : Socket → Bool → ℕ → ℕ → K → Bool × K
  set_keep_alive_windows socket enable time interval k =
      let (done, k1) = calls.setsockopt socket keep_alive (to_int enable) k in
      if not done || not enable then (done, k1) else calls.keepalive_values socket time interval k1

  unfoldable pub set_non_blocking_linux : Socket → Bool → K → Bool × K
  set_non_blocking_linux socket on k =
      let (got, k1) = calls.get_flags socket k in
      elim got [
        | none ↦ (false, k1)
        | some flags ↦ calls.set_flags socket (with_nonblock on flags) k1
      ]

  unfoldable pub set_non_blocking_windows : Socket → Bool → K → Bool × K
  set_non_blocking_windows socket on = calls.ioctl_nonblocking socket (to_int on)

  -- `SetSocketOption`, with the `SetKeepAlive` of the platform; a failure is only logged.
  unfoldable pub set_socket_option :
      (Socket → Bool → ℕ → ℕ → K → Bool × K) → Socket → Config → K → Bool × K
  set_socket_option set_keep_alive socket config k =
      let k1 = (set_no_delay socket config.no_delay k).1 in
      let k2 =
        (set_keep_alive socket config.keep_alive config.keep_alive_time config.keep_alive_interval
          k1).1 in
      let k3 = (set_send_buffer_size socket config.send_buffer_size k2).1 in
      let k4 = (set_recv_buffer_size socket config.recv_buffer_size k3).1 in
      let k5 = (set_reuse_address socket true k4).1 in (true, k5)
