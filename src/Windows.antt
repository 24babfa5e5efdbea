-- ===== src/Windows.antt =====
-- KanchoNet/Network/SocketUtils.cpp on Windows, as far as IOCPModel.cpp and RIOModel.cpp use it, over the
-- calls of Winsock and of the Windows kernel, which are a parameter.
use kancho_net.Common.{
  ℕ, Bool, true, false, List, Option, none, some, ◌^◌, ◌-◌, ◌==◌, if◌then◌else◌,
}
use kancho_net.Types.{Socket}
use kancho_net.Manager.{Address}
use kancho_net.Net.{Kernel, opened, shut, closes, starts_network, ends_network}
use kancho_net.Host.{Run, ◌>>=◌, ◌>>◌, pure, act, call}

-- `SOCKET` and `HANDLE` are pointers wide; `INVALID_SOCKET` has all bits set.
abbrev pub invalid_socket : Socket
invalid_socket = 2 ^ 64 - 1

abbrev pub Handle : Type 0
Handle = ℕ

-- What `WSAIoctl` looks up.
pub data Extension : Type 0 where
  accept_ex connect_ex disconnect_ex get_accept_ex_sockaddrs : Extension

-- What `GetQueuedCompletionStatus` gives: nothing by the time, nothing for an error, or the context of a
-- request, with whether it succeeded, how many bytes it moved, and what a receive has put into the buffer.
pub data Dequeued : Type 0 where
  timed_out dequeue_failed : Dequeued
  completed : Bool → ℕ → Address → List ℕ → Dequeued

-- The answer of `AcceptEx`, `WSARecv` and `WSASend` is whether the request is under way: it succeeded, or
-- failed with `ERROR_IO_PENDING`. `AcceptEx` is given how many bytes of data it waits for. The context of a request is its `OVERLAPPED`.
pub record Windows (K : Type 0) : Type 0 where
  pub startup : K → Bool × K
  pub cleanup : K → K
  pub load_function : Socket → Extension → K → Bool × K
  pub close_handle : Handle → K → K
  pub create_port : K → Option Handle × K
  pub associate : Socket → Option Handle → Address → K → Bool × K
  pub accept_ex : Socket → Socket → ℕ → Address → K → Bool × K
  pub wsa_recv : Socket → ℕ → Address → K → Bool × K
  pub wsa_send : Socket → List ℕ → Address → K → Bool × K
  pub dequeue : Option Handle → ℕ → K → Dequeued × K

module _ {H K : Type 0} where
  module _ (windows : Windows K) where
    unfoldable pub initialize_network : Run H K Bool
    initialize_network = do
      started ← call windows.startup
      if started then (do act starts_network; pure true) else pure false

    unfoldable pub cleanup_network : Run H K (Unit {0})
    cleanup_network = do call (λ k. (tt, windows.cleanup k)); act ends_network

    unfoldable pub close_handle : Handle → Run H K (Unit {0})
    close_handle handle = do call (λ k. (tt, windows.close_handle handle k)); act (closes handle)

  -- `CreateTCPSocket`
  unfoldable pub create_tcp_socket : Kernel K → Run H K Socket
  create_tcp_socket kernel = do
    made ← call kernel.create_socket
    elim made [ none ↦ pure invalid_socket | some socket ↦ (do act (opened socket); pure socket) ]

  unfoldable pub close_socket : Socket → Run H K (Unit {0})
  close_socket socket = if socket == invalid_socket then pure tt else act (closes socket)

  unfoldable pub shutdown_socket : Socket → Run H K (Unit {0})
  shutdown_socket socket = if socket == invalid_socket then pure tt else act (shut socket)
