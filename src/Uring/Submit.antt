-- ===== src/Uring/Submit.antt =====
-- KanchoNet/Network/IOUringModel.cpp: the submissions, and `Send`.
use kancho_net.Common.{Bool, true, false, ◌||◌, none, some, ◌==◌, ltb, if◌then◌else◌, replicate}
use kancho_net.Types.{default_buffer_size}
use kancho_net.Types
use kancho_net.Packet.{Packet}
use kancho_net.Packet
use kancho_net.Ring
use kancho_net.Session.{set_sending}
use kancho_net.Manager.{Address}
use kancho_net.Net.{ok, or_fault, and_then, Kernel}
use kancho_net.Host.{
  ◌>>=◌, ◌>>◌, pure, update, call, session_at, queue_packet, change_session, lock_session,
  unlock_session,
}
use kancho_net.Uring.State.{
  Run, App, accepts, receives, sends, Liburing, with_contexts, filled, allocate_context,
  deallocate_context,
}

module _ {K : Type 0} (kernel : Kernel K) (lib : Liburing K) (app : App K) where
  unfoldable pub submit_accept : Run K Bool
  submit_accept = do
    got ← call lib.get_sqe
    if got
        then (do
          c ← allocate_context kernel (record {
            operation = Types.IoOperation.accept;
            session = 0;
            buffer = none;
            buffer_size = 0;
          })
          listening ← (λ s. ok (s.listen_socket, s))
          call (λ k. (tt, lib.prepare (accepts listening) c k))
          done ← call lib.submit
          if done then pure true else (do deallocate_context c; pure false))
        else pure false

  unfoldable pub submit_receive : Address → Run K Bool
  submit_receive p = do
    got ← call lib.get_sqe
    if got
        then (do
          c ← allocate_context kernel (record {
            operation = Types.IoOperation.receive;
            session = p;
            buffer = some (replicate default_buffer_size 0);
            buffer_size = default_buffer_size;
          })
          x ← session_at p
          call (λ k. (tt, lib.prepare (receives x.socket default_buffer_size) c k))
          done ← call lib.submit
          if done then pure true else (do deallocate_context c; pure false))
        else pure false

  -- `SubmitSend`
  unfoldable pub submit_send : Address → Run K Bool
  submit_send p = do
    change_session p (set_sending true)
    lock_session p
    x ← session_at p
    let size = Ring.available_read x.send_buffer
    if size == 0
        then (do change_session p (set_sending false); unlock_session p; pure true)
        else (do
          got ← call lib.get_sqe
          if got
              then (do
                let n = if ltb default_buffer_size size then default_buffer_size else size
                c ← allocate_context kernel (record {
                  operation = Types.IoOperation.send;
                  session = p;
                  buffer = some (replicate n 0);
                  buffer_size = n;
                })
                (_, out) ← (λ s.
                    and_then (or_fault (Ring.peek x.send_buffer (some (replicate n 0)) n))
                      (λ r. ok (r, s)))
                update (with_contexts (filled c out))
                call (λ k. (tt, lib.prepare (sends x.socket out) c k))
                done ← call lib.submit
                if done then (do unlock_session p; pure true) else (do
                  change_session p (set_sending false)
                  deallocate_context c
                  unlock_session p
                  pure false))
              else (do change_session p (set_sending false); unlock_session p; pure false))

  -- `Send`: the result of `SubmitSend` is computed before the guard releases the lock.
  unfoldable pub send : Address → Packet → Run K Bool
  send p packet = if p == 0 || Packet.is_empty packet then pure false else (do
    written ← queue_packet p packet
    if ltb written packet.size then (do unlock_session p; pure false) else (do
      x ← session_at p
      if x.is_sending
          then (do unlock_session p; pure true)
          else (do submitted ← submit_send p; unlock_session p; pure submitted)))
