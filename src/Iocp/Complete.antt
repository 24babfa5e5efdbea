-- ===== src/Iocp/Complete.antt =====
-- KanchoNet/Network/IOCPModel.cpp: the completions, and `ProcessIO`.
use kancho_net.Common.{
  ℕ, Bool, true, false, ◌||◌, List, none, some, ◌==◌, ltb, if◌then◌else◌, take, not,
}
use kancho_net.Types.{connected, accept, receive, send, disconnect}
use kancho_net.Ring
use kancho_net.Session.{default_config, is_connected, set_state, set_sending}
use kancho_net.Manager.{Address}
use kancho_net.Manager
use kancho_net.Net.{ok, or_fault, and_then, Kernel}
use kancho_net.Host.{
  ◌>>=◌, ◌>>◌, pure, update, call, the_manager, session_at, change_session, lock_session,
  unlock_session,
}
use kancho_net.Windows.{Windows, timed_out, dequeue_failed, completed, close_socket}
use kancho_net.Iocp.State.{Run, App, Context, context_at, deallocate_context}
use kancho_net.Iocp.Post.{
  register_accept, post_receive, post_send, invoke, close_session, process_disconnect,
}

abbrev pub is_accept : Context → Bool
is_accept ctx = elim ctx.operation [ accept ↦ true | _ ↦ false ]

module _ {K : Type 0} (kernel : Kernel K) (windows : Windows K) (app : App K) where
  unfoldable pub process_accept : Context → Run K (Unit {0})
  process_accept ctx = do
    register_accept kernel windows
    m ← the_manager
    address ← call kernel.new_address
    (added, m') ← (λ s.
        and_then (or_fault (Manager.add_session m ctx.accept_socket default_config address))
          (λ r. ok (r, s)))
    update (λ s. record s { manager = some m' })
    elim added [
      | none ↦ close_socket ctx.accept_socket
      | some p ↦ (do
        change_session p (set_state connected)
        s ← (λ s. ok (s, s))
        associated ← call (windows.associate ctx.accept_socket s.handle.handle p)
        if associated
            then (do
              started ← post_receive kernel windows p
              if started
                  then (do invoke app app.on_accept p; session_at p; pure tt)
                  else close_session p)
            else close_session p)
    ]

  unfoldable pub process_receive : Context → ℕ → List ℕ → Run K (Unit {0})
  process_receive ctx count bytes =
      let p = ctx.session in
      if p == 0 then pure tt else (do
        x ← session_at p
        if is_connected x
            then (do
              elim app.on_receive [ none ↦ pure tt | some f ↦ f p (take count bytes) ]
              post_receive kernel windows p
              pure tt)
            else pure tt)

  unfoldable pub process_send : Context → ℕ → Run K (Unit {0})
  process_send ctx count =
      let p = ctx.session in
      if p == 0 then pure tt else (do
        lock_session p
        x ← session_at p
        (_, rest) ← (λ s. and_then (or_fault (Ring.skip x.send_buffer count)) (λ r. ok (r, s)))
        change_session p (λ y. record y { send_buffer = rest })
        if ltb 0 (Ring.available_read rest)
            then (do post_send kernel windows p; pure tt)
            else change_session p (set_sending false)
        unlock_session p)

  -- What `ProcessIO` does with a completion; the buffer of the context holds `bytes`.
  unfoldable pub dispatch : Bool → ℕ → Address → List ℕ → Run K (Unit {0})
  dispatch succeeded count c bytes = do
    ctx ← context_at c
    if not succeeded || count == 0
        then (if is_accept ctx then pure tt else process_disconnect app ctx)
        else elim ctx.operation [
          | accept ↦ process_accept ctx
          | receive ↦ process_receive ctx count bytes
          | send ↦ process_send ctx count
          | disconnect ↦ process_disconnect app ctx
        ]
    deallocate_context c

  unfoldable pub process_io : ℕ → Run K Bool
  process_io timeout_ms s =
      if s.running
      then (do
        answer ← call (windows.dequeue s.handle.handle timeout_ms)
        elim answer [
          | timed_out ↦ pure true
          | dequeue_failed ↦ pure false
          | completed succeeded count c bytes ↦ (do dispatch succeeded count c bytes; pure true)
        ])
          s
      else ok (false, s)
