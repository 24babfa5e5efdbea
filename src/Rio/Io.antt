-- ===== src/Rio/Io.antt =====
-- KanchoNet/Network/RIOModel.cpp: the completions, and `ProcessIO`.
use kancho_net.Common.{ℕ, Bool, true, false, List, [], ◌∷◌, none, some, ◌==◌, ltb, if◌then◌else◌}
use kancho_net.Types.{accept, receive, send, disconnect}
use kancho_net.Ring
use kancho_net.Session.{is_connected, set_sending}
use kancho_net.Net.{ok, or_fault, and_then}
use kancho_net.Host.{
  ◌>>=◌, ◌>>◌, pure, session_at, change_session, lock_session, unlock_session, call,
}
use kancho_net.Rio.Post.{post_receive, post_send}
use kancho_net.Rio.State.{
  Run, Context, Result, Library, corrupt, results, signalled, timed_out, wait_failed, rio,
  context_at, deallocate_context,
}

module _ {K : Type 0} where
  unfoldable pub process_receive_completion : Context → ℕ → Run K (Unit {0})
  process_receive_completion ctx count = if ctx.session == 0 then pure tt else (do
    x ← session_at ctx.session
    if is_connected x then (do post_receive ctx.session; pure tt) else pure tt)

  unfoldable pub process_send_completion : Context → ℕ → Run K (Unit {0})
  process_send_completion ctx count =
      let p = ctx.session in
      if p == 0 then pure tt else (do
        lock_session p
        x ← session_at p
        (_, rest) ← (λ s. and_then (or_fault (Ring.skip x.send_buffer count)) (λ r. ok (r, s)))
        change_session p (λ y. record y { send_buffer = rest })
        if ltb 0 (Ring.available_read rest)
            then (do post_send p; pure tt)
            else change_session p (set_sending false)
        unlock_session p)

  -- The loop of `ProcessCompletions` over the results.
  unfoldable pub each_result : List Result → Run K (Unit {0})
  each_result [] = pure tt
  each_result (r ∷ rs) = do
    ctx ← context_at r.context
    elim ctx.operation [
      | receive ↦ process_receive_completion ctx r.bytes
      | send ↦ process_send_completion ctx r.bytes
      | accept ↦ pure tt
      | disconnect ↦ pure tt
    ]
    deallocate_context r.context
    each_result rs

module _ {K : Type 0} (library : Library K) where
  unfoldable pub process_completions : Run K (Unit {0})
  process_completions = do
    queue ← (λ s. ok (s.handle.queue, s))
    found ← rio (library.dequeue queue 128)
    elim found [
      | corrupt ↦ pure tt
      | results [] ↦ pure tt
      | results (r ∷ rs) ↦ (do each_result (r ∷ rs); rio (λ k. (tt, library.notify queue k)))
    ]

  unfoldable pub poll : ℕ → Run K Bool
  poll timeout_ms s =
      (do
        ready ← rio (library.count_ready s.handle.queue)
        elim ready [
          | none ↦ pure false
          | some n ↦
              if n == 0
              then (do
                waited ← call (library.wait s.handle.event timeout_ms)
                elim waited [
                  | timed_out ↦ pure true
                  | wait_failed ↦ pure false
                  | signalled ↦ (do process_completions; pure true)
                ])
              else (do process_completions; pure true)
        ])
        s

  unfoldable pub process_io : ℕ → Run K Bool
  process_io timeout_ms s = if s.running then poll timeout_ms s else ok (false, s)
