-- ===== src/Uring/Complete.antt =====
-- KanchoNet/Network/IOUringModel.cpp: the completions, and `ProcessIO`.
use kancho_net.Common.{
  ℕ, zero, suc, ◌+◌, Bool, true, false, List, ◌∷◌, none, some, ◌==◌, ltb, if◌then◌else◌, take,
}
use kancho_net.Types.{Socket, connected, accept, receive, send, disconnect}
use kancho_net.Ring
use kancho_net.Session.{default_config, is_connected, set_state, set_sending}
use kancho_net.Manager.{Manager, Address}
use kancho_net.Manager
use kancho_net.Net.{ok, no_fuel, or_fault, and_then, Kernel, opened, closes}
use kancho_net.Host.{
  ◌>>=◌, ◌>>◌, pure, update, act, call, forget, the_manager, session_at, change_session,
  lock_session, unlock_session,
}
use kancho_net.Uring.State.{
  Run, App, Context, Result, returned, errored, Completion, some_ready, none_ready, poll_failed,
  Liburing, context_at, deallocate_context,
}
use kancho_net.Uring.Sockets.{invoke, process_disconnect, close_session}
use kancho_net.Uring.Submit.{submit_accept, submit_receive, submit_send}

module _ {K : Type 0} (kernel : Kernel K) (lib : Liburing K) (app : App K) where
  unfoldable pub accepted : Socket → Run K (Unit {0})
  accepted socket = do
    m ← the_manager
    address ← call kernel.new_address
    (added, m') ← (λ s.
        and_then (or_fault (Manager.add_session m socket default_config address)) (λ r. ok (r, s)))
    update (λ s. record s { manager = some m' })
    elim added [
      | none ↦ act (closes socket)
      | some p ↦ (do
        change_session p (set_state connected)
        update (λ s. record s { socket_map = (socket, p) ∷ forget socket s.socket_map })
        started ← submit_receive kernel lib app p
        if started
            then (do invoke app app.on_accept p; session_at p; pure tt)
            else close_session app p)
    ]

  unfoldable pub process_accept_completion : Result → Run K (Unit {0})
  process_accept_completion result = do
    submit_accept kernel lib app
    elim result [ errored ↦ pure tt | returned socket ↦ (do act (opened socket); accepted socket) ]

  unfoldable pub process_receive_completion : Context → Result → List ℕ → Run K (Unit {0})
  process_receive_completion ctx result bytes =
      let p = ctx.session in
      if p == 0 then pure tt else (do
        x ← session_at p
        if is_connected x
            then (elim result [
              | errored ↦ process_disconnect app p
              | returned n ↦ if n == 0 then process_disconnect app p else (do
                elim app.on_receive [ none ↦ pure tt | some f ↦ f p (take n bytes) ]
                submit_receive kernel lib app p
                pure tt)
            ])
            else pure tt)

  unfoldable pub process_send_completion : Context → Result → Run K (Unit {0})
  process_send_completion ctx result =
      let p = ctx.session in
      if p == 0 then pure tt else (do
        lock_session p
        elim result [
          | errored ↦ (do change_session p (set_sending false); process_disconnect app p)
          | returned n ↦
              if n == 0
              then (do change_session p (set_sending false); process_disconnect app p)
              else (do
                x ← session_at p
                (_, rest) ← (λ s. and_then (or_fault (Ring.skip x.send_buffer n)) (λ r. ok (r, s)))
                change_session p (λ y. record y { send_buffer = rest })
                if ltb 0 (Ring.available_read rest)
                    then (do submit_send kernel lib app p; pure tt)
                    else change_session p (set_sending false))
        ]
        unlock_session p)

  unfoldable pub process_completion : Completion → Run K (Unit {0})
  process_completion cqe = if cqe.context == 0 then pure tt else (do
    ctx ← context_at cqe.context
    elim ctx.operation [
      | accept ↦ process_accept_completion cqe.result
      | receive ↦ process_receive_completion ctx cqe.result cqe.filled
      | send ↦ process_send_completion ctx cqe.result
      | disconnect ↦ pure tt
    ]
    deallocate_context cqe.context)

  -- `io_uring_for_each_cqe` from a position, with the rounds left: how many there were.
  unfoldable pub each_completion : ℕ → ℕ → Run K ℕ
  each_completion zero head = λ s. no_fuel
  each_completion (suc fuel) head = do
    found ← (λ s. ok (lib.entry s.kernel_state head, s))
    elim found [
      | none ↦ pure 0
      | some cqe ↦ (do
        process_completion cqe
        call (λ k. (tt, lib.cqe_seen k))
        count ← each_completion fuel (head + 1)
        pure (suc count))
    ]

  unfoldable pub process_io : ℕ → ℕ → Run K Bool
  process_io fuel timeout_ms s =
      if s.running
      then (do
        answer ← call (lib.wait timeout_ms)
        elim answer [
          | none_ready ↦ pure true
          | poll_failed ↦ pure false
          | some_ready ↦ (do
            head ← (λ s. ok (lib.head s.kernel_state, s))
            count ← each_completion fuel head
            if ltb 0 count then call (λ k. (tt, lib.cq_advance count k)) else pure tt
            pure true)
        ])
          s
      else ok (false, s)
