-- ===== src/Epoll/Io.antt =====
-- KanchoNet/Network/EpollModel.cpp: what `ProcessIO` and `Send` do.
use kancho_net.Common.{
  ℕ, zero, suc, Bool, true, false, ◌||◌, List, [], ◌∷◌, none, some, ◌==◌, ltb, if◌then◌else◌, take,
  replicate,
}
use kancho_net.Types.{Socket, default_buffer_size, connected}
use kancho_net.Packet.{Packet}
use kancho_net.Packet
use kancho_net.Ring
use kancho_net.Session.{default_config, is_connected, set_state, set_sending}
use kancho_net.Manager.{Manager, Address, deref, modify}
use kancho_net.Manager
use kancho_net.Net.{
  ok, no_fuel, or_fault, Kernel, Accepted, client, no_more, Received, bytes, closed, try_again,
  Sent, sent, nothing, would_block, Event, data_fd, for_input, for_both, events, interrupted,
  wait_failed, opened, closes, delivers, and_then,
}
use kancho_net.Host.{
  ◌>>=◌, ◌>>◌, pure, update, act, forget, the_manager, session_at, queue_packet, change_session,
  lock_session, unlock_session, call,
}
use kancho_net.Epoll.State.{Run, App}
use kancho_net.Epoll.Sockets.{
  invoke, register_socket, modify_socket, process_disconnect, close_session,
}

module _ {K : Type 0} (kernel : Kernel K) (app : App K) where
  -- The loop of `ProcessSend`, with the rounds left.
  unfoldable pub send_loop : ℕ → Address → Run K (Unit {0})
  send_loop zero p = λ s. no_fuel
  send_loop (suc fuel) p = do
    x ← session_at p
    if Ring.available_read x.send_buffer == 0
        then (do
          change_session p (set_sending false)
          modify_socket kernel app x.socket for_input
          pure tt)
        else (do
          (n, out) ← (λ s.
              and_then
                (or_fault (
                  Ring.peek x.send_buffer (some (replicate default_buffer_size 0))
                    default_buffer_size))
                (λ r. ok (r, s)))
          answer ← call (λ k. kernel.send k x.socket (take n out))
          elim answer [
            | sent k ↦ (do
              act (delivers x.socket (take k (take n out)))
              (_, rest) ← (λ s. and_then (or_fault (Ring.skip x.send_buffer k)) (λ r. ok (r, s)))
              change_session p (λ y. record y { send_buffer = rest })
              send_loop fuel p)
            | nothing ↦ process_disconnect kernel app p
            | would_block ↦ pure tt
            | Sent.broken ↦ process_disconnect kernel app p
          ])

  unfoldable pub process_send : ℕ → Address → Run K (Unit {0})
  process_send fuel p =
      if p == 0 then pure tt else (do lock_session p; send_loop fuel p; unlock_session p)

  -- The loop of `ProcessReceive`, with the rounds left.
  unfoldable pub receive_loop : ℕ → Address → Run K (Unit {0})
  receive_loop zero p = λ s. no_fuel
  receive_loop (suc fuel) p = do
    x ← session_at p
    answer ← call (λ k. kernel.recv k x.socket default_buffer_size)
    elim answer [
      | bytes b ↦ (do elim app.on_receive [ none ↦ pure tt | some f ↦ f p b ]; receive_loop fuel p)
      | closed ↦ process_disconnect kernel app p
      | try_again ↦ pure tt
      | Received.broken ↦ process_disconnect kernel app p
    ]

  unfoldable pub process_receive : ℕ → Address → Run K (Unit {0})
  process_receive fuel p =
      if p == 0
      then pure tt
      else (do x ← session_at p; if is_connected x then receive_loop fuel p else pure tt)

  -- One accepted connection. The message for the log reads the session after the callback.
  unfoldable pub accept_client : Socket → Run K (Unit {0})
  accept_client socket = do
    m ← the_manager
    address ← call kernel.new_address
    (added, m') ← (λ s.
        and_then (or_fault (Manager.add_session m socket default_config address)) (λ r. ok (r, s)))
    update (λ s. record s { manager = some m' })
    elim added [
      | none ↦ act (closes socket)
      | some p ↦ (do
        change_session p (set_state connected)
        update (λ s. record s { socket_map = (socket, p) ∷ forget socket s.socket_map })
        registered ← register_socket kernel app socket p for_input
        if registered
            then (do invoke kernel app app.on_accept p; session_at p; pure tt)
            else close_session kernel app p)
    ]

  -- The loop of `ProcessAccept`, with the rounds left.
  unfoldable pub process_accept : ℕ → Run K (Unit {0})
  process_accept zero = λ s. no_fuel
  process_accept (suc fuel) = do
    listening ← (λ s. ok (s.listen_socket, s))
    answer ← call (λ k. kernel.accept k listening)
    elim answer [
      | client socket ↦ (do act (opened socket); accept_client socket; process_accept fuel)
      | no_more ↦ pure tt
      | Accepted.failed ↦ pure tt
    ]

  -- One event of `ProcessIO`.
  unfoldable pub process_event : ℕ → Event → Run K (Unit {0})
  process_event fuel ev = do
    listening ← (λ s. ok (s.listen_socket, s))
    if data_fd ev.data_word == listening
        then process_accept fuel
        else (let p = ev.data_word in
            if p == 0
            then pure tt
            else if ev.error_or_hangup
            then process_disconnect kernel app p
            else (do
              if ev.readable then process_receive fuel p else pure tt
              if ev.writable then process_send fuel p else pure tt))

  unfoldable pub process_events : ℕ → List Event → Run K (Unit {0})
  process_events fuel [] = pure tt
  process_events fuel (ev ∷ evs) = do process_event fuel ev; process_events fuel evs

  unfoldable pub process_io : ℕ → ℕ → Run K Bool
  process_io fuel timeout_ms s =
      if s.running
      then (do
        answer ← call (λ k. kernel.epoll_wait k timeout_ms)
        elim answer [
          | events evs ↦ (do process_events fuel evs; pure true)
          | interrupted ↦ pure true
          | wait_failed ↦ pure false
        ])
          s
      else ok (false, s)

  -- `Send`
  unfoldable pub send : Address → Packet → Run K Bool
  send p packet = if p == 0 || Packet.is_empty packet then pure false else (do
    written ← queue_packet p packet
    if ltb written packet.size then (do unlock_session p; pure false) else (do
      x ← session_at p
      if x.is_sending then pure tt else (do
        change_session p (set_sending true)
        modify_socket kernel app x.socket for_both
        pure tt)
      unlock_session p
      pure true))
