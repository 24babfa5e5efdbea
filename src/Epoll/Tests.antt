-- ===== src/Epoll/Tests.antt =====
-- The theorems on KanchoNet/Network/EpollModel at a small system: the operating system gives out
-- addresses in steps of 64 and takes three bytes at a time.
use kancho_net.Common.{
  ℕ, suc, ◌+◌, ◌*◌, ◌^◌, ◌%◌, ◌≤◌, ◌<◌, ◌≡◌, refl, ◌⊎◌, inl, inr, ◌↔◌, true, false, Bool, List, [],
  ◌∷◌, ◌++◌, none, some, arith, length, min,
}
use kancho_net.Types.{connected}
use kancho_net.Config.{Config}
use kancho_net.Config
use kancho_net.Packet.{Packet}
use kancho_net.Packet
use kancho_net.Packet.Contents
use kancho_net.Ring.{Ring, available_read, available_write}
use kancho_net.Ring.Contents.{contents}
use kancho_net.Session.{Session, default_config, is_disconnected, is_connected}
use kancho_net.Manager.{Manager, Entry, deref, find}
use kancho_net.Manager
use kancho_net.Net.{
  Kernel, ok, fault, sent, would_block, closed, no_more, events, Event, union_data, data_fd, closes,
  watches, for_input,
}
use kancho_net.Epoll.State.{Epoll, App}
use kancho_net.Host.{lookup, call}
use kancho_net.Epoll.Sockets.{register_socket, process_disconnect}
use kancho_net.Epoll.Io.{send, process_send, process_event, accept_client}
use kancho_net.Epoll.Control.{initialize, shutdown}
use kancho_net.Host.Access.{Owns}
use kancho_net.Epoll.Stream.{sent_bytes, SendBound}
use kancho_net.Host.Gone.{IsGone}
use kancho_net.Epoll.Gone.{Gentle, process_disconnect_lem}
use kancho_net.Epoll.Flush.{Flushed, Cut, process_send_lem}
use kancho_net.Epoll.Enqueue.{Queued, send_lem}
use kancho_net.Epoll.Deliver.{deliver_lem}
use kancho_net.Epoll.Accept.{Welcomed, Leaked, announced, accept_client_lem}
use kancho_net.Epoll.Events.{
  remember, Registered, union_data_lem, misdirected_event, closed_then_writable,
}
use kancho_net.Net.Accounts.{Balanced}
use kancho_net.Epoll.Lifecycle.{IsSound, Equipped, GivesSockets, initialize_lem}
use kancho_net.Epoll.Down.{AllClosed, is_closed, shutdown_lem}

abbrev small : Kernel ℕ
small = record {
  create_socket = λ k. (some 7, k);
  bind = λ k fd port. (true, k);
  listen = λ k fd backlog. (true, k);
  accept = λ k fd. (no_more, k);
  recv = λ k fd n. (closed, k);
  send = λ k fd b. (elim b [ [] ↦ would_block | x ∷ xs ↦ sent (min 3 (suc (length xs))) ], k);
  epoll_create = λ k. (some 5, k);
  epoll_add = λ k fd mask w. (true, k);
  epoll_mod = λ k fd mask w. (true, k);
  epoll_del = λ k fd. (true, k);
  epoll_wait = λ k t. (events [], k);
  new_address = λ k. (4096 + k * 64, suc k);
}

abbrev silent : App ℕ
silent = record { on_accept = none; on_receive = none; on_disconnect = none; on_error = none }

small-SendBound : SendBound small
small-SendBound k k' fd [] n e = cc
small-SendBound k k' fd (x ∷ xs) n e = ground arith

silent-Gentle : Gentle small silent
silent-Gentle p s = (s, refl, refl)

small-GivesSockets : GivesSockets small
small-GivesSockets k fd e = ground arith

-- Five bytes queued round the end of the storage, and two free.
abbrev queue : Ring
queue = record {
  buffer = 8 ∷ 9 ∷ 0 ∷ 0 ∷ 0 ∷ 5 ∷ 6 ∷ 7 ∷ [];
  capacity = 8;
  read_pos = 5;
  write_pos = 2;
}

abbrev peer : Session
peer = record {
  id = 1;
  socket = 9;
  state = connected;
  send_buffer = queue;
  recv_buffer = queue;
  user_data = 0;
  is_sending = false;
  config = default_config;
  locked = false;
}

abbrev one_peer : Manager
one_peer = record {
  max_sessions = 2;
  next_session_id = 2;
  entries = record { id = 1; address = 4096; session = peer } ∷ [];
}

abbrev up : Epoll ℕ
up = record {
  initialized = true;
  running = true;
  config = Config.defaults;
  listen_socket = 7;
  handle = some 5;
  manager = some one_peer;
  socket_map = (9, 4096) ∷ [];
  kernel_state = 1;
  log = [];
}

-- Two bytes.
abbrev greeting : Packet
greeting = record { vector = record { elems = 1 ∷ 2 ∷ []; capacity = 16; block = 1 }; size = 2 }

up-Owns : Owns 4096 peer one_peer up
unfolding find deref
up-Owns = record { managed_by = refl; apart = (λ e. omega arith, refl, tt); entry = refl }

abbrev equipment : Equipped up
equipment = record {
  m = one_peer;
  managed_by = refl;
  fd = 5;
  epoll = refl;
  listener = λ e. omega arith;
}

process_send_lem_example :
    Flushed small 4096 peer up (process_send small silent 10 4096 up)
    ⊎ Cut small silent 10 4096 peer up
unfolding available_read is_disconnected
process_send_lem_example =
    process_send_lem small silent 10 small-SendBound silent-Gentle up-Owns (λ e. omega arith) refl
      refl (omega arith) (omega arith)

send_lem_example : Queued 4096 peer greeting up (send small silent 4096 greeting up)
unfolding Packet.is_empty
send_lem_example =
    send_lem small silent up-Owns (λ e. omega arith) refl (omega arith) (omega arith) refl

deliver_lem_example :
    (z : Session) × (t : Epoll ℕ) × (send small silent 4096 greeting up ≡ ok (true, t))
    × (contents z.send_buffer ≡ contents queue ++ Contents.contents greeting)
    × (z.socket ≡ 9)
    × (z.is_sending ≡ true)
    × (sent_bytes 9 t.log ≡ [])
    × (Flushed small 4096 z t (process_send small silent 10 4096 t) ⊎ Cut small silent 10 4096 z t)
unfolding Packet.is_empty available_read available_write is_disconnected sent_bytes
deliver_lem_example =
    deliver_lem small silent 10 small-SendBound silent-Gentle up-Owns (λ e. omega arith) refl refl
      (omega arith) (omega arith) refl (omega arith) (omega arith)

process_disconnect_lem_example :
    (t : Epoll ℕ) × (process_disconnect small silent 4096 up ≡ ok (tt, t))
    × IsGone 4096 peer one_peer t
unfolding is_disconnected
process_disconnect_lem_example =
    process_disconnect_lem small silent silent-Gentle up-Owns (λ e. omega arith) refl

accept_client_lem_example :
    ((2 ≤ 1)
      × (accept_client small silent 11 up
          ≡ ok (tt, record up { kernel_state = 2; log = closes 11 ∷ [] })))
    ⊎ ((1 < 2)
        × (((true ≡ true)
              × (u : Epoll ℕ) × Welcomed 4160 11 one_peer up u
              × (accept_client small silent 11 up ≡ announced small silent 4160 u))
            ⊎ ((true ≡ false)
                × (t : Epoll ℕ) × (accept_client small silent 11 up ≡ ok (tt, t))
                × Leaked 11 one_peer up t)))
unfolding deref
accept_client_lem_example =
    accept_client_lem small silent 11 refl (omega arith) (λ e. omega arith, refl, tt) (omega arith)
      (λ e. omega arith) (λ e. omega arith) refl

union_data_lem_example :
    (data_fd (union_data 4096 9) ≡ 9) × ((union_data 4096 9 ≡ 4096) ↔ (9 ≡ 4096 % 2 ^ 32))
union_data_lem_example = union_data_lem 4096 9 (omega arith)

-- The peer with a descriptor, at an address above the first 4 GB.
abbrev client_with : ℕ → Session
client_with fd = record peer { socket = fd }

abbrev far : ℕ → ℕ → Manager
far fd low = record one_peer {
  entries = record { id = 1; address = 2 ^ 32 + low; session = client_with fd } ∷ [];
}

abbrev before : ℕ → ℕ → Epoll (ℕ × List (ℕ × ℕ))
before fd low = record {
  initialized = true;
  running = true;
  config = Config.defaults;
  listen_socket = 7;
  handle = some 5;
  manager = some (far fd low);
  socket_map = [];
  kernel_state = (1, []);
  log = [];
}

-- Once it has been registered, under the word that `RegisterSocket` stores.
abbrev registered : ℕ → ℕ → Epoll (ℕ × List (ℕ × ℕ))
registered fd low = record (before fd low) {
  kernel_state = (1, (fd, union_data (2 ^ 32 + low) fd) ∷ []);
  log = watches fd for_input ∷ [];
}

abbrev mute : App (ℕ × List (ℕ × ℕ))
mute = record { on_accept = none; on_receive = none; on_disconnect = none; on_error = none }

mute-Gentle : Gentle (remember small) mute
mute-Gentle p s = (s, refl, refl)

abbrev word_of : Bool → ℕ → Event
word_of w word = record { error_or_hangup = false; readable = true; writable = w; data_word = word }

far-Registered :
    Registered small mute (2 ^ 32 + 64) (client_with 9) (far 9 64) (before 9 64) (registered 9 64)
unfolding register_socket find deref call
far-Registered = record {
  answer = true;
  mask = for_input;
  lives = record { managed_by = refl; apart = (λ e. omega arith, refl, tt); entry = refl };
  real = λ e. omega arith;
  small = omega arith;
  some_fd = λ e. omega arith;
  client = λ e. omega arith;
  registers = refl;
}

misdirected_event_example :
    process_event (remember small) mute 3 (word_of false (2 ^ 32 + 9)) (registered 9 64) ≡ fault
unfolding deref lookup
misdirected_event_example =
    misdirected_event small mute 3 (word_of false (2 ^ 32 + 9)) far-Registered refl
      (λ e. omega arith) (λ y found. cc) refl

-- The one client whose word is its address: descriptor 16 at 2 ^ 32 + 16.
low-Registered :
    Registered small mute
      (2 ^ 32 + 16)
      (client_with 16)
      (far 16 16)
      (before 16 16)
      (registered 16 16)
unfolding register_socket find deref call
low-Registered = record {
  answer = true;
  mask = for_input;
  lives = record { managed_by = refl; apart = (λ e. omega arith, refl, tt); entry = refl };
  real = λ e. omega arith;
  small = omega arith;
  some_fd = λ e. omega arith;
  client = λ e. omega arith;
  registers = refl;
}

closed_then_writable_example :
    process_event (remember small) mute 3 (word_of true (2 ^ 32 + 16)) (registered 16 16) ≡ fault
unfolding is_connected lookup
closed_then_writable_example =
    closed_then_writable small mute 2 (word_of true (2 ^ 32 + 16)) (1, (16, 2 ^ 32 + 16) ∷ [])
      mute-Gentle low-Registered refl refl refl refl refl refl refl

up-IsSound : IsSound up
up-IsSound = record { running_up = inr refl; up = inr equipment }

abbrev stopped : Epoll ℕ
stopped = record up { initialized = false; running = false; manager = none }

initialize_lem_example :
    (b : Bool) × (t : Epoll ℕ) × (initialize small silent Config.defaults stopped ≡ ok (b, t))
    × IsSound t
    × (((b ≡ true)
          × (false ≡ false)
          × (t.initialized ≡ true)
          × (t.config ≡ Config.defaults)
          × (t.manager ≡ some (Manager.create Config.defaults.max_sessions)))
        ⊎ ((b ≡ false) × (t.initialized ≡ false) × Balanced [] t.log))
initialize_lem_example =
    initialize_lem small silent Config.defaults stopped small-GivesSockets
      (record { running_up = inl refl; up = inl refl })

shutdown_lem_example :
    (t : Epoll ℕ) × (shutdown small silent up ≡ ok (tt, t))
    × IsSound t
    × (t.initialized ≡ false)
    × (t.manager ≡ some (Manager.clear one_peer))
    × (t.socket_map ≡ [])
    × AllClosed one_peer.entries t.log
    × (is_closed 7 t.log ≡ true)
    × (is_closed 5 t.log ≡ true)
unfolding deref
shutdown_lem_example =
    shutdown_lem small silent {s = up} refl equipment (λ e. omega arith, refl, tt)
      (λ e. omega arith, tt)
