-- ===== src/Epoll/Fed.antt =====
-- KanchoNet/Network/EpollModel.cpp, ProcessSend: how queued bytes go to `send`, told without the code.
use kancho_net.Common.{ℕ, ◌≡◌, refl, ◌⊎◌, List, min, length, take, drop}
use kancho_net.Types.{Socket, default_buffer_size}
use kancho_net.Ring.Contents.{contents, length-contents}
use kancho_net.Session.{Session}
use kancho_net.Net.{Kernel, Sent, sent, nothing}
use kancho_net.Epoll.Round.{offer}

-- What is offered of the bytes `c`: the oldest, as many as the array on the stack takes.
abbrev pub chunk : List ℕ → List ℕ
chunk c = take (min default_buffer_size (length c)) c

-- From the system state `k` with the bytes `c` queued to `k'` with `d` still queued: again and again
-- `send` is offered what comes first, and as many bytes are dropped as it answers to have taken.
pub data Feeds {K : Type 0} (kernel : Kernel K) (fd : Socket)
    : K → List ℕ → K → List ℕ → Type 0 where
  fed_all : {k : K} {c : List ℕ} → Feeds kernel fd k c k c
  feeds :
      {k l k' : K} {c d : List ℕ} {j : ℕ}
      → kernel.send k fd (chunk c) ≡ (sent j, l)
      → Feeds kernel fd l (drop j c) k' d
      → Feeds kernel fd k c k' d

-- The answer to the next offer refuses the socket.
abbrev pub RefusesNext : {K : Type 0} → Kernel K → Socket → K → List ℕ → K → Type 0
RefusesNext kernel fd k c l =
    (kernel.send k fd (chunk c) ≡ (nothing, l)) ⊎ (kernel.send k fd (chunk c) ≡ (Sent.broken, l))

pub offer-chunk : (x : Session) → offer x ≡ chunk (contents x.send_buffer)
offer-chunk x = rw (length-contents x.send_buffer) refl
