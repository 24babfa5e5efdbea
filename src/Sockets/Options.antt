-- ===== src/Sockets/Options.antt =====
-- KanchoNet/Network/SocketUtils.cpp: what the options come to.
use kancho_net.Common.{ℕ, ◌≡◌, ◌/◌, ◌%◌, Bool, true, false, Option, none, some, ap, arith}
use kancho_net.Types.{Socket}
use kancho_net.Sockets.{Calls, to_int, nonblock, with_nonblock, set_non_blocking_linux}

-- The bit is as asked, and all other bits are as they were.
with_nonblock_lem :
    (on : Bool) (flags : ℕ)
    → (with_nonblock on flags / nonblock % 2 ≡ to_int on)
      × (with_nonblock on flags % nonblock ≡ flags % nonblock)
      × (with_nonblock on flags / 4096 ≡ flags / 4096)
unfolding with_nonblock
with_nonblock_lem true flags = (ground arith, ground arith, ground arith)
with_nonblock_lem false flags = (ground arith, ground arith, ground arith)

-- `SetNonBlocking` on Linux changes the one bit of the flags that it reads, and answers as `fcntl` does.
pub set_non_blocking_lem :
    (K : Type 0) (calls : Calls K) (socket : Socket) (on : Bool) (flags : ℕ) (k k1 : K)
    → calls.get_flags socket k ≡ (some flags, k1)
    → (new : ℕ) × (set_non_blocking_linux calls socket on k ≡ calls.set_flags socket new k1)
      × (new / nonblock % 2 ≡ to_int on)
      × (new % nonblock ≡ flags % nonblock)
      × (new / 4096 ≡ flags / 4096)
unfolding set_non_blocking_linux
set_non_blocking_lem K calls socket on flags k k1 got =
    let (bit, low, high) = with_nonblock_lem on flags in
    let answer : Option ℕ × K → Bool × K = λ r. elim r.0 [
      | none ↦ (false, r.1)
      | some f ↦ calls.set_flags socket (with_nonblock on f) r.1
    ] in
    (with_nonblock on flags, ap answer got, bit, low, high)
