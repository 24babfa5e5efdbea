-- ===== src/Ring/Moved.antt =====
-- KanchoNet/Buffer/RingBuffer.cpp, the move constructor: the new buffer and the old one.
use kancho_net.Common.{ℕ, ◌^◌, ◌-◌, ◌≡◌, ◌<◌, refl, List, [], none, some, arith}
use kancho_net.Memory.{memcpy_overrun}
use kancho_net.Ring.{
  Ring, move, moved_from, available_write, available_read, write, write_bytes, commit_write,
  advance, contiguous_write,
}
use kancho_net.Ring.Contents.{contents}

-- The moved-to buffer holds the same bytes and stays valid.
pub contents-move : (r : Ring) → (contents (move r).0 ≡ contents r) × (contents (move r).1 ≡ [])
unfolding move contents moved_from available_read
contents-move r = (refl, refl)

-- A buffer that has been moved from reports 2^64 - 1 bytes of free space, and a write of any bytes
-- to it, or a commit of any, is undefined.
pub moved_from_write :
    (r : Ring) (src : List ℕ) (n : ℕ)
    → 0 < n
    → n < 2 ^ 64
    → (available_write (move r).1 ≡ 2 ^ 64 - 1)
      × (write (move r).1 (some src) n ≡ none)
      × (commit_write (move r).1 n ≡ none)
unfolding move moved_from write write_bytes commit_write advance contiguous_write available_write
    available_read
moved_from_write r src n h k = (refl, ground (arith, memcpy_overrun [] 0 src 0 n), refl)
