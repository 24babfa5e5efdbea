-- ===== src/Pool.antt =====
-- KanchoNet/Buffer/BufferPool.h and BufferPool.cpp: packet buffers that are kept for reuse. Each
-- method runs under the pool's mutex, so it is one step here. The head of the list is the back of
-- `mPool`.
pub mod Reuse
mod Tests
use kancho_net.Common.{
  ℕ, zero, suc, ◌+◌, List, [], ◌∷◌, Option, none, some, ◌>>=◌, ltb, if◌then◌else◌, length, add_size,
}
use kancho_net.Packet.{Packet, with_capacity, clear}

-- `mBufferSize`, `mTotalAllocated` and `mPool`.
pub record Pool : Type 0 where
  pub buffer_size : ℕ
  pub total_allocated : ℕ
  pub pool : List Packet

abbrev pub max_pool_size : ℕ
max_pool_size = 1000

-- The constructor's loop, with the rounds left.
unfoldable pub fill : ℕ → ℕ → List Packet → Option (List Packet)
fill buffer_size zero made = some made
fill buffer_size (suc rounds) made = do
  b ← with_capacity buffer_size
  fill buffer_size rounds (b ∷ made)

unfoldable pub create : ℕ → ℕ → Option Pool
create buffer_size initial_count = do
  made ← fill buffer_size initial_count []
  some (record { buffer_size = buffer_size; total_allocated = 0; pool = made })

-- Takes the buffer at the back, or makes one.
unfoldable pub allocate_from : List Packet → Pool → Option (Packet × Pool)
allocate_from (b ∷ rest) p = some (clear b, record p { pool = rest })
allocate_from [] p = do
  b ← with_capacity p.buffer_size
  some (b, record p { total_allocated = add_size p.total_allocated 1 })

unfoldable pub allocate : Pool → Option (Packet × Pool)
unfolding allocate_from
allocate p = allocate_from p.pool p

-- A null pointer is ignored; above the limit the buffer is dropped.
unfoldable pub deallocate : Pool → Option Packet → Pool
deallocate p none = p
deallocate p (some b) =
    if ltb (length p.pool) max_pool_size then record p { pool = clear b ∷ p.pool } else p

unfoldable pub clear_pool : Pool → Pool
clear_pool p = record p { pool = []; total_allocated = 0 }
