-- ===== src/Ring/Bounds.antt =====
-- The representation invariant of KanchoNet/Buffer/RingBuffer, and the sizes that follow from it.
use kancho_net.Common.{
  ℕ, ◌+◌, ◌-◌, ◌%◌, ◌≤◌, ◌<◌, ◌≡◌, refl, some, arith, ltb, leb, if◌then◌else◌, length, replicate,
  length-replicate,
}
use native.Mathlib.Nat.{mod-eq_of_lt, mod-eq-sub-mod}
use kancho_net.Ring.{
  Ring, max_size, create, available_read, available_write, contiguous_write, contiguous_read,
  advance, clear,
}

-- One slot stays free, which tells a full buffer from an empty one.
pub record IsValid (r : Ring) : Type 0 where
  pub storage : length r.buffer ≡ r.capacity
  pub small : r.capacity ≤ max_size
  pub read_in : r.read_pos < r.capacity
  pub write_in : r.write_pos < r.capacity

-- The sizes as plain numbers.
pub available_read_lem :
    {r : Ring}
    → IsValid r
    → available_read r ≡ (
        if leb r.read_pos r.write_pos
        then r.write_pos - r.read_pos
        else r.capacity - r.read_pos + r.write_pos)
unfolding available_read
available_read_lem v = ground arith

pub available_write_lem :
    {r : Ring} → IsValid r → available_write r ≡ r.capacity - 1 - available_read r
unfolding available_read available_write
available_write_lem v = ground arith

pub available_read-lt : {r : Ring} → IsValid r → available_read r < r.capacity
available_read-lt {r} v = ground (arith, available_read_lem v)

-- What can be read and what can be written make up the capacity that was asked for.
pub available_sum : {r : Ring} → IsValid r → available_read r + available_write r + 1 ≡ r.capacity
available_sum {r} v = omega (arith, available_write_lem v, available_read-lt v)

pub contiguous_write_lem :
    {r : Ring}
    → IsValid r
    → contiguous_write r ≡ (
        if leb r.read_pos r.write_pos
        then (r.capacity - r.write_pos - (if leb r.read_pos 0 then 1 else 0))
        else r.read_pos - r.write_pos - 1)
unfolding contiguous_write
contiguous_write_lem v = ground arith

pub contiguous_read_lem :
    {r : Ring}
    → IsValid r
    → contiguous_read r
      ≡ (if leb r.read_pos r.write_pos then r.write_pos - r.read_pos else r.capacity - r.read_pos)
unfolding contiguous_read
contiguous_read_lem v = ground arith

-- The regions for direct access lie inside the storage and hold no more than what is available.
pub contiguous_in_bounds :
    {r : Ring}
    → IsValid r
    → (r.write_pos + contiguous_write r ≤ length r.buffer)
      × (contiguous_write r ≤ available_write r)
      × (r.read_pos + contiguous_read r ≤ length r.buffer)
      × (contiguous_read r ≤ available_read r)
contiguous_in_bounds {r} v = ground (
  arith,
  contiguous_write_lem v,
  contiguous_read_lem v,
  available_read_lem v,
  available_write_lem v,
)

-- A position that moves on by less than the capacity goes round at most once.
unfoldable pub wrap : ℕ → ℕ → ℕ
wrap cap j = if ltb j cap then j else j - cap

pub mod-eq-wrap : (cap j : ℕ) → 0 < cap → j < cap + cap → j % cap ≡ wrap cap j
unfolding wrap
mod-eq-wrap cap j h k = ground (
  arith,
  mod-eq_of_lt {n = j} {m = cap},
  mod-eq-sub-mod {n = j} {m = cap},
  mod-eq_of_lt {n = j - cap} {m = cap},
)

pub advance_lem :
    {r : Ring} (pos n : ℕ)
    → IsValid r
    → pos < r.capacity
    → n < r.capacity
    → advance r pos n ≡ some (wrap r.capacity (pos + n))
unfolding advance
advance_lem {r} pos n v h k = ground (arith, mod-eq-wrap r.capacity (pos + n))

-- A buffer made for `n` bytes, below the largest size of a vector, is made: it is valid, empty, and
-- has room for exactly `n` bytes.
pub create-IsValid :
    (n : ℕ)
    → n < max_size
    → (r : Ring) × (create n ≡ some r)
      × IsValid r
      × (available_read r ≡ 0)
      × (available_write r ≡ n)
unfolding create available_read available_write
create-IsValid n h = (
  record { buffer = replicate (n + 1) 0; capacity = n + 1; read_pos = 0; write_pos = 0 },
  ground arith,
  ground (arith, length-replicate {A = ℕ} (n + 1) 0),
  refl,
  ground arith,
)

pub clear-IsValid : {r : Ring} → IsValid r → IsValid (clear r)
unfolding clear
clear-IsValid v = ground arith

pub capacity-clear : (r : Ring) → (clear r).capacity ≡ r.capacity
unfolding clear
capacity-clear r = refl
