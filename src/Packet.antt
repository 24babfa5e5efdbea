-- ===== src/Packet.antt =====
-- KanchoNet/Buffer/PacketBuffer.h and PacketBuffer.cpp: a growing byte buffer with a used size. A
-- method returns the new buffer; `none` is a call that does not return normally, because a vector
-- would pass its largest size or because the memory that is copied is not there.
pub mod Contents
pub mod Alias
pub mod Assign
mod Tests
use kancho_net.Common.{
  ℕ, ◌+◌, Bool, true, false, List, [], Option, none, some, ◌>>=◌, ◌==◌, ltb, if◌then◌else◌,
  add_size, mul_size, length,
}
use kancho_net.Memory.{memcpy}
use kancho_net.Vector.{Vector, empty, reserve, resize, assign}

-- `mData` and `mSize`.
pub record Packet : Type 0 where
  pub vector : Vector
  pub size : ℕ

-- What a `const void*` argument points to: nothing, an array of the caller, or the block that a
-- buffer owned when the pointer was taken.
pub data Source : Type 0 where
  null : Source
  array : List ℕ → Source
  block : ℕ → Source

-- The bytes behind a pointer. Those of a block are there while the vector still owns it.
unfoldable pub bytes : Source → Vector → Option (List ℕ)
bytes null v = none
bytes (array xs) v = some xs
bytes (block k) v = if k == v.block then some v.elems else none

unfoldable pub is_null : Source → Bool
is_null null = true
is_null (array xs) = false
is_null (block k) = false

abbrev pub default_buffer_size : ℕ
default_buffer_size = 8192

-- The three constructors.
unfoldable pub with_capacity : ℕ → Option Packet
with_capacity n = do v ← reserve empty n; some (record { vector = v; size = 0 })

unfoldable pub default : Option Packet
unfolding with_capacity
default = with_capacity default_buffer_size

unfoldable pub of_data : Source → ℕ → Option Packet
of_data src n = do
  v ← resize empty n
  if is_null src
      then some (record { vector = v; size = n })
      else if ltb 0 n
      then (do
        xs ← bytes src v
        d ← memcpy v.elems 0 xs 0 n
        some (record { vector = record v { elems = d }; size = n }))
      else some (record { vector = v; size = n })

-- The copy constructor: a vector of its own, of the same elements.
unfoldable pub copy : Packet → Packet
copy other = record {
  vector = record { elems = other.vector.elems; capacity = length other.vector.elems; block = 0 };
  size = other.size;
}

-- The move constructor: the new buffer, and the other one afterwards.
unfoldable pub move : Packet → Packet × Packet
move other = (other, record { vector = empty; size = 0 })

-- The assignments. A vector that is copied to keeps its block when the elements fit.
unfoldable pub copy_assign : Bool → Packet → Packet → Packet
copy_assign same b other =
    if same then b else record { vector = assign b.vector other.vector; size = other.size }

unfoldable pub move_assign : Bool → Packet → Packet → Packet × Packet
move_assign same b other = if same then (b, b) else move other

unfoldable pub is_empty : Packet → Bool
is_empty b = b.size == 0

unfoldable pub clear : Packet → Packet
clear b = record b { size = 0 }

unfoldable pub reserve_capacity : Packet → ℕ → Option Packet
reserve_capacity b n = do v ← reserve b.vector n; some (record b { vector = v })

unfoldable pub resize_to : Packet → ℕ → Option Packet
resize_to b n = do v ← resize b.vector n; some (record { vector = v; size = n })

-- The capacity that `Append` asks for before it grows to `total`: twice that.
unfoldable pub make_room : Vector → ℕ → Option Vector
make_room v total = if ltb v.capacity total then reserve v (mul_size total 2) else some v

unfoldable pub append : Packet → Source → ℕ → Option Packet
append b src n = if is_null src then some b else if n == 0 then some b else (do
  let total = add_size b.size n
  v ← make_room b.vector total
  w ← resize v total
  xs ← bytes src w
  d ← memcpy w.elems b.size xs 0 n
  some (record { vector = record w { elems = d }; size = total }))

-- `Append(const PacketBuffer&)` of another buffer, and of the buffer itself.
unfoldable pub append_packet : Packet → Packet → Option Packet
append_packet b other =
    if is_empty other then some b else append b (array other.vector.elems) other.size

unfoldable pub append_self : Packet → Option Packet
append_self b = if is_empty b then some b else append b (block b.vector.block) b.size

unfoldable pub set_data : Packet → Source → ℕ → Option Packet
set_data b src n =
    let c = clear b in
    if is_null src
    then some c
    else if ltb 0 n
    then (do
      v ← resize c.vector n
      xs ← bytes src v
      d ← memcpy v.elems 0 xs 0 n
      some (record { vector = record v { elems = d }; size = n }))
    else some c
