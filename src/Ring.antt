-- ===== src/Ring.antt =====
-- KanchoNet/Buffer/RingBuffer.h and RingBuffer.cpp: the circular byte buffer that holds what a
-- session has received and what it has still to send. A method that changes the buffer returns the
-- new one; `none` is undefined behaviour, an access outside an array or a division by zero.
pub mod Bounds
pub mod Contents
pub mod Write
pub mod Read
pub mod Direct
pub mod Moved
pub mod Queue
mod Tests
use kancho_net.Common.{
  ℕ, ◌+◌, ◌-◌, ◌%◌, ◌^◌, min, Bool, List, [], Option, none, some, leb, ltb, ◌==◌, if◌then◌else◌,
  add_size, sub_size, replicate, ◌>>=◌,
}
use kancho_net.Memory.{memcpy}

-- `mBuffer`, `mCapacity`, `mReadPos` and `mWritePos`.
pub record Ring : Type 0 where
  pub buffer : List ℕ
  pub capacity : ℕ
  pub read_pos : ℕ
  pub write_pos : ℕ

-- The largest size that `std::vector<uint8_t>::resize` accepts.
abbrev pub max_size : ℕ
max_size = 2 ^ 63 - 1

-- The constructor. `resize` throws above `max_size`.
pub create : ℕ → Option Ring
create capacity =
    let cap = add_size capacity 1 in
    if leb cap max_size
    then some (record { buffer = replicate cap 0; capacity = cap; read_pos = 0; write_pos = 0 })
    else none

-- What the move constructor and the move assignment leave of the other buffer.
pub moved_from : Ring
moved_from = record { buffer = []; capacity = 0; read_pos = 0; write_pos = 0 }

-- The move constructor: the new buffer, and the other one afterwards.
pub move : Ring → Ring × Ring
unfolding moved_from
move other = (
  record {
    buffer = other.buffer;
    capacity = other.capacity;
    read_pos = other.read_pos;
    write_pos = other.write_pos;
  },
  moved_from,
)

-- The move assignment: this buffer and the other one afterwards, and nothing if they are one.
pub move_assign : Bool → Ring → Ring → Ring × Ring
unfolding move
move_assign same r other = if same then (r, r) else move other

unfoldable pub available_read : Ring → ℕ
available_read r =
    if leb r.read_pos r.write_pos
    then sub_size r.write_pos r.read_pos
    else add_size (sub_size r.capacity r.read_pos) r.write_pos

unfoldable pub available_write : Ring → ℕ
available_write r = sub_size (sub_size r.capacity 1) (available_read r)

unfoldable pub is_empty : Ring → Bool
is_empty r = r.read_pos == r.write_pos

unfoldable pub is_full : Ring → Bool
is_full r = available_write r == 0

pub contiguous_write : Ring → ℕ
contiguous_write r =
    if leb r.read_pos r.write_pos
    then (let to_end = sub_size r.capacity r.write_pos in
        if r.read_pos == 0 then sub_size to_end 1 else to_end)
    else sub_size (sub_size r.read_pos r.write_pos) 1

pub contiguous_read : Ring → ℕ
contiguous_read r =
    if leb r.read_pos r.write_pos
    then sub_size r.write_pos r.read_pos
    else sub_size r.capacity r.read_pos

-- `(pos + n) % mCapacity`
pub advance : Ring → ℕ → ℕ → Option ℕ
advance r pos n = if r.capacity == 0 then none else some (add_size pos n % r.capacity)

-- The copy of `Write`, of `n` bytes, in one piece or in two.
pub write_bytes : Ring → List ℕ → ℕ → Option (ℕ × Ring)
write_bytes r src n =
    let c = contiguous_write r in
    if leb n c
    then (do
      buffer ← memcpy r.buffer r.write_pos src 0 n
      pos ← advance r r.write_pos n
      some (n, record r { buffer = buffer; write_pos = pos }))
    else (do
      first ← memcpy r.buffer r.write_pos src 0 c
      second ← memcpy first 0 src c (sub_size n c)
      some (n, record r { buffer = second; write_pos = sub_size n c }))

-- `Write`: `none` is a null pointer, otherwise the array that `data` points to.
pub write : Ring → Option (List ℕ) → ℕ → Option (ℕ × Ring)
write r none size = some (0, r)
write r (some src) size =
    let n = min size (available_write r) in
    if size == 0 then some (0, r) else if n == 0 then some (0, r) else write_bytes r src n

-- The copy of `Peek`, of `n` bytes, in one piece or in two.
pub peek_bytes : Ring → List ℕ → ℕ → Option (ℕ × List ℕ)
peek_bytes r dest n =
    let c = contiguous_read r in
    if leb n c then (do out ← memcpy dest 0 r.buffer r.read_pos n; some (n, out)) else (do
      first ← memcpy dest 0 r.buffer r.read_pos c
      second ← memcpy first c r.buffer 0 (sub_size n c)
      some (n, second))

-- `Peek` returns the number of bytes and what the caller's array holds then. A null pointer has
-- no array: the empty list stands for it.
pub peek : Ring → Option (List ℕ) → ℕ → Option (ℕ × List ℕ)
peek r none size = some (0, [])
peek r (some dest) size =
    let n = min size (available_read r) in
    if size == 0 then some (0, dest) else if n == 0 then some (0, dest) else peek_bytes r dest n

-- `Skip`
pub skip : Ring → ℕ → Option (ℕ × Ring)
skip r size =
    let n = min size (available_read r) in
    if ltb 0 n
    then (do pos ← advance r r.read_pos n; some (n, record r { read_pos = pos }))
    else some (0, r)

-- `Read`: a peek, and the read position moves on.
pub read : Ring → Option (List ℕ) → ℕ → Option (ℕ × List ℕ × Ring)
read r buffer size = do
  (n, out) ← peek r buffer size
  if ltb 0 n
      then (do pos ← advance r r.read_pos n; some (n, out, record r { read_pos = pos }))
      else some (n, out, r)

-- `Clear`
pub clear : Ring → Ring
clear r = record r { read_pos = 0; write_pos = 0 }

-- `CommitWrite` and `CommitRead`
pub commit_write : Ring → ℕ → Option Ring
commit_write r size = do
  pos ← advance r r.write_pos (min size (available_write r))
  some (record r { write_pos = pos })

pub commit_read : Ring → ℕ → Option Ring
commit_read r size = do
  pos ← advance r r.read_pos (min size (available_read r))
  some (record r { read_pos = pos })
