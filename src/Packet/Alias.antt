-- ===== src/Packet/Alias.antt =====
-- KanchoNet/Buffer/PacketBuffer where two buffers, or a buffer and a pointer, share memory: copies,
-- moves, and `Append` of a buffer to itself.
use kancho_net.Common.{
  ◌+◌, ◌*◌, ◌≤◌, ◌<◌, ◌≡◌, refl, [], ◌++◌, none, some, arith, ◌⊎◌, inl, inr, leb, Bool-cases,
  leb→le, leb→lt,
}
use kancho_net.Memory.{memcpy-in_bounds}
use kancho_net.Vector
use kancho_net.Vector.{max_size, resize, reserve, resized, length-resized, resize_within}
use kancho_net.Packet.{Packet, bytes, is_null, make_room, append, append_self, is_empty, copy, move}
use kancho_net.Packet.Contents.{
  IsValid, contents, contents_lem, take-resized, appended, appended-IsValid, contents-appended,
}

-- A copy holds the same bytes in a vector of its own.
pub copy_lem : {b : Packet} → IsValid b → IsValid (copy b) × (contents (copy b) ≡ contents b)
unfolding copy contents
copy_lem v = (omega arith, refl)

-- A moved-to buffer has the bytes, and the other one is valid and empty.
pub move_lem :
    {b : Packet}
    → IsValid b
    → IsValid (move b).0
      × (contents (move b).0 ≡ contents b)
      × IsValid (move b).1
      × (contents (move b).1 ≡ [])
unfolding move contents Vector.empty
move_lem v = (v, refl, omega arith, refl)

-- A non-empty buffer that is appended to itself doubles if twice its size is within its capacity.
-- If it is not, the vector is reallocated first, and the bytes are read from memory that is gone.
pub append_self_lem :
    {b : Packet}
    → IsValid b
    → 0 < b.size
    → (b.size + b.size) * 2 ≤ max_size
    → ((b.size + b.size ≤ b.vector.capacity)
        × ((b' : Packet) × (append_self b ≡ some b')
            × IsValid b'
            × (contents b' ≡ contents b ++ contents b)))
      ⊎ ((b.vector.capacity < b.size + b.size) × (append_self b ≡ none))
unfolding append_self append bytes is_null is_empty make_room reserve resize
append_self_lem {b} v h k = elim (Bool-cases (leb (b.size + b.size) b.vector.capacity)) [
  | inl room ↦
      let fits = leb→le _ _ room in
      let total = b.size + b.size in
      let xs = resized b.vector.elems total in
      let l = length-resized b.vector.elems total in
      inl (
        fits,
        (
          appended b.vector xs b.size b.size,
          ground (arith, l, memcpy-in_bounds xs b.size xs 0 b.size),
          appended-IsValid b.vector xs b.size b.size fits v.bounded (omega (arith, l)),
          ground (
            arith,
            contents-appended b.vector xs b.size b.size v.used (omega (arith, l)),
            contents_lem b,
            take-resized b.vector.elems b.size total v.used (omega arith),
          ),
        ),
      )
  | inr full ↦ inr (leb→lt _ _ full, ground arith)
]
