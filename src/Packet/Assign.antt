-- ===== src/Packet/Assign.antt =====
-- KanchoNet/Buffer/PacketBuffer.cpp: the assignment operators.
use kancho_net.Common.{◌≡◌, refl, false, [], arith, ltb, length, Bool-cases, inl, inr}
use kancho_net.Vector.{assign, empty}
use kancho_net.Packet.{Packet, move, copy_assign, move_assign}
use kancho_net.Packet.Contents.{IsValid, contents}

-- After an assignment from another buffer this one is valid and holds the other's bytes; a move leaves
-- the other one empty.
pub copy_assign_lem :
    (b other : Packet)
    → IsValid b
    → IsValid other
    → (contents (copy_assign false b other) ≡ contents other) × IsValid (copy_assign false b other)
unfolding copy_assign assign contents
copy_assign_lem b other v w =
    elim (Bool-cases (ltb b.vector.capacity (length other.vector.elems))) [
      | inl grows ↦ rw grows (
        refl,
        record { used = w.used; fits = omega arith; bounded = omega (arith, w.fits, w.bounded) },
      )
      | inr fits ↦
          rw fits (refl, record { used = w.used; fits = ground arith; bounded = v.bounded })
    ]

pub move_assign_lem :
    (b other : Packet)
    → IsValid other
    → let (b', other') = move_assign false b other in
      (contents b' ≡ contents other) × (contents other' ≡ []) × IsValid b' × IsValid other'
unfolding move_assign move contents empty
move_assign_lem b other w =
    (refl, refl, w, record { used = omega arith; fits = omega arith; bounded = omega arith })
