-- ===== src/Packet/Tests.antt =====
-- Runs of KanchoNet/Buffer/PacketBuffer, and its theorems at concrete buffers.
use kancho_net.Common.{◌⊎◌, ◌≤◌, ◌<◌, ◌≡◌, refl, [], ◌∷◌, ◌++◌, none, some, arith, replicate}
use kancho_net.Memory.{memcpy, splice}
use kancho_net.Vector.{reserve, resize}
use kancho_net.Packet.{Packet, array, null, bytes, is_null, make_room, append, append_self, copy}
use kancho_net.Packet.Contents.{IsValid, contents, append_lem}
use kancho_net.Packet.Alias.{append_self_lem, copy_lem}

-- Two bytes, with a stale one behind them, in a vector of capacity 3.
abbrev pair : Packet
pair = record { vector = record { elems = 1 ∷ 2 ∷ 9 ∷ []; capacity = 3; block = 4 }; size = 2 }

pair-IsValid : IsValid pair
pair-IsValid = omega arith

-- A full buffer grows to twice the new size.
append_grows :
    append pair (array (5 ∷ 6 ∷ [])) 2
    ≡ some (record {
      vector = record { elems = 1 ∷ 2 ∷ 5 ∷ 6 ∷ []; capacity = 8; block = 5 };
      size = 4;
    })
unfolding append bytes is_null make_room reserve resize memcpy splice replicate
append_grows = refl

append_null : append pair null 2 ≡ some pair
unfolding append is_null
append_null = refl

append_lem_example :
    (b' : Packet) × (append pair (array (5 ∷ 6 ∷ [])) 2 ≡ some b')
    × IsValid b'
    × (contents b' ≡ 1 ∷ 2 ∷ 5 ∷ 6 ∷ [])
unfolding contents
append_lem_example = append_lem (5 ∷ 6 ∷ []) 2 pair-IsValid (omega arith) (omega arith)

copy_lem_example : IsValid (copy pair) × (contents (copy pair) ≡ contents pair)
copy_lem_example = copy_lem pair-IsValid

append_self_lem_example :
    ((4 ≤ 3)
      × ((b' : Packet) × (append_self pair ≡ some b')
          × IsValid b'
          × (contents b' ≡ contents pair ++ contents pair)))
    ⊎ ((3 < 4) × (append_self pair ≡ none))
append_self_lem_example = append_self_lem pair-IsValid (omega arith) (omega arith)
