-- ===== src/Pool/Tests.antt =====
-- The theorems on KanchoNet/Buffer/BufferPool at concrete pools.
use kancho_net.Common.{◌⊎◌, ◌≤◌, ◌<◌, ◌≡◌, [], ◌∷◌, some, arith}
use kancho_net.Packet.{Packet, clear}
use kancho_net.Pool.{Pool, max_pool_size, allocate, deallocate}
use kancho_net.Pool.Reuse.{IsValid, deallocate_lem}

-- One idle buffer, with stale bytes.
abbrev idle : Packet
idle = record { vector = record { elems = 7 ∷ 8 ∷ []; capacity = 16; block = 1 }; size = 0 }

abbrev used : Packet
used = record { vector = record { elems = 3 ∷ 4 ∷ []; capacity = 16; block = 2 }; size = 2 }

abbrev one : Pool
one = record { buffer_size = 16; total_allocated = 1; pool = idle ∷ [] }

one-IsValid : IsValid one
one-IsValid = omega arith

deallocate_lem_example :
    IsValid (deallocate one (some used))
    × (((1 < max_pool_size) × (allocate (deallocate one (some used)) ≡ some (clear used, one)))
        ⊎ ((max_pool_size ≤ 1) × (deallocate one (some used) ≡ one)))
deallocate_lem_example = deallocate_lem used one-IsValid (omega arith)
