-- ===== src/Ring/Tests.antt =====
-- Runs of KanchoNet/Buffer/RingBuffer, and its theorems at concrete buffers.
use kancho_net.Common.{◌+◌, ◌-◌, ◌^◌, ◌≤◌, ◌≡◌, refl, List, [], ◌∷◌, none, some, arith, replicate}
use kancho_net.Memory.{memcpy, splice}
use kancho_net.Ring.{
  Ring, create, available_read, available_write, contiguous_read, contiguous_write, write, read,
  peek, skip, move, commit_write, write_bytes, peek_bytes, advance,
}
use kancho_net.Ring.Bounds.{IsValid, contiguous_in_bounds}
use kancho_net.Ring.Contents.{contents, byte_at}
use kancho_net.Ring.Moved.{moved_from_write}
use kancho_net.Ring.Queue.{Call, puts, gets, looks, drops, step, run, queue_run, run_refines}

-- 3, 4, then 5 and 6 round the end of the storage; one more byte fits.
abbrev wrapped : Ring
wrapped = record { buffer = 5 ∷ 6 ∷ 0 ∷ 0 ∷ 3 ∷ 4 ∷ []; capacity = 6; read_pos = 4; write_pos = 2 }

-- 3 and 4 at the end of the storage: three more bytes fit, in two pieces.
abbrev at_end : Ring
at_end = record { buffer = 0 ∷ 0 ∷ 3 ∷ 4 ∷ 0 ∷ 0 ∷ []; capacity = 6; read_pos = 2; write_pos = 4 }

abbrev script : List Call
script = puts (7 ∷ 8 ∷ []) ∷ looks 2 ∷ gets 4 ∷ drops 9 ∷ puts (1 ∷ []) ∷ gets 3 ∷ []

wrapped-IsValid : IsValid wrapped
wrapped-IsValid = omega arith

at_end-IsValid : IsValid at_end
at_end-IsValid = omega arith

contents_of_wrapped : contents wrapped ≡ 3 ∷ 4 ∷ 5 ∷ 6 ∷ []
unfolding contents available_read byte_at
contents_of_wrapped = refl

write_in_two :
    write at_end (some (7 ∷ 8 ∷ 9 ∷ [])) 3
    ≡ some (
      3,
      record { buffer = 9 ∷ 0 ∷ 3 ∷ 4 ∷ 7 ∷ 8 ∷ []; capacity = 6; read_pos = 2; write_pos = 1 },
    )
unfolding write write_bytes available_write available_read contiguous_write memcpy splice
write_in_two = refl

peek_in_two : peek wrapped (some (0 ∷ 0 ∷ 0 ∷ 1 ∷ [])) 3 ≡ some (3, 3 ∷ 4 ∷ 5 ∷ 1 ∷ [])
unfolding peek peek_bytes available_read contiguous_read memcpy splice
peek_in_two = refl

create_limit : create (2 ^ 63 - 1) ≡ none
unfolding create
create_limit = refl

run-wrapped :
    run wrapped script
    ≡ some
        ((1, []) ∷ (2, 3 ∷ 4 ∷ []) ∷ (4, 3 ∷ 4 ∷ 5 ∷ 6 ∷ []) ∷ (1, []) ∷ (1, []) ∷ (1, 1 ∷ []) ∷ [])
unfolding run step write write_bytes read peek peek_bytes skip advance memcpy splice available_read
    available_write contiguous_read contiguous_write replicate
run-wrapped = refl

run_refines_example : run wrapped script ≡ some (queue_run 5 (contents wrapped) script)
run_refines_example = run_refines script wrapped-IsValid

contiguous_in_bounds_example :
    (2 + contiguous_write wrapped ≤ 6)
    × (contiguous_write wrapped ≤ available_write wrapped)
    × (4 + contiguous_read wrapped ≤ 6)
    × (contiguous_read wrapped ≤ available_read wrapped)
contiguous_in_bounds_example = contiguous_in_bounds wrapped-IsValid

moved_from_write_example :
    (available_write (move wrapped).1 ≡ 2 ^ 64 - 1)
    × (write (move wrapped).1 (some (1 ∷ [])) 1 ≡ none)
    × (commit_write (move wrapped).1 1 ≡ none)
moved_from_write_example = moved_from_write wrapped (1 ∷ []) 1 (omega arith) (omega arith)
