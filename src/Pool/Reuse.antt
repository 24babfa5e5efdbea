-- ===== src/Pool/Reuse.antt =====
-- What the methods of KanchoNet/Buffer/BufferPool hand out and keep.
use kancho_net.Common.{
  leb, leb→le, leb→lt, ℕ, zero, suc, ◌+◌, ◌≤◌, ◌<◌, ◌≡◌, refl, List, [], ◌∷◌, Option, some, arith,
  length, ltb, ◌⊎◌, inl, inr, Bool-cases, ◌%◌, ◌^◌,
}
use kancho_net.Vector
use kancho_net.Vector.{max_size, reserve}
use kancho_net.Packet.{Packet, clear, with_capacity}
use kancho_net.Packet.Contents.{contents}
use kancho_net.Packet.Contents
use kancho_net.Pool.{Pool, max_pool_size, fill, create, allocate_from, allocate, deallocate}

-- Every buffer at rest is valid and empty.
abbrev pub AllEmpty : List Packet → Type 0
AllEmpty [] = Unit {0}
AllEmpty (b ∷ bs) = Contents.IsValid b × (b.size ≡ 0) × AllEmpty bs

pub record IsValid (p : Pool) : Type 0 where
  pub idle : AllEmpty p.pool
  pub makes : p.buffer_size ≤ max_size

with_capacity_lem :
    (n : ℕ)
    → n ≤ max_size
    → (b : Packet) × (with_capacity n ≡ some b)
      × Contents.IsValid b
      × (b.size ≡ 0)
      × (n ≤ b.vector.capacity)
unfolding with_capacity reserve Vector.empty
with_capacity_lem n h = elim (Bool-cases (ltb 0 n)) [
  | inl more ↦ (
    record { vector = record { elems = []; capacity = n; block = 1 }; size = 0 },
    ground arith,
    omega arith,
    refl,
    omega arith,
  )
  | inr nothing ↦ (
    record { vector = record { elems = []; capacity = 0; block = 0 }; size = 0 },
    ground arith,
    omega arith,
    refl,
    ground arith,
  )
]

fill_lem :
    (size rounds : ℕ) (made : List Packet)
    → size ≤ max_size
    → AllEmpty made
    → (bs : List Packet) × (fill size rounds made ≡ some bs)
      × AllEmpty bs
      × (length bs ≡ rounds + length made)
unfolding fill
fill_lem size zero made h k = (made, refl, k, omega arith)
fill_lem size (suc rounds) made h k =
    let (b, e, v, z, _) = with_capacity_lem size h in
    let (bs, f, vs, l) = fill_lem size rounds (b ∷ made) h (v, z, k) in
    (bs, ground (arith, e, f), vs, omega (arith, l))

-- The constructor makes as many empty buffers as it is told to.
pub create_lem :
    (size count : ℕ)
    → size ≤ max_size
    → (p : Pool) × (create size count ≡ some p) × IsValid p × (length p.pool ≡ count)
unfolding create
create_lem size count h =
    let (bs, e, vs, l) = fill_lem size count [] h tt in
    (
      record { buffer_size = size; total_allocated = 0; pool = bs },
      ground (arith, e),
      record { idle = vs; makes = h },
      omega (arith, l),
    )

-- What an allocation from a pool with the buffers `bs` does.
abbrev pub Allocates : List Packet → Pool → Option (Packet × Pool) → Type 0
Allocates bs p r =
    (b : Packet) × (q : Pool) × (r ≡ some (b, q))
    × Contents.IsValid b
    × (contents b ≡ [])
    × IsValid q
    × (((length bs ≡ length q.pool + 1) × (q.total_allocated ≡ p.total_allocated))
        ⊎ ((length bs ≡ 0)
            × (length q.pool ≡ 0)
            × (q.total_allocated ≡ (p.total_allocated + 1) % 2 ^ 64)))

allocate_from_lem :
    (bs : List Packet) (p : Pool)
    → p.pool ≡ bs
    → AllEmpty bs
    → p.buffer_size ≤ max_size
    → Allocates bs p (allocate_from bs p)
unfolding allocate_from clear contents
allocate_from_lem [] p e h k =
    let (b, f, v, z, _) = with_capacity_lem p.buffer_size k in
    (
      b,
      record p { total_allocated = (p.total_allocated + 1) % 2 ^ 64 },
      ground (arith, f),
      v,
      ground (arith, z),
      ground arith,
      inr (refl, ground arith, refl),
    )
allocate_from_lem (b ∷ rest) p e (v, z, h) k = (
  clear b,
  record p { pool = rest },
  refl,
  ground arith,
  refl,
  record { idle = h; makes = k },
  inl (omega arith, refl),
)

-- An allocation succeeds, with a valid buffer that holds nothing, and leaves a valid pool: it has
-- one buffer less, or had none and then counts one more buffer made.
pub allocate_lem : {p : Pool} → IsValid p → Allocates p.pool p (allocate p)
unfolding allocate
allocate_lem {p} v = allocate_from_lem p.pool p refl v.idle v.makes

-- A buffer that comes back is emptied and is the next to be given out, as long as the pool holds
-- fewer than its limit; a pool at its limit drops it. The pool stays valid.
pub deallocate_lem :
    {p : Pool} (b : Packet)
    → IsValid p
    → Contents.IsValid b
    → IsValid (deallocate p (some b))
      × (((length p.pool < max_pool_size) × (allocate (deallocate p (some b)) ≡ some (clear b, p)))
          ⊎ ((max_pool_size ≤ length p.pool) × (deallocate p (some b) ≡ p)))
unfolding deallocate allocate clear
deallocate_lem {p} b v w = elim (Bool-cases (leb max_pool_size (length p.pool))) [
  | inl full ↦ (ground arith, inr (leb→le _ _ full, ground arith))
  | inr room ↦ (ground arith, inl (leb→lt _ _ room, ground arith))
]
