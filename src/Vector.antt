-- ===== src/Vector.antt =====
-- What the sources use of `std::vector<uint8_t>`: its elements, its capacity, and which block of
-- memory it owns, since a reallocation leaves older pointers dangling. A vector that grows takes
-- exactly the capacity that is asked for; `none` is the `length_error` above the largest size.
use kancho_net.Common.{
  ℕ, suc, ◌-◌, ◌≤◌, ◌^◌, ◌≡◌, refl, List, [], ◌++◌, Option, none, some, arith, ltb, if◌then◌else◌,
  length, take, replicate, length-take, length-append, length-replicate, Bool-cases, inl, inr,
}

pub record Vector : Type 0 where
  pub elems : List ℕ
  pub capacity : ℕ
  pub block : ℕ

abbrev pub max_size : ℕ
max_size = 2 ^ 63 - 1

pub record IsValid (v : Vector) : Type 0 where
  pub fits : length v.elems ≤ v.capacity
  pub bounded : v.capacity ≤ max_size

unfoldable pub empty : Vector
empty = record { elems = []; capacity = 0; block = 0 }

unfoldable pub reserve : Vector → ℕ → Option Vector
reserve v n =
    if ltb max_size n
    then none
    else if ltb v.capacity n
    then some (record v { capacity = n; block = suc v.block })
    else some v

-- The copy assignment.
unfoldable pub assign : Vector → Vector → Vector
assign v w =
    if ltb v.capacity (length w.elems)
    then record { elems = w.elems; capacity = length w.elems; block = suc v.block }
    else record v { elems = w.elems }

-- The elements behind the old ones are zero.
abbrev pub resized : List ℕ → ℕ → List ℕ
resized xs n = take n xs ++ replicate (n - length xs) 0

unfoldable pub resize : Vector → ℕ → Option Vector
resize v n =
    if ltb max_size n
    then none
    else if ltb v.capacity n
    then some (record { elems = resized v.elems n; capacity = n; block = suc v.block })
    else some (record v { elems = resized v.elems n })

pub length-resized : (xs : List ℕ) (n : ℕ) → length (resized xs n) ≡ n
length-resized xs n = omega (
  arith,
  length-append (take n xs) (replicate (n - length xs) 0),
  length-take n xs,
  length-replicate {A = ℕ} (n - length xs) 0,
)

-- Within the capacity a resize keeps the block.
pub resize_within :
    (v : Vector) (n : ℕ)
    → n ≤ v.capacity
    → v.capacity ≤ max_size
    → resize v n ≡ some (record v { elems = resized v.elems n })
unfolding resize
resize_within v n h k = ground arith

-- A resize succeeds up to the largest size, and its elements do not depend on the capacity.
pub resize_total :
    (v : Vector) (n : ℕ)
    → n ≤ max_size
    → v.capacity ≤ max_size
    → (w : Vector) × (resize v n ≡ some w)
      × (w.elems ≡ resized v.elems n)
      × (n ≤ w.capacity)
      × (w.capacity ≤ max_size)
unfolding resize
resize_total v n h k = elim (Bool-cases (ltb v.capacity n)) [
  | inl grows ↦ (
    record { elems = resized v.elems n; capacity = n; block = suc v.block },
    ground arith,
    refl,
    omega arith,
    h,
  )
  | inr within ↦ (record v { elems = resized v.elems n }, ground arith, refl, ground arith, k)
]
