-- ===== src/Ring/Write.antt =====
-- KanchoNet/Buffer/RingBuffer.cpp, Write and CommitWrite: what they append to the bytes held.
use kancho_net.Common.{
  ℕ, ◌+◌, ◌-◌, ◌%◌, ◌≤◌, ◌<◌, ◌≡◌, refl, ◌∙◌, min, inl, inr, List, ◌++◌, some, arith, ltb, leb,
  if◌then◌else◌, ◌==◌, Bool-cases, length, get_or, take, drop, length-take, length-drop, take-take,
  drop-take, drop_all, get_or-take, get_or-drop, append-nil, leb→le,
}
use kancho_net.Memory.{splice, splice-nil, memcpy-in_bounds, length-splice, get_or-splice}
use kancho_net.Ring.{Ring, available_read, available_write, contiguous_write, write, write_bytes}
use kancho_net.Ring.Bounds.{
  IsValid, wrap, available_read_lem, available_write_lem, contiguous_write_lem,
  contiguous_in_bounds, mod-eq-wrap, advance_lem,
}
use kancho_net.Ring.Contents.{contents, byte_at, contents-append}

-- The buffer after `xs` has been written behind the bytes held, of which `take c xs` at the write position
-- and the rest from the start of the storage.
abbrev pub written : Ring → List ℕ → ℕ → Ring
written r xs c = record r {
  buffer = splice (splice r.buffer r.write_pos (take c xs)) 0 (drop c xs);
  write_pos = wrap r.capacity (r.write_pos + length xs);
}

-- `c` is what fits before the end of the storage.
abbrev pub SplitsAt : Ring → List ℕ → ℕ → Type 0
SplitsAt r xs c =
    (c ≤ length xs)
    × (r.write_pos + c ≤ r.capacity)
    × (length xs ≤ available_write r)
    × (c < length xs → r.write_pos + c ≡ r.capacity)

module _ {r : Ring} (xs : List ℕ) (c : ℕ) (v : IsValid r) (s : SplitsAt r xs c) where
  length_first : length (take c xs) ≡ c
  length_first = omega (arith, length-take c xs)

  length_rest : length (drop c xs) ≡ length xs - c
  length_rest = length-drop c xs

  length_middle : length (splice r.buffer r.write_pos (take c xs)) ≡ r.capacity
  length_middle =
      length-splice r.buffer r.write_pos (take c xs) (omega (arith, length_first, v.storage))
      ∙ v.storage

  rest_fits : length xs - c ≤ r.capacity
  rest_fits = omega (arith, available_write_lem v)

  pub written-IsValid : IsValid (written r xs c)
  unfolding wrap
  written-IsValid = ground (
    arith,
    available_write_lem v,
    length_rest,
    rest_fits,
    length_middle,
    length-splice (splice r.buffer r.write_pos (take c xs)) 0 (drop c xs),
  )

  available_read-written : available_read (written r xs c) ≡ available_read r + length xs
  unfolding wrap
  available_read-written =
      ground
        (arith, available_read_lem written-IsValid, available_read_lem v, available_write_lem v)

  -- The storage afterwards, slot by slot.
  written_slot :
      (j : ℕ)
      → get_or (written r xs c).buffer j 0 ≡ (
          if ltb j (length xs - c)
          then get_or xs (c + j) 0
          else if ltb j r.write_pos
          then get_or r.buffer j 0
          else if ltb j (r.write_pos + c)
          then get_or xs (j - r.write_pos) 0
          else get_or r.buffer j 0)
  written_slot j = ground (
    arith,
    length_first,
    length_rest,
    rest_fits,
    length_middle,
    v.storage,
    get_or-splice (splice r.buffer r.write_pos (take c xs)) 0 (drop c xs) j,
    get_or-splice r.buffer r.write_pos (take c xs) j,
    get_or-drop c xs (j - 0) 0,
    get_or-take c xs (j - r.write_pos) 0,
  )

  written_keeps : (i : ℕ) → i < available_read r → byte_at (written r xs c) i ≡ byte_at r i
  unfolding byte_at wrap
  written_keeps i h = ground (
    arith,
    written_slot ((r.read_pos + i) % r.capacity),
    mod-eq-wrap r.capacity (r.read_pos + i),
    available_read_lem v,
    available_write_lem v,
  )

  written_adds :
      (i : ℕ) → i < length xs → byte_at (written r xs c) (available_read r + i) ≡ get_or xs i 0
  unfolding byte_at wrap
  written_adds i h = ground (
    arith,
    written_slot ((r.read_pos + (available_read r + i)) % r.capacity),
    mod-eq-wrap r.capacity (r.read_pos + (available_read r + i)),
    available_read_lem v,
    available_write_lem v,
  )

  pub contents-written : contents (written r xs c) ≡ contents r ++ xs
  contents-written =
      contents-append r (written r xs c) xs available_read-written written_keeps written_adds

pub write_bytes_lem :
    {r : Ring} (src : List ℕ) (n : ℕ)
    → IsValid r
    → n ≤ length src
    → n ≤ available_write r
    → 0 < n
    → (c : ℕ) × SplitsAt r (take n src) c
      × (write_bytes r src n ≡ some (n, written r (take n src) c))
unfolding write_bytes wrap
write_bytes_lem {r} src n v h k p = elim (Bool-cases (leb n (contiguous_write r))) [
  | inl one ↦ (
    n,
    omega (arith, length-take n src, leb→le n _ one, contiguous_in_bounds v, v.storage),
    ground (
      arith,
      memcpy-in_bounds r.buffer r.write_pos src 0 n,
      advance_lem r.write_pos n v,
      take-take n n src,
      drop_all n (take n src),
      splice-nil (splice r.buffer r.write_pos (take n src)),
      contiguous_in_bounds v,
      available_write_lem v,
      length-take n src,
    ),
  )
  | inr two ↦ (
    contiguous_write r,
    ground (
      arith,
      length-take n src,
      contiguous_in_bounds v,
      contiguous_write_lem v,
      available_write_lem v,
      available_read_lem v,
      v.storage,
    ),
    (let c = contiguous_write r in
        ground (
          arith,
          memcpy-in_bounds r.buffer r.write_pos src 0 c,
          memcpy-in_bounds (splice r.buffer r.write_pos (take c src)) 0 src c (n - c),
          length-splice r.buffer r.write_pos (take c src),
          length-take c src,
          take-take c n src,
          drop-take c n src,
          contiguous_in_bounds v,
          contiguous_write_lem v,
          available_write_lem v,
          available_read_lem v,
          length-take n src,
        )),
  )
]

-- `Write` takes as many bytes as fit, returns their number, and appends exactly those bytes, in
-- order; it never leaves the array or the storage.
pub write_lem :
    {r : Ring} (src : List ℕ) (size : ℕ)
    → IsValid r
    → size ≤ length src
    → (r' : Ring) × (write r (some src) size ≡ some (min size (available_write r), r'))
      × IsValid r'
      × (contents r' ≡ contents r ++ take (min size (available_write r)) src)
      × (r'.capacity ≡ r.capacity)
unfolding write
write_lem {r} src size v h = elim (Bool-cases (min size (available_write r) == 0)) [
  | inl full ↦ (r, ground arith, v, ground (arith, append-nil (contents r)), refl)
  | inr room ↦
      let n = min size (available_write r) in
      let (c, s, e) = write_bytes_lem src n v (omega arith) (omega arith) (ground arith) in
      (
        written r (take n src) c,
        ground (arith, e),
        written-IsValid (take n src) c v s,
        contents-written (take n src) c v s,
        refl,
      )
]
