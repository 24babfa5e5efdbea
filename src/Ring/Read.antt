-- ===== src/Ring/Read.antt =====
-- KanchoNet/Buffer/RingBuffer.cpp, Peek, Skip, Read and CommitRead: what they return of the bytes
-- held, and what they leave.
use kancho_net.Common.{
  ℕ, ◌+◌, ◌-◌, ◌≤◌, ◌<◌, ◌≡◌, sym, ◌∙◌, ap, ap₂, min, inl, inr, List, ◌++◌, some, arith, leb, ◌==◌,
  Bool-cases, length, take, drop, tabulate, tabulate_ext, tabulate-add, slice-eq-tabulate,
  length-tabulate, length-take, length-drop,
}
use kancho_net.Memory.{splice, splice-zero, splice-splice, memcpy-in_bounds, length-splice}
use kancho_net.Ring.{Ring, available_read, contiguous_read, peek, peek_bytes, skip, read}
use kancho_net.Ring.Bounds.{
  IsValid, wrap, available_read_lem, available_read-lt, contiguous_read_lem, contiguous_in_bounds,
  mod-eq-wrap, advance_lem,
}
use kancho_net.Ring.Contents.{contents, byte_at, contents-drop, take-contents}

-- The buffer with the read position moved on by `n`.
abbrev pub skipped : Ring → ℕ → Ring
skipped r n = record r { read_pos = wrap r.capacity (r.read_pos + n) }

module _ {r : Ring} (n : ℕ) (v : IsValid r) (h : n ≤ available_read r) where
  pub skipped-IsValid : IsValid (skipped r n)
  unfolding wrap
  skipped-IsValid = ground (arith, available_read_lem v)

  pub contents-skipped : contents (skipped r n) ≡ drop n (contents r)
  unfolding wrap byte_at
  contents-skipped =
      contents-drop r (skipped r n) n
        (ground (arith, available_read_lem skipped-IsValid, available_read_lem v))
        (λ i lt. ground (
          arith,
          available_read_lem v,
          mod-eq-wrap r.capacity (r.read_pos + (n + i)),
          mod-eq-wrap r.capacity ((skipped r n).read_pos + i),
        ))

-- `Skip` drops as many of the oldest bytes as there are, and returns their number.
pub skip_lem :
    {r : Ring} (size : ℕ)
    → IsValid r
    → let n = min size (available_read r) in
      (skip r size ≡ some (n, skipped r n))
      × IsValid (skipped r n)
      × (contents (skipped r n) ≡ drop n (contents r))
unfolding skip wrap
skip_lem {r} size v =
    let n = min size (available_read r) in
    (
      ground (arith, advance_lem r.read_pos (min size (available_read r)) v, available_read-lt v),
      skipped-IsValid n v (omega arith),
      contents-skipped n v (omega arith),
    )

-- The bytes that `Peek` copies, when it copies in one piece and when it copies in two.
pub one_piece :
    {r : Ring} (n : ℕ)
    → IsValid r
    → n ≤ contiguous_read r
    → take n (drop r.read_pos r.buffer) ≡ tabulate n (byte_at r)
unfolding byte_at wrap
one_piece {r} n v h =
    slice-eq-tabulate r.buffer r.read_pos n 0 (omega (arith, contiguous_in_bounds v))
    ∙ tabulate_ext n _ _ (λ i lt.
      ground (arith, contiguous_in_bounds v, v.storage, mod-eq-wrap r.capacity (r.read_pos + i)))

two_pieces :
    {r : Ring} (n : ℕ)
    → IsValid r
    → n ≤ available_read r
    → contiguous_read r < n
    → take (contiguous_read r) (drop r.read_pos r.buffer)
        ++ take (n - contiguous_read r) (drop 0 r.buffer)
      ≡ tabulate n (byte_at r)
unfolding byte_at wrap
two_pieces {r} n v h k =
    let c = contiguous_read r in
    let e : n ≡ c + (n - c) = omega arith in
    ap₂ ◌++◌ (one_piece c v (omega arith)) (
      slice-eq-tabulate r.buffer 0 (n - c) 0
        (ground (arith, available_read_lem v, contiguous_read_lem v))
      ∙ tabulate_ext (n - c) _ _ (λ i lt. ground (
        arith,
        available_read_lem v,
        contiguous_read_lem v,
        mod-eq-wrap r.capacity (r.read_pos + (c + i)),
      )))
    ∙ sym (tabulate-add c (n - c) (byte_at r))
    ∙ ap (λ k. tabulate k (byte_at r)) (sym e)

-- The copy itself, when there is something to copy.
pub peek_bytes_lem :
    {r : Ring} (dest : List ℕ) (n : ℕ)
    → IsValid r
    → n ≤ length dest
    → n ≤ available_read r
    → peek_bytes r dest n ≡ some (n, take n (contents r) ++ drop n dest)
unfolding peek_bytes
peek_bytes_lem {r} dest n v h k = elim (Bool-cases (leb n (contiguous_read r))) [
  | inl one ↦ ground (
    arith,
    memcpy-in_bounds dest 0 r.buffer r.read_pos n,
    contiguous_in_bounds v,
    one_piece n v,
    splice-zero dest (take n (drop r.read_pos r.buffer)),
    take-contents r n k,
    length-tabulate n (byte_at r),
  )
  | inr two ↦
      let c = contiguous_read r in
      let first = take c (drop r.read_pos r.buffer) in
      let second = take (n - c) (drop 0 r.buffer) in
      ground (
        arith,
        contiguous_in_bounds v,
        contiguous_read_lem v,
        available_read_lem v,
        memcpy-in_bounds dest 0 r.buffer r.read_pos c,
        memcpy-in_bounds (splice dest 0 first) c r.buffer 0 (n - c),
        length-splice dest 0 first,
        length-take c (drop r.read_pos r.buffer),
        length-drop r.read_pos r.buffer,
        length-take (n - c) r.buffer,
        splice-splice dest first second,
        two_pieces n v,
        take-contents r n k,
      )
]

-- `Peek` copies as many of the oldest bytes as are asked for and held to the front of the caller's
-- array, in order, leaves the rest of that array alone, and returns their number.
pub peek_lem :
    {r : Ring} (dest : List ℕ) (size : ℕ)
    → IsValid r
    → size ≤ length dest
    → let n = min size (available_read r) in
      peek r (some dest) size ≡ some (n, take n (contents r) ++ drop n dest)
unfolding peek
peek_lem {r} dest size v h = elim (Bool-cases (min size (available_read r) == 0)) [
  | inl nothing ↦ ground arith
  | inr some_bytes ↦
      ground
        (arith, peek_bytes_lem dest (min size (available_read r)) v (omega arith) (omega arith))
]

-- `Read` from a valid buffer into an array that is large enough returns what `Peek` returns, and
-- drops those bytes.
pub read_lem :
    {r : Ring} (dest : List ℕ) (size : ℕ)
    → IsValid r
    → size ≤ length dest
    → let n = min size (available_read r) in
      (read r (some dest) size ≡ some (n, take n (contents r) ++ drop n dest, skipped r n))
      × IsValid (skipped r n)
      × (contents (skipped r n) ≡ drop n (contents r))
unfolding read wrap
read_lem {r} dest size v h =
    let n = min size (available_read r) in
    (
      ground (
        arith,
        peek_lem dest size v h,
        advance_lem r.read_pos (min size (available_read r)) v,
        available_read-lt v,
      ),
      skipped-IsValid n v (omega arith),
      contents-skipped n v (omega arith),
    )
