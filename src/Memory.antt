-- ===== src/Memory.antt =====
-- `std::memcpy` between byte arrays. An access outside an array is undefined behaviour, `none` here.
use kancho_net.Common.{
  ℕ, ◌+◌, ◌-◌, ◌≤◌, ◌<◌, ◌≡◌, List, [], ◌++◌, refl, sym, Option, none, some, ◌&&◌, arith, ltb, leb,
  if◌then◌else◌, length, get_or, take, drop, length-append, length-take, length-drop,
  get_or-append_left, get_or-append_right, get_or-take, get_or-drop, take-append_exact,
  drop-append_exact, drop-add, append_assoc, zero-add,
}

-- `dst` with the bytes `xs` in place of those from index `i` on.
unfoldable pub splice : List ℕ → ℕ → List ℕ → List ℕ
splice dst i xs = take i dst ++ (xs ++ drop (i + length xs) dst)

-- memcpy(dst + i, src + j, n)
unfoldable pub memcpy : List ℕ → ℕ → List ℕ → ℕ → ℕ → Option (List ℕ)
unfolding splice
memcpy dst i src j n =
    if leb (i + n) (length dst) && leb (j + n) (length src)
    then some (splice dst i (take n (drop j src)))
    else none

-- Within both arrays the copy is made.
pub memcpy-in_bounds :
    (dst : List ℕ) (i : ℕ) (src : List ℕ) (j n : ℕ)
    → i + n ≤ length dst
    → j + n ≤ length src
    → memcpy dst i src j n ≡ some (splice dst i (take n (drop j src)))
unfolding memcpy
memcpy-in_bounds dst i src j n h k = ground arith

-- Outside one of them it is undefined.
pub memcpy_overrun :
    (dst : List ℕ) (i : ℕ) (src : List ℕ) (j n : ℕ)
    → length dst < i + n
    → memcpy dst i src j n ≡ none
unfolding memcpy
memcpy_overrun dst i src j n h = ground arith

pub length-splice :
    (dst : List ℕ) (i : ℕ) (xs : List ℕ)
    → i + length xs ≤ length dst
    → length (splice dst i xs) ≡ length dst
unfolding splice
length-splice dst i xs h = omega (
  arith,
  length-append (take i dst) (xs ++ drop (i + length xs) dst),
  length-append xs (drop (i + length xs) dst),
  length-take i dst,
  length-drop (i + length xs) dst,
)

pub get_or-splice :
    (dst : List ℕ) (i : ℕ) (xs : List ℕ) (j : ℕ)
    → i + length xs ≤ length dst
    → get_or (splice dst i xs) j 0 ≡ (
        if ltb j i
        then get_or dst j 0
        else if ltb j (i + length xs)
        then get_or xs (j - i) 0
        else get_or dst j 0)
unfolding splice
get_or-splice dst i xs j h = ground (
  arith,
  length-take i dst,
  get_or-append_left (take i dst) (xs ++ drop (i + length xs) dst) j 0,
  get_or-append_right (take i dst) (xs ++ drop (i + length xs) dst) j 0,
  get_or-take i dst j 0,
  get_or-append_left xs (drop (i + length xs) dst) (j - i) 0,
  get_or-append_right xs (drop (i + length xs) dst) (j - i) 0,
  get_or-drop (i + length xs) dst (j - i - length xs) 0,
)

pub splice-nil : (dst : List ℕ) → splice dst 0 [] ≡ dst
unfolding splice
splice-nil dst = refl

-- Two copies, one behind the other, are one copy.
pub splice-splice :
    (dst xs ys : List ℕ)
    → splice (splice dst 0 xs) (length xs) ys ≡ (xs ++ ys) ++ drop (length xs + length ys) dst
unfolding splice
splice-splice dst xs ys =
    rw
      (
        take-append_exact xs (drop (0 + length xs) dst),
        drop-add (length xs) (length ys) (splice dst 0 xs),
        drop-append_exact xs (drop (0 + length xs) dst),
      )
      (rw (zero-add, ← drop-add (length xs) (length ys) dst) (sym (append_assoc xs ys _)))

pub splice-zero : (dst xs : List ℕ) → splice dst 0 xs ≡ xs ++ drop (length xs) dst
unfolding splice
splice-zero dst xs = rw zero-add
