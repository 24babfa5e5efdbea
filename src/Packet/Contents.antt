-- ===== src/Packet/Contents.antt =====
-- The bytes that a KanchoNet/Buffer/PacketBuffer holds, and what its methods make of them.
use kancho_net.Common.{
  ℕ, suc, ◌+◌, ◌*◌, ◌≤◌, ◌≡◌, refl, ◌∙◌, ap, inl, inr, List, [], ◌++◌, some, arith, ltb, ◌==◌,
  Bool-cases, length, take, drop, length-take, length-append, take_all, append-nil,
  take-append_left, drop_all, take-take,
}
use kancho_net.Memory.{splice, splice-zero, memcpy-in_bounds, length-splice}
use kancho_net.Vector
use kancho_net.Vector.{
  Vector, max_size, resized, length-resized, resize_within, resize_total, reserve, resize,
}
use kancho_net.Packet.{
  Packet, array, bytes, is_null, of_data, clear, resize_to, make_room, append, set_data,
}

pub record IsValid (b : Packet) : Type 0 where
  pub used : b.size ≤ length b.vector.elems
  pub fits : length b.vector.elems ≤ b.vector.capacity
  pub bounded : b.vector.capacity ≤ max_size

unfoldable pub contents : Packet → List ℕ
contents b = take b.size b.vector.elems

-- A resize keeps the bytes in front.
pub take-resized :
    (elems : List ℕ) (i n : ℕ) → i ≤ length elems → i ≤ n → take i (resized elems n) ≡ take i elems
take-resized elems i n h k =
    take-append_left i (take n elems) _ (omega (arith, length-take n elems)) ∙ take-take i n elems k

-- Copying `n` bytes of `xs` behind the first `i` of a vector that has been resized to `i + n`
-- leaves those `i` and puts the `n` behind them.
pub contents_lem : (b : Packet) → contents b ≡ take b.size b.vector.elems
unfolding contents
contents_lem b = refl

pub splice-resized :
    (elems xs : List ℕ) (i n : ℕ)
    → i ≤ length elems
    → n ≤ length xs
    → splice (resized elems (i + n)) i (take n (drop 0 xs)) ≡ take i elems ++ take n xs
unfolding splice
splice-resized elems xs i n h k = rw (
  take-resized elems i (i + n) h (omega arith),
  drop_all (i + length (take n xs)) (resized elems (i + n))
      (omega (arith, length-take n xs, length-resized elems (i + n))),
  append-nil (take n xs),
)

make_room_lem :
    (v : Vector) (total : ℕ)
    → total * 2 ≤ max_size
    → v.capacity ≤ max_size
    → (w : Vector) × (make_room v total ≡ some w)
      × (w.elems ≡ v.elems)
      × (total ≤ w.capacity)
      × (w.capacity ≤ max_size)
unfolding make_room reserve
make_room_lem v total h k = elim (Bool-cases (ltb v.capacity total)) [
  | inl grows ↦
      (record v { capacity = total * 2; block = suc v.block }, ground arith, refl, omega arith, h)
  | inr room ↦ (v, ground arith, refl, ground arith, k)
]

-- A buffer whose vector has just taken `n` bytes behind the first `i`.
abbrev pub appended : Vector → List ℕ → ℕ → ℕ → Packet
appended w xs i n = record {
  vector = record w { elems = splice (resized w.elems (i + n)) i (take n (drop 0 xs)) };
  size = i + n;
}

module _ (w : Vector) (xs : List ℕ) (i n : ℕ) where
  pub appended-IsValid :
      i + n ≤ w.capacity → w.capacity ≤ max_size → n ≤ length xs → IsValid (appended w xs i n)
  appended-IsValid h k l = ground (
    arith,
    length-take n xs,
    length-resized w.elems (i + n),
    length-splice (resized w.elems (i + n)) i (take n xs),
  )

  pub contents-appended :
      i ≤ length w.elems
      → n ≤ length xs
      → contents (appended w xs i n) ≡ take i w.elems ++ take n xs
  unfolding contents
  contents-appended h k =
      ap (take (i + n)) (splice-resized w.elems xs i n h k)
      ∙ take_all (i + n) (take i w.elems ++ take n xs) (
          omega (
            arith,
            length-append (take i w.elems) (take n xs),
            length-take i w.elems,
            length-take n xs,
          ))

-- `Append` of an array puts its bytes behind those held, for as long as twice the total is within
-- the largest size of a vector.
pub append_lem :
    {b : Packet} (xs : List ℕ) (n : ℕ)
    → IsValid b
    → n ≤ length xs
    → (b.size + n) * 2 ≤ max_size
    → (b' : Packet) × (append b (array xs) n ≡ some b')
      × IsValid b'
      × (contents b' ≡ contents b ++ take n xs)
unfolding append bytes is_null
append_lem {b} xs n v h k = elim (Bool-cases (n == 0)) [
  | inl nothing ↦ (b, ground arith, v, ground (arith, append-nil (contents b)))
  | inr more ↦
      let (w, e, same, room, small) = make_room_lem b.vector (b.size + n) k v.bounded in
      (
        appended w xs b.size n,
        ground (
          arith,
          e,
          resize_within w (b.size + n) room small,
          memcpy-in_bounds (resized w.elems (b.size + n)) b.size xs 0 n,
          length-resized w.elems (b.size + n),
        ),
        appended-IsValid w xs b.size n room small h,
        ground (arith, contents-appended w xs b.size n, same, v.used, contents_lem b),
      )
]

-- A vector of `n` bytes that takes `n` bytes from the start on holds just those.
splice_whole :
    (elems xs : List ℕ) (n : ℕ)
    → length elems ≡ n
    → n ≤ length xs
    → splice elems 0 (take n (drop 0 xs)) ≡ take n xs
splice_whole elems xs n h k = rw (
  splice-zero elems (take n xs),
  drop_all (length (take n xs)) elems (omega (arith, length-take n xs)),
  append-nil (take n xs),
)

-- `SetData` replaces the bytes held by those of the array, whatever the buffer held before.
pub set_data_lem :
    {b : Packet} (xs : List ℕ) (n : ℕ)
    → IsValid b
    → n ≤ length xs
    → n ≤ max_size
    → (b' : Packet) × (set_data b (array xs) n ≡ some b') × IsValid b' × (contents b' ≡ take n xs)
unfolding set_data bytes is_null clear contents
set_data_lem {b} xs n v h k = elim (Bool-cases (ltb 0 n)) [
  | inl more ↦
      let (w, e, grown, room, small) = resize_total b.vector n k v.bounded in
      (
        record { vector = record w { elems = take n xs }; size = n },
        ground (
          arith,
          e,
          grown,
          length-resized b.vector.elems n,
          memcpy-in_bounds w.elems 0 xs 0 n,
          splice_whole w.elems xs n,
        ),
        ground (arith, length-take n xs),
        take-take n n xs (omega arith),
      )
  | inr nothing ↦ (record b { size = 0 }, ground arith, ground arith, ground arith)
]

-- The constructor from an array holds its first `n` bytes.
pub of_data_lem :
    (xs : List ℕ) (n : ℕ)
    → n ≤ length xs
    → n ≤ max_size
    → (b : Packet) × (of_data (array xs) n ≡ some b) × IsValid b × (contents b ≡ take n xs)
unfolding of_data bytes is_null contents Vector.empty
of_data_lem xs n h k =
    let (w, e, grown, room, small) = resize_total Vector.empty n k (omega arith) in
    (
      record { vector = record w { elems = take n xs }; size = n },
      ground (
        arith,
        e,
        grown,
        length-resized [] n,
        memcpy-in_bounds w.elems 0 xs 0 n,
        splice_whole w.elems xs n,
      ),
      ground (arith, length-take n xs),
      take-take n n xs (omega arith),
    )

-- `Resize` to `n` keeps the first `n` bytes of the storage and puts zeros behind it: a buffer that
-- has been cleared shows the bytes that it held before.
pub resize_to_lem :
    {b : Packet} (n : ℕ)
    → IsValid b
    → n ≤ max_size
    → (b' : Packet) × (resize_to b n ≡ some b')
      × IsValid b'
      × (contents b' ≡ resized b.vector.elems n)
unfolding resize_to contents
resize_to_lem {b} n v h =
    let (w, e, grown, room, small) = resize_total b.vector n h v.bounded in
    (
      record { vector = w; size = n },
      ground (arith, e),
      ground (arith, grown, length-resized b.vector.elems n),
      ground (arith, grown, length-resized b.vector.elems n, take_all n (resized b.vector.elems n)),
    )
