-- ===== src/Ring/Direct.antt =====
-- KanchoNet/Buffer/RingBuffer, direct access: GetWritePtr with CommitWrite and GetReadPtr with
-- CommitRead.
use kancho_net.Common.{
  ℕ, ◌≤◌, ◌≡◌, List, ◌++◌, some, arith, length, take, drop, take_all, drop_all, take-append-drop,
}
use kancho_net.Memory.{splice, splice-nil, length-splice}
use kancho_net.Ring.{
  Ring, available_write, contiguous_write, contiguous_read, commit_write, commit_read,
}
use kancho_net.Ring.Bounds.{
  IsValid, available_read_lem, available_write_lem, available_read-lt, contiguous_in_bounds,
  advance_lem,
}
use kancho_net.Ring.Contents.{contents, take-contents}
use kancho_net.Ring.Write.{SplitsAt, written, written-IsValid, contents-written}
use kancho_net.Ring.Read.{one_piece, skipped, skipped-IsValid, contents-skipped}

-- A caller has put `xs` where `GetWritePtr` points.
abbrev pub fill : Ring → List ℕ → Ring
fill r xs = record r { buffer = splice r.buffer r.write_pos xs }

module _ {r : Ring} (xs : List ℕ) (v : IsValid r) (h : length xs ≤ contiguous_write r) where
  fill-IsValid : IsValid (fill r xs)
  fill-IsValid = ground (arith, length-splice r.buffer r.write_pos xs, contiguous_in_bounds v)

  available_write-fill : available_write (fill r xs) ≡ available_write r
  available_write-fill = ground (
    arith,
    available_write_lem fill-IsValid,
    available_write_lem v,
    available_read_lem fill-IsValid,
    available_read_lem v,
  )

-- Bytes put behind the write pointer, no more than `GetContiguousWriteSize` allows, are appended by
-- `CommitWrite` of their number, as `Write` would append them.
pub commit_write_lem :
    {r : Ring} (xs : List ℕ)
    → IsValid r
    → length xs ≤ contiguous_write r
    → (r' : Ring) × (commit_write (fill r xs) (length xs) ≡ some r')
      × IsValid r'
      × (contents r' ≡ contents r ++ xs)
unfolding commit_write
commit_write_lem {r} xs v h =
    let c = length xs in
    let s : SplitsAt r xs c = ground (arith, contiguous_in_bounds v, v.storage) in
    (
      written r xs c,
      ground (
        arith,
        advance_lem {r = fill r xs} r.write_pos c (fill-IsValid xs v h),
        available_write-fill xs v h,
        contiguous_in_bounds v,
        available_read-lt v,
        available_write_lem v,
        take_all c xs,
        drop_all c xs,
        splice-nil (splice r.buffer r.write_pos xs),
      ),
      written-IsValid xs c v s,
      contents-written xs c v s,
    )

-- What `GetReadPtr` points to is the front of the bytes held, as far as `GetContiguousReadSize`
-- says, and `CommitRead` drops what it is told, at most all.
pub commit_read_lem :
    {r : Ring} (n : ℕ)
    → IsValid r
    → n ≤ contiguous_read r
    → (r' : Ring) × (commit_read r n ≡ some r')
      × IsValid r'
      × (contents r ≡ take n (drop r.read_pos r.buffer) ++ contents r')
unfolding commit_read
commit_read_lem {r} n v h = (
  skipped r n,
  ground (arith, advance_lem r.read_pos n v, contiguous_in_bounds v, available_read-lt v),
  skipped-IsValid n v (omega (arith, contiguous_in_bounds v)),
  ground (
    arith,
    one_piece n v h,
    take-contents r n,
    contiguous_in_bounds v,
    contents-skipped n v,
    take-append-drop n (contents r),
  ),
)
