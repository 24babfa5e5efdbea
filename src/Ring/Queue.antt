-- ===== src/Ring/Queue.antt =====
-- The contract of KanchoNet/Buffer/RingBuffer: a queue of at most `room` bytes.
use kancho_net.Common.{
  ℕ, ◌-◌, ◌≡◌, refl, min, List, [], ◌∷◌, ◌++◌, Option, some, arith, ◌>>=◌, length, take, drop,
  replicate, length-replicate, take-take_append,
}
use kancho_net.Ring.{Ring, available_read, write, read, peek, skip, clear}
use kancho_net.Ring.Bounds.{IsValid, available_sum, clear-IsValid, capacity-clear}
use kancho_net.Ring.Contents.{contents, length-contents, contents-clear}
use kancho_net.Ring.Write.{write_lem}
use kancho_net.Ring.Read.{skipped, skip_lem, peek_lem, read_lem}

pub data Call : Type 0 where
  puts : List ℕ → Call
  gets looks drops : ℕ → Call
  resets : Call

-- What a call returns: the number of bytes, and those that it copied out.
abbrev pub Reply : Type 0
Reply = ℕ × List ℕ

-- A call of the buffer. The caller's arrays have the size that is passed.
unfoldable pub step : Ring → Call → Option (Reply × Ring)
step r (puts xs) = do (n, r') ← write r (some xs) (length xs); some ((n, []), r')
step r (gets size) = do
  (n, out, r') ← read r (some (replicate size 0)) size
  some ((n, take n out), r')
step r (looks size) = do (n, out) ← peek r (some (replicate size 0)) size; some ((n, take n out), r)
step r (drops size) = do (n, r') ← skip r size; some ((n, []), r')
step r resets = some ((0, []), clear r)

unfoldable pub run : Ring → List Call → Option (List Reply)
run r [] = some []
run r (c ∷ cs) = do (x, r') ← step r c; xs ← run r' cs; some (x ∷ xs)

-- The queue's calls.
unfoldable pub queue_step : ℕ → List ℕ → Call → Reply × List ℕ
queue_step room q (puts xs) = let n = min (length xs) (room - length q) in ((n, []), q ++ take n xs)
queue_step room q (gets size) = let n = min size (length q) in ((n, take n q), drop n q)
queue_step room q (looks size) = let n = min size (length q) in ((n, take n q), q)
queue_step room q (drops size) = let n = min size (length q) in ((n, []), drop n q)
queue_step room q resets = ((0, []), [])

unfoldable pub queue_run : ℕ → List ℕ → List Call → List Reply
queue_run room q [] = []
queue_run room q (c ∷ cs) = let (x, q') = queue_step room q c in x ∷ queue_run room q' cs

-- One call of a valid buffer is defined, answers as the queue does, and leaves a valid buffer of the same
-- capacity that holds the queue afterwards.
pub step_refines :
    {r : Ring} (c : Call)
    → IsValid r
    → (r' : Ring) × (step r c ≡ some ((queue_step (r.capacity - 1) (contents r) c).0, r'))
      × IsValid r'
      × (r'.capacity ≡ r.capacity)
      × (contents r' ≡ (queue_step (r.capacity - 1) (contents r) c).1)
unfolding step queue_step
step_refines {r} (puts xs) v =
    let (r', e, v', c, k) = write_lem xs (length xs) v (omega arith) in
    (
      r',
      ground (arith, e, length-contents r, available_sum v),
      v',
      k,
      ground (arith, c, length-contents r, available_sum v),
    )
step_refines {r} (gets size) v =
    let n = min size (available_read r) in
    let dest = replicate {A = ℕ} size 0 in
    let (e, v', c) = read_lem dest size v (omega (arith, length-replicate {A = ℕ} size 0)) in
    (
      skipped r n,
      ground (arith, e, length-contents r, take-take_append n (contents r) (drop n dest)),
      v',
      refl,
      ground (arith, c, length-contents r),
    )
step_refines {r} (looks size) v =
    let n = min size (available_read r) in
    let dest = replicate {A = ℕ} size 0 in
    (
      r,
      ground (
        arith,
        peek_lem dest size v (omega (arith, length-replicate {A = ℕ} size 0)),
        length-contents r,
        take-take_append n (contents r) (drop n dest),
      ),
      v,
      refl,
      refl,
    )
step_refines {r} (drops size) v =
    let (e, v', c) = skip_lem size v in
    (
      skipped r (min size (available_read r)),
      ground (arith, e, length-contents r),
      v',
      refl,
      ground (arith, c, length-contents r),
    )
step_refines {r} resets v = (clear r, refl, clear-IsValid v, capacity-clear r, contents-clear r)

-- On a valid buffer every sequence of Write, Read, Peek, Skip and Clear is defined and answers as the bounded
-- queue of its bytes does, from the first call to the last.
pub run_refines :
    (cs : List Call) {r : Ring}
    → IsValid r
    → run r cs ≡ some (queue_run (r.capacity - 1) (contents r) cs)
unfolding run queue_run
run_refines [] v = refl
run_refines (c ∷ cs) {r} v =
    let (r', e, v', k, q) = step_refines c v in rw (e, run_refines cs v', k, q) refl
