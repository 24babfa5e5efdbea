-- ===== src/Session/Lock.antt =====
-- KanchoNet/Utils/SpinLock.h: threads that take and release one spin lock, as interleaved atomic
-- steps.
use kancho_net.Common.{ℕ, ◌≡◌, ◌≢◌, refl, Bool, true, false, arith, ◌==◌, if◌then◌else◌}

-- Where a thread is: outside, in the outer loop of `lock` before its `exchange`, in the inner loop
-- that waits for the flag to be clear, or between `lock` and `unlock`. A thread that calls `lock` while it
-- holds the lock is at the place of that second call.
pub data Place : Type 0 where
  outside trying waiting holding : Place

-- `mFlag`, and the place of each thread.
pub record Lock : Type 0 where
  pub flag : Bool
  pub place : ℕ → Place

abbrev pub put : (ℕ → Place) → ℕ → Place → ℕ → Place
put f t p u = if u == t then p else f u

-- One atomic step of a thread: calling `lock`, also while it holds the lock, the `exchange` that finds the flag clear or set, the
-- relaxed load that does or does not see it clear, `unlock`, and `try_lock`, which is the exchange alone.
pub data Step (t : ℕ) (l : Lock) (l' : Lock) : Type 0 where
  call : l.place t ≡ outside → l' ≡ record l { place = put l.place t trying } → Step t l l'
  reenter : l.place t ≡ holding → l' ≡ record l { place = put l.place t trying } → Step t l l'
  take :
      l.place t ≡ trying
      → l.flag ≡ false
      → l' ≡ record { flag = true; place = put l.place t holding }
      → Step t l l'
  miss :
      l.place t ≡ trying
      → l.flag ≡ true
      → l' ≡ record l { place = put l.place t waiting }
      → Step t l l'
  spin : l.place t ≡ waiting → l.flag ≡ true → l' ≡ l → Step t l l'
  retry :
      l.place t ≡ waiting
      → l.flag ≡ false
      → l' ≡ record l { place = put l.place t trying }
      → Step t l l'
  release :
      l.place t ≡ holding
      → l' ≡ record { flag = false; place = put l.place t outside }
      → Step t l l'
  try_take :
      l.place t ≡ outside
      → l.flag ≡ false
      → l' ≡ record { flag = true; place = put l.place t holding }
      → Step t l l'
  try_miss : l.place t ≡ outside → l.flag ≡ true → l' ≡ l → Step t l l'

pub data Reach (l : Lock) : Lock → Type 0 where
  here : Reach l l
  next : {m n : Lock} (t : ℕ) → Reach l m → Step t m n → Reach l n

abbrev pub free : Lock
free = record { flag = false; place = λ _. outside }

-- At most one thread holds the lock, and the flag is set while one does.
pub record IsValid (l : Lock) : Type 0 where
  pub held : (t : ℕ) → l.place t ≡ holding → l.flag ≡ true
  pub alone : (t u : ℕ) → l.place t ≡ holding → l.place u ≡ holding → t ≡ u

pub free-IsValid : IsValid free
free-IsValid = record { held = λ t e. cc; alone = λ t u e f. cc }

-- A thread that moves to a place where it does not hold the lock.
move-IsValid :
    {l : Lock} (t : ℕ) (p : Place)
    → p ≢ holding
    → IsValid l
    → IsValid (record l { place = put l.place t p })
move-IsValid t p ne v = record {
  held = λ u e. ground (arith, v.held u, ne);
  alone = λ a b e f. ground (arith, v.alone a b, ne);
}

-- A thread that finds the flag clear and sets it.
take-IsValid :
    {l : Lock} (t : ℕ)
    → l.flag ≡ false
    → IsValid l
    → IsValid (record { flag = true; place = put l.place t holding })
take-IsValid t clear v = record {
  held = λ u e. refl;
  alone = λ a b e f. ground (arith, v.held a, v.held b);
}

-- The holder that clears the flag.
release-IsValid :
    {l : Lock} (t : ℕ)
    → l.place t ≡ holding
    → IsValid l
    → IsValid (record { flag = false; place = put l.place t outside })
release-IsValid t h v = record {
  held = λ u e. ground (arith, v.alone u t);
  alone = λ a b e f. ground (arith, v.alone a b);
}

pub Step-IsValid : {t : ℕ} {l l' : Lock} → Step t l l' → IsValid l → IsValid l'
Step-IsValid {t} (call p e) v = rw e (move-IsValid t trying (λ x. cc) v)
Step-IsValid {t} (reenter p e) v = rw e (move-IsValid t trying (λ x. cc) v)
Step-IsValid {t} (take p f e) v = rw e (take-IsValid t f v)
Step-IsValid {t} (miss p f e) v = rw e (move-IsValid t waiting (λ x. cc) v)
Step-IsValid (spin p f e) v = rw e v
Step-IsValid {t} (retry p f e) v = rw e (move-IsValid t trying (λ x. cc) v)
Step-IsValid {t} (release p e) v = rw e (release-IsValid t p v)
Step-IsValid {t} (try_take p f e) v = rw e (take-IsValid t f v)
Step-IsValid (try_miss p f e) v = rw e v

pub Reach-IsValid : {l l' : Lock} → IsValid l → Reach l l' → IsValid l'
Reach-IsValid v here = v
Reach-IsValid v (next t r st) = Step-IsValid st (Reach-IsValid v r)

-- However the threads interleave from a free lock, while one of them holds the lock no other
-- does.
pub mutual_exclusion :
    {l : Lock} (t u : ℕ) → Reach free l → t ≢ u → l.place t ≡ holding → l.place u ≢ holding
mutual_exclusion t u r ne e = λ f. ne ((Reach-IsValid free-IsValid r).alone t u e f)
