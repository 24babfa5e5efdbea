-- ===== src/Session/Progress.antt =====
-- KanchoNet/Utils/SpinLock.h: when a thread in `lock` can still get the lock.
use kancho_net.Common.{
  ℕ, ◌≡◌, ◌≢◌, refl, ◌⊎◌, inl, inr, Bool, true, false, arith, ◌==◌, ==_refl, Bool-cases,
}
use kancho_net.Session.Lock.{
  Lock, Place, outside, trying, waiting, holding, put, Step, call, reenter, take, miss, spin, retry,
  release, try_take, try_miss, Reach, here, next, free, IsValid, free-IsValid, Reach-IsValid,
}

both : {b : Bool} → b ≡ false → b ≡ true → ⊥
both e f = cc

-- Whether a run has a step in which a thread calls `lock` while it holds the lock.
IsReentry : {t : ℕ} {l l' : Lock} → Step t l l' → Type 0
IsReentry (call p e) = ⊥
IsReentry (reenter p e) = Unit {0}
IsReentry (take p f e) = ⊥
IsReentry (miss p f e) = ⊥
IsReentry (spin p f e) = ⊥
IsReentry (retry p f e) = ⊥
IsReentry (release p e) = ⊥
IsReentry (try_take p f e) = ⊥
IsReentry (try_miss p f e) = ⊥

pub HasReentry : {l m : Lock} → Reach l m → Type 0
HasReentry here = ⊥
HasReentry (next t r st) = HasReentry r ⊎ IsReentry st

-- The flag is set and no thread is left that could clear it.
pub record IsDead (l : Lock) : Type 0 where
  pub flag_set : l.flag ≡ true
  pub no_holder : (t : ℕ) → l.place t ≢ holding

-- While the flag is set, some thread holds the lock, or none will ever clear it and `R` has happened.
abbrev Owned : Type 0 → Lock → Type 0
Owned R l = l.flag ≡ true → ((t : ℕ) × (l.place t ≡ holding)) ⊎ (R × IsDead l)

moves-IsDead :
    (l : Lock) (t : ℕ) (q : Place)
    → q ≢ holding
    → IsDead l
    → IsDead (record l { place = put l.place t q })
moves-IsDead l t q ne d = record {
  flag_set = d.flag_set;
  no_holder = λ u e. ground (arith, ne, d.no_holder u);
}

-- The owner stays where it is when another thread moves.
moves :
    {R : Type 0} (l : Lock) (t : ℕ) (p q : Place)
    → l.place t ≡ p
    → p ≢ holding
    → q ≢ holding
    → Owned R l
    → Owned R (record l { place = put l.place t q })
moves l t p q at ne ne' has set = elim (has set) [
  | inl (u, held) ↦ inl (u, ground (arith, ne))
  | inr (r, dead) ↦ inr (r, moves-IsDead l t q ne' dead)
]

takes :
    (R : Type 0) (l : Lock) (t : ℕ)
    → Owned R (record { flag = true; place = put l.place t holding })
takes R l t set = inl (t, rw (==_refl t) refl)

-- The only holder goes into `lock` again.
reenters :
    {R : Type 0} (l : Lock) (t : ℕ)
    → R
    → IsValid l
    → l.place t ≡ holding
    → Owned R (record l { place = put l.place t trying })
reenters l t r v held set =
    inr (r, record { flag_set = set; no_holder = λ u e. ground (arith, held, v.alone t u held) })

weaken : {R S : Type 0} {l : Lock} → (R → S) → Owned R l → Owned S l
weaken f has set = elim (has set) [ inl held ↦ inl held | inr (r, dead) ↦ inr (f r, dead) ]

Step-Owned :
    {R : Type 0} {t : ℕ} {l l' : Lock} (st : Step t l l')
    → IsValid l
    → Owned R l
    → Owned (R ⊎ IsReentry st) l'
unfolding IsReentry
Step-Owned {R} {t} {l} (call p e) v has =
    rw e (moves l t outside trying p (λ x. cc) (λ x. cc) (weaken {l = l} inl has))
Step-Owned {R} {t} {l} (reenter p e) v has = rw e (reenters l t (inr tt) v p)
Step-Owned {R} {t} {l} (take p f e) v has = rw e (takes (R ⊎ ⊥) l t)
Step-Owned {R} {t} {l} (miss p f e) v has =
    rw e (moves l t trying waiting p (λ x. cc) (λ x. cc) (weaken {l = l} inl has))
Step-Owned {R} {t} {l} (spin p f e) v has = rw e (weaken {l = l} inl has)
Step-Owned {R} {t} {l} (retry p f e) v has =
    rw e (moves l t waiting trying p (λ x. cc) (λ x. cc) (weaken {l = l} inl has))
Step-Owned {R} {t} {l} (release p e) v has = rw e (λ set. cc)
Step-Owned {R} {t} {l} (try_take p f e) v has = rw e (takes (R ⊎ ⊥) l t)
Step-Owned {R} {t} {l} (try_miss p f e) v has = rw e (weaken {l = l} inl has)

Reach-Owned : {l : Lock} (r : Reach free l) → Owned (HasReentry r) l
unfolding HasReentry
Reach-Owned here = λ e. cc
Reach-Owned (next t r st) = Step-Owned st (Reach-IsValid free-IsValid r) (Reach-Owned r)

Step-IsDead : {t : ℕ} {l l' : Lock} → Step t l l' → IsDead l → IsDead l'
Step-IsDead {t} {l} (call p e) d = rw e (moves-IsDead l t trying (λ x. cc) d)
Step-IsDead {t} {l} (reenter p e) d = absurd (d.no_holder t p)
Step-IsDead {t} {l} (take p f e) d = absurd (both f d.flag_set)
Step-IsDead {t} {l} (miss p f e) d = rw e (moves-IsDead l t waiting (λ x. cc) d)
Step-IsDead (spin p f e) d = rw e d
Step-IsDead {t} {l} (retry p f e) d = absurd (both f d.flag_set)
Step-IsDead {t} (release p e) d = absurd (d.no_holder t p)
Step-IsDead (try_take p f e) d = absurd (both f d.flag_set)
Step-IsDead (try_miss p f e) d = rw e d

Reach-IsDead : {l l' : Lock} → IsDead l → Reach l l' → IsDead l'
Reach-IsDead d here = d
Reach-IsDead d (next t r st) = Step-IsDead st (Reach-IsDead d r)

-- With the flag clear, a thread in `lock` takes it in two steps of its own at most.
enters :
    {m : Lock} (l : Lock) (t : ℕ)
    → Reach m l
    → l.flag ≡ false
    → (l.place t ≡ trying) ⊎ (l.place t ≡ waiting)
    → (l' : Lock) × Reach m l' × (l'.place t ≡ holding)
enters l t r clear (inl tries) =
    let l' : Lock = record { flag = true; place = put l.place t holding } in
    (l', next t r (take tries clear refl), rw (==_refl t) refl)
enters l t r clear (inr waits) =
    let l1 : Lock = record l { place = put l.place t trying } in
    let l2 : Lock = record { flag = true; place = put l1.place t holding } in
    (
      l2,
      next t (next t r (retry waits clear refl)) (take (rw (==_refl t) refl) clear refl),
      rw (==_refl t) refl,
    )

-- However the threads have interleaved from a free lock, a thread that is in `lock` can still come to hold
-- it: a run from there, in which the holder unlocks if there is one, lets it in. The one exception is that
-- a thread has called `lock` while it held the lock; then in every state from there on the flag is set
-- and no thread is between `lock` and `unlock`.
pub lock_progress :
    {l : Lock} (t : ℕ) (r : Reach free l)
    → (l.place t ≡ trying) ⊎ (l.place t ≡ waiting)
    → ((l' : Lock) × Reach l l' × (l'.place t ≡ holding))
      ⊎ (HasReentry r × ((l' : Lock) → Reach l l' → IsDead l'))
lock_progress {l} t r inside = elim (Bool-cases l.flag) [
  | inr clear ↦ inl (enters l t here clear inside)
  | inl set ↦ elim (Reach-Owned r set) [
    | inl (u, held) ↦
        let l1 : Lock = record { flag = false; place = put l.place u outside } in
        let apart : (t == u) ≡ false = ground arith in
        inl (enters l1 t (next u here (release held refl)) refl (rw apart inside))
    | inr (again, dead) ↦ inr (again, λ l' s. Reach-IsDead dead s)
  ]
]
