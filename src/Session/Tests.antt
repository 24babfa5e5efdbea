-- ===== src/Session/Tests.antt =====
-- The theorems on KanchoNet/Utils/SpinLock and KanchoNet/Session/Session at concrete locks and sessions.
use kancho_net.Common.{◌≢◌, ◌≡◌, refl, true, false, arith, inl, ◌⊎◌}
use kancho_net.Session.Lock.{
  Lock, holding, trying, put, free, Reach, here, next, call, take, mutual_exclusion,
}
use kancho_net.Session.Progress.{HasReentry, IsDead, lock_progress}

-- Thread 3 takes the free lock.
abbrev asked : Lock
asked = record { flag = false; place = put free.place 3 trying }

abbrev taken : Lock
taken = record { flag = true; place = put asked.place 3 holding }

Reach-taken : Reach free taken
Reach-taken = next 3 (next 3 here (call refl refl)) (take refl refl refl)

mutual_exclusion_example : taken.place 4 ≢ holding
mutual_exclusion_example = mutual_exclusion 3 4 Reach-taken (λ e. omega arith) refl

-- Thread 4 then calls `lock` and finds the flag set.
abbrev contended : Lock
contended = record taken { place = put taken.place 4 trying }

Reach-contended : Reach free contended
Reach-contended = next 4 Reach-taken (call refl refl)

lock_progress_example :
    ((l' : Lock) × Reach contended l' × (l'.place 4 ≡ holding))
    ⊎ (HasReentry Reach-contended × ((l' : Lock) → Reach contended l' → IsDead l'))
lock_progress_example = lock_progress 4 Reach-contended (inl refl)
