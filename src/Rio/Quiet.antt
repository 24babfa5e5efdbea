-- ===== src/Rio/Quiet.antt =====
-- KanchoNet/Network/RIOModel.cpp: ProcessIO while no request is under way.
use kancho_net.Common.{
  ℕ, ◌≡◌, refl, ap, ◌∙◌, ◌⊎◌, inl, inr, Bool, true, false, List, [], ◌∷◌, Option, none, some, ◌==◌,
  if◌then◌else◌, Bool-cases,
}
use kancho_net.Manager.{Address}
use kancho_net.Net.{ok, fault, or_fault, and_then}
use kancho_net.Host.{◌>>=◌, ◌>>◌, pure, call}
use kancho_net.Rio.State.{
  Rio, Run, Result, Library, Dequeued, corrupt, results, WaitedFor, signalled, timed_out,
  wait_failed, rio, context_at, context_of,
}
use kancho_net.Rio.Io.{process_io, poll, process_completions, each_result}

-- A state with another kernel.
abbrev pub in_kernel : {K : Type 0} → K → Rio K → Rio K
in_kernel k s = record s { kernel_state = k }

-- The call is undefined, or returns and has only changed the system.
abbrev pub Idles : {K A : Type 0} → Run K A → Rio K → Type 0
Idles {K} {A} m s = (m s ≡ fault) ⊎ ((a : A) × (k : K) × (m s ≡ ok (a, in_kernel k s)))

Idles-rio : {K A : Type 0} (f : K → A × K) (s : Rio K) → Idles (rio f) s
unfolding rio call
Idles-rio f s = elim (Bool-cases s.handle.loaded) [
  | inl there ↦ inr (
    (f s.kernel_state).0,
    (f s.kernel_state).1,
    ap (λ (b : Bool). if b then call f s else fault) there,
  )
  | inr missing ↦ inl (ap (λ (b : Bool). if b then call f s else fault) missing)
]

Idles-call : {K A : Type 0} (f : K → A × K) (s : Rio K) → Idles (call f) s
unfolding call
Idles-call f s = inr ((f s.kernel_state).0, (f s.kernel_state).1, refl)

Idles-bind :
    {K A B : Type 0} (m : Run K A) (f : A → Run K B) (s : Rio K)
    → Idles m s
    → ((a : A) (k : K) → Idles (f a) (in_kernel k s))
    → Idles (m >>= f) s
Idles-bind m f s (inl wild) after = inl (rw wild refl)
Idles-bind m f s (inr (a, k, did)) after = elim (after a k) [
  | inl wild ↦ inl (rw (did, wild) refl)
  | inr (b, k', next) ↦ inr (b, k', rw (did, next) refl)
]

wild_context :
    {K : Type 0} (c : Address) (s : Rio K) → s.handle.contexts ≡ [] → context_at c s ≡ fault
unfolding context_at context_of
wild_context c s none_made =
    ap (λ l. and_then (or_fault (context_of c l)) (λ x. ok (x, s))) none_made

module _ {K : Type 0} (library : Library K) where
  -- No request has been made, so that the context of every result is wild.
  Idles-each :
      (r : Result) (rs : List Result) (s : Rio K)
      → s.handle.contexts ≡ []
      → each_result (r ∷ rs) s ≡ fault
  unfolding each_result
  Idles-each r rs s none_made = rw (wild_context r.context s none_made) refl

  after_dequeue :
      (d : Dequeued) (s : Rio K) (k : K)
      → s.handle.contexts ≡ []
      → Idles
          (elim d [
            | corrupt ↦ pure tt
            | results [] ↦ pure tt
            | results (r ∷ rs) ↦ (do
              each_result (r ∷ rs)
              rio (λ k. (tt, library.notify s.handle.queue k)))
          ])
          (in_kernel k s)
  after_dequeue corrupt s k none_made = inr (tt, k, refl)
  after_dequeue (results []) s k none_made = inr (tt, k, refl)
  after_dequeue (results (r ∷ rs)) s k none_made =
      inl (rw (Idles-each r rs (in_kernel k s) none_made) refl)

  Idles-completions : (s : Rio K) → s.handle.contexts ≡ [] → Idles (process_completions library) s
  unfolding process_completions
  Idles-completions s none_made = elim (Idles-rio (library.dequeue s.handle.queue 128) s) [
    | inl wild ↦ inl (rw wild refl)
    | inr (d, k, did) ↦ elim (after_dequeue d s k none_made) [
      | inl wild ↦ inl (rw (did, wild) refl)
      | inr (u, k', next) ↦ inr (u, k', rw (did, next) refl)
    ]
  ]

  after_wait :
      (w : WaitedFor) (s : Rio K) (k : K)
      → s.handle.contexts ≡ []
      → Idles
          (elim w [
            | timed_out ↦ pure true
            | wait_failed ↦ pure false
            | signalled ↦ (do process_completions library; pure true)
          ])
          (in_kernel k s)
  after_wait timed_out s k none_made = inr (true, k, refl)
  after_wait wait_failed s k none_made = inr (false, k, refl)
  after_wait signalled s k none_made =
      Idles-bind (process_completions library) (λ _. pure true) (in_kernel k s)
        (Idles-completions (in_kernel k s) none_made) (λ _ k'. inr (true, k', refl))

  after_count :
      (t : ℕ) (ready : Option ℕ) (s : Rio K) (k : K)
      → s.handle.contexts ≡ []
      → Idles
          (elim ready [
            | none ↦ pure false
            | some n ↦
                if n == 0
                then (do
                  waited ← call (library.wait s.handle.event t)
                  elim waited [
                    | timed_out ↦ pure true
                    | wait_failed ↦ pure false
                    | signalled ↦ (do process_completions library; pure true)
                  ])
                else (do process_completions library; pure true)
          ])
          (in_kernel k s)
  after_count t none s k none_made = inr (false, k, refl)
  after_count t (some n) s k none_made = elim (Bool-cases (n == 0)) [
    | inl idle ↦ rw idle (
        Idles-bind (call (library.wait s.handle.event t)) _ (in_kernel k s)
          (Idles-call (library.wait s.handle.event t) (in_kernel k s))
          (λ w k'. after_wait w s k' none_made))
    | inr some_ready ↦ rw some_ready (
        Idles-bind (process_completions library) (λ _. pure true) (in_kernel k s)
          (Idles-completions (in_kernel k s) none_made) (λ _ k'. inr (true, k', refl)))
  ]

  pub Idles-process_io :
      (t : ℕ) (s : Rio K) → s.handle.contexts ≡ [] → Idles (process_io library t) s
  unfolding process_io poll
  Idles-process_io t s none_made = elim (Bool-cases s.running) [
    | inr not_running ↦
        inr (
          false,
          s.kernel_state,
          ap (λ b. if b then poll library t s else ok (false, s)) not_running,
        )
    | inl running ↦
        let opens = ap (λ b. if b then poll library t s else ok (false, s)) running in
        let body =
          Idles-bind (rio (library.count_ready s.handle.queue)) _ s
            (Idles-rio (library.count_ready s.handle.queue) s)
            (λ ready k. after_count t ready s k none_made) in
        elim body [ inl wild ↦ inl (opens ∙ wild) | inr (b, k, did) ↦ inr (b, k, opens ∙ did) ]
  ]
