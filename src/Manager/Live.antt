-- ===== src/Manager/Live.antt =====
-- The sessions that KanchoNet/Session/SessionManager owns, seen through pointers: which are alive,
-- and what a change or a removal leaves.
use kancho_net.Common.{
  ℕ, ◌≡◌, ◌≢◌, refl, List, [], ◌∷◌, none, some, arith, ◌==◌, if◌then◌else◌, length, Bool-cases, inl,
  inr,
}
use kancho_net.Session.{Session}
use kancho_net.Manager.{Entry, Address, find, erase, deref, modify}

-- No two sessions live at one address, and none at the null pointer.
abbrev pub Apart : List Entry → Type 0
Apart [] = Unit {0}
Apart (e ∷ es) = (e.address ≢ 0) × (deref e.address es ≡ none) × Apart es

pub deref-modify :
    (p q : Address) (f : Session → Session) (es : List Entry) (x : Session)
    → deref p es ≡ some x
    → deref q (modify p f es) ≡ (if p == q then some (f x) else deref q es)
unfolding deref modify
deref-modify p q f [] x h = cc
deref-modify p q f (e ∷ es) x h = ground (arith, deref-modify p q f es x)

-- A change through a pointer leaves the ids and the addresses.
pub find-modify :
    (p : Address) (f : Session → Session) (id : ℕ) (es : List Entry)
    → (elim (find id (modify p f es)) [ none ↦ none | some e ↦ some e.address ])
      ≡ (elim (find id es) [ none ↦ none | some e ↦ some e.address ])
unfolding find modify
find-modify p f id [] = refl
find-modify p f id (e ∷ es) = ground (arith, find-modify p f id es)

-- An entry that is found by its id is the one at its address.
pub deref-find :
    (id : ℕ) (es : List Entry) (e : Entry)
    → Apart es
    → find id es ≡ some e
    → deref e.address es ≡ some e.session
unfolding deref find
deref-find id [] e a h = cc
deref-find id (d ∷ es) e (n, u, a) h = ground (arith, deref-find id es e a)

-- Once the entry that owns a session has been erased, the session is gone, and the others are as they were.
pub deref-erase :
    (id : ℕ) (q : Address) (es : List Entry) (e : Entry)
    → Apart es
    → find id es ≡ some e
    → deref q (erase id es) ≡ (if e.address == q then none else deref q es)
unfolding deref find erase
deref-erase id q [] e a h = cc
deref-erase id q (d ∷ es) e (n, u, a) h =
    ground (arith, deref-erase id q es e a, deref-find id es e a)

deref-none-erase :
    (id : ℕ) (q : Address) (es : List Entry) → deref q es ≡ none → deref q (erase id es) ≡ none
unfolding deref erase
deref-none-erase id q [] h = refl
deref-none-erase id q (d ∷ es) h = ground (arith, deref-none-erase id q es)

deref-none-modify :
    (p : Address) (f : Session → Session) (q : Address) (es : List Entry)
    → deref q es ≡ none
    → deref q (modify p f es) ≡ none
unfolding deref modify
deref-none-modify p f q [] h = refl
deref-none-modify p f q (d ∷ es) h = ground (arith, deref-none-modify p f q es)

pub Apart-erase : (id : ℕ) (es : List Entry) → Apart es → Apart (erase id es)
unfolding erase
Apart-erase id [] a = tt
Apart-erase id (d ∷ es) (n, u, a) =
    ground (arith, Apart-erase id es a, deref-none-erase id d.address es u)

pub Apart-modify :
    (p : Address) (f : Session → Session) (es : List Entry) → Apart es → Apart (modify p f es)
unfolding modify
Apart-modify p f [] a = tt
Apart-modify p f (d ∷ es) (n, u, a) =
    ground (arith, Apart-modify p f es a, deref-none-modify p f d.address es u)

-- An entry found by its id is found changed after a change through its address.
pub find-modify_owner :
    (p : Address) (f : Session → Session) (id : ℕ) (es : List Entry) (x : Session)
    → Apart es
    → find id es ≡ some (record { id = id; address = p; session = x })
    → find id (modify p f es) ≡ some (record { id = id; address = p; session = f x })
unfolding find modify
find-modify_owner p f id [] x a h = cc
find-modify_owner p f id (d ∷ es) x (n, u, a) h = elim (Bool-cases (d.id == id)) [
  | inl same ↦ ground arith
  | inr other ↦ ground (
    arith,
    find-modify_owner p f id es x a,
    deref-find id es (record { id = id; address = p; session = x }) a,
  )
]

pub length-modify :
    (p : Address) (f : Session → Session) (es : List Entry) → length (modify p f es) ≡ length es
unfolding modify
length-modify p f [] = refl
length-modify p f (d ∷ es) = ground (arith, length-modify p f es)
