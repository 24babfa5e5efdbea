-- ===== src/Host/Gone.antt =====
-- What is left of a session that a model under KanchoNet/Network has disconnected.
use kancho_net.Common.{
  ℕ, ◌≡◌, refl, List, [], ◌∷◌, none, some, arith, ◌==◌, if◌then◌else◌, Option-cases, inl, inr,
}
use kancho_net.Types.{Socket}
use kancho_net.Session.{Session}
use kancho_net.Manager.{Manager, Entry, Address, find, deref, modify}
use kancho_net.Manager.Live.{find-modify}
use kancho_net.Host.{Host, lookup, forget}

pub lookup-forget : (fd : Socket) (l : List (Socket × Address)) → lookup fd (forget fd l) ≡ none
unfolding lookup forget
lookup-forget fd [] = refl
lookup-forget fd ((j, p) ∷ l) = ground (arith, lookup-forget fd l)

pub find-changed :
    (p : Address) (f : Session → Session) (id : ℕ) (es : List Entry) (e : Entry)
    → find id es ≡ some e
    → (d : Entry) × (find id (modify p f es) ≡ some d) × (d.address ≡ e.address)
find-changed p f id es e h = elim (Option-cases (find id (modify p f es))) [
  | inl gone ↦ absurd (ground (arith, find-modify p f id es))
  | inr (d, found) ↦ (d, found, ground (arith, find-modify p f id es))
]

-- What is left when a session has been disconnected: no pointer reaches it, the
-- others are as they were, and no socket leads to it.
pub record IsGone {H K : Type 0} (p : Address) (x : Session) (m : Manager) (t : Host H K)
    : Type 0 where
  pub n : Manager
  pub managed_by : t.manager ≡ some n
  pub alive : (q : Address) → deref q n.entries ≡ (if p == q then none else deref q m.entries)
  pub unmapped : lookup x.socket t.socket_map ≡ none
