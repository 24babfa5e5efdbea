-- ===== src/Host/Access.antt =====
-- Reads and writes through a session pointer in the models under KanchoNet/Network, while the session lives.
use kancho_net.Common.{◌≡◌, refl, sym, subst, true, false, none, some, arith, if◌then◌else◌}
use kancho_net.Session.{Session}
use kancho_net.Manager.{Manager, Address, find, deref, modify}
use kancho_net.Manager.Live.{Apart, deref-find, deref-modify, find-modify_owner, Apart-modify}
use kancho_net.Net.{ok, fault, hang}
use kancho_net.Host.{Host, session_at, change_session, lock_session, unlock_session}

-- The session `x` lives at `p`, under the manager `m`.
pub record Holds {H K : Type 0} (p : Address) (x : Session) (m : Manager) (s : Host H K)
    : Type 0 where
  pub managed_by : s.manager ≡ some m
  pub alive : deref p m.entries ≡ some x

-- The entry of `p` is the one of its session's id.
pub record Owns {H K : Type 0} (p : Address) (x : Session) (m : Manager) (s : Host H K)
    : Type 0 where
  pub managed_by : s.manager ≡ some m
  pub apart : Apart m.entries
  pub entry : find x.id m.entries ≡ some (record { id = x.id; address = p; session = x })

pub Owns-Holds :
    {H K : Type 0} {p : Address} {x : Session} {m : Manager} {s : Host H K}
    → Owns p x m s
    → Holds p x m s
Owns-Holds {x = x} {m = m} o = record {
  managed_by = o.managed_by;
  alive = deref-find x.id m.entries _ o.apart o.entry;
}

-- The manager, and the state, with the session at `p` changed.
abbrev pub managed : Address → (Session → Session) → Manager → Manager
managed p f m = record m { entries = modify p f m.entries }

abbrev pub changed : {H K : Type 0} → Address → (Session → Session) → Manager → Host H K → Host H K
changed p f m s = record s { manager = some (managed p f m) }

abbrev pub take_lock : Session → Session
take_lock y = record y { locked = true }

abbrev pub drop_lock : Session → Session
drop_lock y = record y { locked = false }

module _ {H K : Type 0} where
  pub session_at_lem :
      {p : Address} {x : Session} {m : Manager} {s : Host H K}
      → Holds p x m s
      → session_at p s ≡ ok (x, s)
  unfolding session_at
  session_at_lem h = ground arith

  pub change_session_lem :
      {p : Address} {x : Session} {m : Manager} {s : Host H K} (f : Session → Session)
      → Holds p x m s
      → change_session p f s ≡ ok (tt, changed p f m s)
  unfolding change_session
  change_session_lem f h = ground arith

  pub changed-Holds :
      {p : Address} {x : Session} {m : Manager} {s : Host H K} (f : Session → Session)
      → Holds p x m s
      → Holds p (f x) (managed p f m) (changed p f m s)
  changed-Holds {p} {x} {m} f h = record {
    managed_by = refl;
    alive = ground (arith, deref-modify p p f m.entries x);
  }

  pub changed-Owns :
      {p : Address} {x : Session} {m : Manager} {s : Host H K} (f : Session → Session)
      → Owns p x m s
      → (f x).id ≡ x.id
      → Owns p (f x) (managed p f m) (changed p f m s)
  changed-Owns {p} {x} {m} f o same = record {
    managed_by = refl;
    apart = Apart-modify p f m.entries o.apart;
    entry =
        subst
          (λ i.
            find i (modify p f m.entries) ≡ some (record { id = i; address = p; session = f x }))
          (sym same) (find-modify_owner p f x.id m.entries x o.apart o.entry);
  }

  -- A pointer to a session that is gone cannot be read.
  pub session_at_gone :
      (p : Address) (m : Manager) (s : Host H K)
      → s.manager ≡ some m
      → deref p m.entries ≡ none
      → session_at p s ≡ fault
  unfolding session_at
  session_at_gone p m s e f = ground arith

  pub change_session_gone :
      (p : Address) (m : Manager) (s : Host H K) (f : Session → Session)
      → s.manager ≡ some m
      → deref p m.entries ≡ none
      → change_session p f s ≡ fault
  unfolding change_session
  change_session_gone p m s f d e = ground arith

  pub lock_session_lem :
      {p : Address} {x : Session} {m : Manager} {s : Host H K}
      → Holds p x m s
      → lock_session p s ≡ (if x.locked then hang else ok (tt, changed p take_lock m s))
  unfolding lock_session
  lock_session_lem {x = x} h =
      rw (session_at_lem h) (ground (arith, change_session_lem take_lock h))

  pub unlock_session_lem :
      {p : Address} {x : Session} {m : Manager} {s : Host H K}
      → Holds p x m s
      → unlock_session p s ≡ ok (tt, changed p drop_lock m s)
  unfolding unlock_session
  unlock_session_lem h = change_session_lem drop_lock h
