-- ===== src/Manager/Ids.antt =====
-- The ids that KanchoNet/Session/SessionManager gives out, and what its methods leave of its map.
use kancho_net.Common.{
  ℕ, ◌+◌, ◌-◌, ◌≤◌, ◌<◌, ◌^◌, ◌≡◌, refl, false, List, [], ◌∷◌, none, some, arith, length, leb, ◌==◌,
  ◌*◌, leb→le, leb→lt, Bool-cases, if◌then◌else◌, inl, inr, ◌⊎◌,
}
use kancho_net.Types.{Socket, SessionId}
use kancho_net.Session.{SessionConfig}
use kancho_net.Session.Fresh
use kancho_net.Ring.{max_size}
use kancho_net.Manager.{
  Manager, Entry, Address, create, find, erase, add_session, has_session, remove_session,
  get_session, session_count, generate_session_id,
}

-- Ids fall along the entries, from below `n`, and none is 0; the addresses are those of live sessions, none twice.
abbrev pub Below : ℕ → List Entry → Type 0
Below n [] = Unit {0}
Below n (e ∷ es) = (1 ≤ e.id) × (e.id < n) × (e.session.id ≡ e.id) × Below e.id es

pub record IsValid (m : Manager) : Type 0 where
  pub ids : Below m.next_session_id m.entries
  pub within : length m.entries ≤ m.max_sessions
  pub started : 1 ≤ m.next_session_id

Below-mono : {a b : ℕ} (es : List Entry) → a ≤ b → Below a es → Below b es
Below-mono [] h b = tt
Below-mono (e ∷ es) h (p, q, r, b) = (p, omega arith, r, b)

find_above : (id n : ℕ) (es : List Entry) → Below n es → n ≤ id → find id es ≡ none
unfolding find
find_above id n [] b h = refl
find_above id n (e ∷ es) (p, q, r, b) h = ground (arith, find_above id e.id es b)

pub erase_above : (id n : ℕ) (es : List Entry) → Below n es → n ≤ id → erase id es ≡ es
unfolding erase
erase_above id n [] b h = refl
erase_above id n (e ∷ es) (p, q, r, b) h = ground (arith, erase_above id e.id es b)

erase-Below : (id n : ℕ) (es : List Entry) → Below n es → Below n (erase id es)
unfolding erase
erase-Below id n [] b = tt
erase-Below id n (e ∷ es) (p, q, r, b) =
    ground (arith, erase-Below id e.id es b, Below-mono {a = e.id} {b = n} es, b)

pub find-erase :
    (id j n : ℕ) (es : List Entry)
    → Below n es
    → find j (erase id es) ≡ (if id == j then none else find j es)
unfolding find erase
find-erase id j n [] b = ground arith
find-erase id j n (e ∷ es) (p, q, r, b) =
    ground (arith, find-erase id j e.id es b, find_above id e.id es b)

length-erase :
    (id : ℕ) (es : List Entry)
    → length es ≡ length (erase id es) + (elim (find id es) [ none ↦ 0 | some e ↦ 1 ])
unfolding find erase
length-erase id [] = omega arith
length-erase id (e ∷ es) = ground (arith, length-erase id es)

pub create-IsValid : (n : ℕ) → IsValid (create n)
unfolding create
create-IsValid n = omega arith

-- Adding a session to a full manager fails and changes nothing. Otherwise, while ids are left
-- below the largest and the buffers of a session can be made, it gives the session the next id,
-- which no session has, and the new session is the only change to what the ids lead to.
pub add_session_lem :
    {m : Manager} (socket : Socket) (config : SessionConfig) (address : Address)
    → IsValid m
    → m.next_session_id < 2 ^ 64 - 1
    → config.max_packet_size * 2 < max_size
    → ((m.max_sessions ≤ session_count m) × (add_session m socket config address ≡ some (none, m)))
      ⊎ ((session_count m < m.max_sessions)
          × (has_session m m.next_session_id ≡ false)
          × ((m' : Manager) × (add_session m socket config address ≡ some (some address, m'))
              × IsValid m'
              × (m'.next_session_id ≡ m.next_session_id + 1)
              × (session_count m' ≡ session_count m + 1)
              × ((id : SessionId)
                  → get_session m' id
                    ≡ (if m.next_session_id == id then some address else get_session m id))))
unfolding add_session session_count get_session has_session find generate_session_id
add_session_lem {m} socket config address v room small =
    elim (Bool-cases (leb m.max_sessions (length m.entries))) [
      | inl full ↦ inl (leb→le _ _ full, ground arith)
      | inr free ↦
          let (s, e, f) = Fresh.create-IsFresh m.next_session_id socket config small in
          let above =
            find_above m.next_session_id m.next_session_id m.entries v.ids (omega arith) in
          let same =
            erase_above m.next_session_id m.next_session_id m.entries v.ids (omega arith) in
          inr (
            leb→lt _ _ free,
            ground (arith, above),
            (
              record m {
                next_session_id = m.next_session_id + 1;
                entries =
                    record { id = m.next_session_id; address = address; session = s } ∷ m.entries;
              },
              ground (arith, e, same),
              ground (arith, f, v),
              refl,
              ground arith,
              λ id. ground arith,
            ),
          )
    ]

-- Removing a session says whether it was there. Afterwards its id leads to no session, one session
-- fewer is left if it was there, and what the other ids lead to is unchanged.
pub remove_session_lem :
    {m : Manager} (id : SessionId)
    → IsValid m
    → let (found, m') = remove_session m id in
      (found ≡ has_session m id)
      × IsValid m'
      × (m'.next_session_id ≡ m.next_session_id)
      × (session_count m ≡ session_count m' + (if has_session m id then 1 else 0))
      × ((j : SessionId) → get_session m' j ≡ (if id == j then none else get_session m j))
unfolding remove_session session_count get_session
remove_session_lem {m} id v =
    let gone = find-erase id id m.next_session_id m.entries v.ids in
    let fewer = length-erase id m.entries in
    let below = erase-Below id m.next_session_id m.entries v.ids in
    (
      ground arith,
      ground (arith, fewer, below),
      ground arith,
      ground (arith, fewer),
      λ j. ground (arith, find-erase id j m.next_session_id m.entries v.ids),
    )
