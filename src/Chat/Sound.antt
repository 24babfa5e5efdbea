-- ===== src/Chat/Sound.antt =====
-- Examples/ChatServer/ChatServer.h: which changes of the users keep those in the map alive.
use kancho_net.Common.{
  ℕ, ◌≡◌, ◌≢◌, refl, sym, ap, ◌∙◌, true, false, List, [], ◌∷◌, Option, none, some, arith, ◌==◌,
  if◌then◌else◌, Bool-cases, inl, inr,
}
use kancho_net.Manager.{Address}
use kancho_net.Host.{forget}
use kancho_net.Chat.Server.{ChatUser, find_user, set_name, free_user, set_entry, is_nil}
use kancho_net.Chat.Login.{find_user-set_name}
use kancho_net.Chat.Fanout.{Sessions, no_users, a_user}

-- Each entry of the map leads to a user that lives, has a name, and is the one of that id; `owner`
-- gives the id for which a user was made.
pub data Sound (owner : ℕ → ℕ) (heap : List (ℕ × ChatUser)) : List (ℕ × ℕ) → Type 0 where
  no_entries : Sound owner heap []
  entry :
      {id a : ℕ} {u : ChatUser} {m : List (ℕ × ℕ)}
      → owner a ≡ id
      → find_user a heap ≡ some u
      → is_nil u.username ≡ false
      → Sound owner heap m
      → Sound owner heap ((id, a) ∷ m)

missing : {A : Type 0} {o : Option A} {x : A} → o ≡ some x → o ≡ none → ⊥
missing e f = cc

unequal : {a b : ℕ} → a ≢ b → (a == b) ≡ false
unequal ne = ground arith

differs : {a b : ℕ} → (a == b) ≡ false → a ≢ b
differs e = ground arith

-- Two users, one with a name and one without.
unlike :
    {u v : ChatUser} (heap : List (ℕ × ChatUser)) (a b : ℕ)
    → find_user a heap ≡ some u
    → find_user b heap ≡ some v
    → is_nil u.username ≡ true
    → is_nil v.username ≡ false
    → b ≢ a
unlike {u} {v} heap a b f g n k e =
    let same : some u ≡ some v = sym f ∙ ap (λ c. find_user c heap) (sym e) ∙ g in cc

pub find_user-free_other :
    (a b : ℕ) (h : List (ℕ × ChatUser)) → b ≢ a → find_user b (free_user a h) ≡ find_user b h
unfolding find_user free_user
find_user-free_other a b [] ne = refl
find_user-free_other a b ((c, u) ∷ h) ne = ground (arith, find_user-free_other a b h ne)

module _ {owner : ℕ → ℕ} where
  -- So a broadcast finds all of them.
  pub Sound-Sessions :
      {heap : List (ℕ × ChatUser)} {m : List (ℕ × ℕ)}
      → Sound owner heap m
      → (ps : List Address) × Sessions heap m ps
  Sound-Sessions no_entries = ([], no_users)
  Sound-Sessions (entry {u = u} o f n ss) =
      let (ps, found) = Sound-Sessions ss in (u.session ∷ ps, a_user f found)

  pub Sound-forget :
      (i : ℕ) {heap : List (ℕ × ChatUser)} {m : List (ℕ × ℕ)}
      → Sound owner heap m
      → Sound owner heap (forget i m)
  unfolding forget
  Sound-forget i no_entries = no_entries
  Sound-forget i (entry {id = id} o f n ss) = elim (Bool-cases (id == i)) [
    | inl gone ↦ rw gone (Sound-forget i ss)
    | inr stays ↦ rw stays (entry o f n (Sound-forget i ss))
  ]

  pub Sound-set_entry :
      {heap : List (ℕ × ChatUser)} {u : ChatUser} (a : ℕ) (i : ℕ)
      → owner a ≡ i
      → find_user a heap ≡ some u
      → is_nil u.username ≡ false
      → {m : List (ℕ × ℕ)} → Sound owner heap m
      → Sound owner heap (set_entry i a m)
  unfolding set_entry
  Sound-set_entry a i o f n no_entries = entry o f n no_entries
  Sound-set_entry a i o f n (entry {id = j} p g k ss) = elim (Bool-cases (j == i)) [
    | inl same ↦ let e : i ≡ j = ground (arith, same) in rw same (entry (o ∙ e) f n ss)
    | inr other ↦ rw other (entry p g k (Sound-set_entry a i o f n ss))
  ]

  pub Sound-set_name :
      {heap : List (ℕ × ChatUser)} {u : ChatUser} (a : ℕ) (name : List ℕ)
      → find_user a heap ≡ some u
      → is_nil name ≡ false
      → {m : List (ℕ × ℕ)} → Sound owner heap m
      → Sound owner (set_name a name heap) m
  Sound-set_name a name f n no_entries = no_entries
  Sound-set_name {heap} {u} a name f n (entry {a = b} {u = v} o g k ss) =
      let now = find_user-set_name a b name u heap f in
      let rest = Sound-set_name a name f n ss in
      elim (Bool-cases (a == b)) [
        | inl same ↦ entry {u = record u { username = name }} o (now ∙ rw same refl) n rest
        | inr other ↦ entry {u = v} o (now ∙ rw other g) k rest
      ]

  -- A user without a name is not in the map, and can be deleted.
  pub Sound-free_user :
      {heap : List (ℕ × ChatUser)} {u : ChatUser} (a : ℕ)
      → find_user a heap ≡ some u
      → is_nil u.username ≡ true
      → {m : List (ℕ × ℕ)} → Sound owner heap m
      → Sound owner (free_user a heap) m
  Sound-free_user a f n no_entries = no_entries
  Sound-free_user {heap} a f n (entry {a = b} {u = v} o g k ss) =
      let apart : b ≢ a = λ e. unlike heap a b f g n k e in
      entry {u = v} o (find_user-free_other a b heap apart ∙ g) k (Sound-free_user a f n ss)

  -- One that is taken out of the map can be deleted too.
  pub Sound-forget_free :
      {heap : List (ℕ × ChatUser)} (a i : ℕ)
      → owner a ≡ i
      → {m : List (ℕ × ℕ)} → Sound owner heap m
      → Sound owner (free_user a heap) (forget i m)
  unfolding forget
  Sound-forget_free a i mine no_entries = no_entries
  Sound-forget_free {heap} a i mine (entry {id = id} {a = b} {u = v} o g k ss) =
      elim (Bool-cases (id == i)) [
        | inl gone ↦ rw gone (Sound-forget_free a i mine ss)
        | inr stays ↦
            let apart : b ≢ a = λ e. differs stays (sym o ∙ ap owner e ∙ mine) in
            rw stays (
              entry {u = v} o (find_user-free_other a b heap apart ∙ g) k
                (Sound-forget_free a i mine ss))
      ]

  -- A user is made where there is none.
  pub Sound-new :
      {heap : List (ℕ × ChatUser)} (a i : ℕ) (u : ChatUser)
      → find_user a heap ≡ none
      → {m : List (ℕ × ℕ)} → Sound owner heap m
      → Sound (λ b. if b == a then i else owner b) ((a, u) ∷ heap) m
  unfolding find_user
  Sound-new a i u fresh no_entries = no_entries
  Sound-new {heap} a i u fresh (entry {a = b} {u = v} o g k ss) =
      let apart : b ≢ a = λ e. absurd (missing (ap (λ c. find_user c heap) (sym e) ∙ g) fresh) in
      entry {u = v} (rw (unequal apart) o) (rw (unequal (λ e. apart (sym e))) g) k
        (Sound-new a i u fresh ss)
