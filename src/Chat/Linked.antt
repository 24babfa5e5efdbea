-- ===== src/Chat/Linked.antt =====
-- Examples/ChatServer/ChatServer.h: the users that live sessions point to.
use kancho_net.Common.{
  ℕ, ◌≡◌, ◌≢◌, refl, ap, sym, ◌∙◌, ◌⊎◌, inl, inr, false, List, [], ◌∷◌, Option, none, some, arith,
  ◌==◌, if◌then◌else◌, Bool-cases, ==_refl,
}
use kancho_net.Session.{Session}
use kancho_net.Manager.{Manager, Address, deref, modify}
use kancho_net.Manager.Live.{deref-modify}
use kancho_net.Host.{Host}
use kancho_net.Host.Access.{Holds, changed}
use kancho_net.Chat.Server.{ChatUser, find_user, set_name, free_user}
use kancho_net.Chat.Login.{find_user-set_name}
use kancho_net.Chat.Sound.{find_user-free_other}

-- The session `x` at `p` has a user that is allocated, and that was made for it and its id.
pub record HasUser (owner : ℕ → ℕ) (heap : List (ℕ × ChatUser)) (p : Address) (x : Session)
    : Type 0 where
  pub u : ChatUser
  pub allocated : find_user x.user_data heap ≡ some u
  pub its_session : u.session ≡ p
  pub mine : owner x.user_data ≡ x.id

-- Every live session has such a user, or none.
abbrev pub Linked : {H K : Type 0} → (ℕ → ℕ) → List (ℕ × ChatUser) → Host H K → Type 0
Linked owner heap s =
    (p : Address) (x : Session) (m : Manager)
    → Holds p x m s
    → x.user_data ≢ 0
    → HasUser owner heap p x

-- From `s` to `t` the network model has brought only sessions without a user, and has changed neither the id
-- nor the user of any.
abbrev pub Carries : {H K : Type 0} → Host H K → Host H K → Type 0
Carries s t =
    (p : Address) (y : Session) (n : Manager)
    → Holds p y n t
    → (y.user_data ≡ 0)
      ⊎ ((x : Session) × (m : Manager) × Holds p x m s
          × (y.id ≡ x.id)
          × (y.user_data ≡ x.user_data))

moved :
    {owner : ℕ → ℕ} {heap : List (ℕ × ChatUser)} {p : Address} (x y : Session)
    → y.id ≡ x.id
    → y.user_data ≡ x.user_data
    → HasUser owner heap p x
    → HasUser owner heap p y
moved {owner} {heap} x y same_id same_user h = record {
  u = h.u;
  allocated = ap (λ a. find_user a heap) same_user ∙ h.allocated;
  its_session = h.its_session;
  mine = ap owner same_user ∙ h.mine ∙ sym same_id;
}

pub Linked-carried :
    {H K : Type 0} {owner : ℕ → ℕ} {heap : List (ℕ × ChatUser)} (s t : Host H K)
    → Carries s t
    → Linked owner heap s
    → Linked owner heap t
Linked-carried s t carries linked p y n h ne = elim (carries p y n h) [
  | inl no_user ↦ absurd (ne no_user)
  | inr (x, m, before, same_id, same_user) ↦
      moved x y same_id same_user (linked p x m before (λ e. ne (same_user ∙ e)))
]

-- A new name leaves the users allocated.
pub Linked-set_name :
    {H K : Type 0} {owner : ℕ → ℕ} {heap : List (ℕ × ChatUser)} {u : ChatUser} (s : Host H K)
    (a : ℕ) (name : List ℕ)
    → find_user a heap ≡ some u
    → Linked owner heap s
    → Linked owner (set_name a name heap) s
Linked-set_name {heap = heap} {u = u} s a name f linked p x m h ne =
    let l = linked p x m h ne in
    let now = find_user-set_name a x.user_data name u heap f in
    elim (Bool-cases (a == x.user_data)) [
      | inl same ↦ record {
        u = record u { username = name };
        allocated = now ∙ rw same refl;
        its_session =
            let it : u ≡ l.u = ground (arith, f, l.allocated) in
            ap (λ (v : ChatUser). v.session) it ∙ l.its_session;
        mine = l.mine;
      }
      | inr other ↦ record {
        u = l.u;
        allocated = now ∙ rw other l.allocated;
        its_session = l.its_session;
        mine = l.mine;
      }
    ]

-- A session after one has been changed is that one, or another that was there before.
Holds-changed :
    {H K : Type 0} {x : Session} {m : Manager} (p q : Address) (y : Session) (n : Manager)
    (s : Host H K) (f : Session → Session)
    → Holds p x m s
    → Holds q y n (changed p f m s)
    → ((p ≡ q) × (y ≡ f x)) ⊎ ((p ≢ q) × Holds q y m s)
Holds-changed {x = x} {m = m} p q y n s f before h =
    let found : deref q (modify p f m.entries) ≡ some y =
      ap (λ (o : Option Manager). entry_of q o) h.managed_by ∙ h.alive in
    let was = deref-modify p q f m.entries x before.alive in
    elim (Bool-cases (p == q)) [
      | inl here ↦
          let its : some (f x) ≡ some y = sym (was ∙ rw here refl) ∙ found in inl (ground arith, cc)
      | inr there ↦ inr (
        λ e. ground arith,
        record { managed_by = before.managed_by; alive = sym (was ∙ rw there refl) ∙ found },
      )
    ]
  where
    entry_of : Address → Option Manager → Option Session
    entry_of r none = none
    entry_of r (some l) = deref r l.entries

fresh_apart :
    {u : ChatUser} (a b : ℕ) (heap : List (ℕ × ChatUser))
    → find_user a heap ≡ none
    → find_user b heap ≡ some u
    → (a == b) ≡ false
fresh_apart a b heap fresh f = elim (Bool-cases (a == b)) [
  | inr apart ↦ apart
  | inl same ↦
      let e : a ≡ b = ground arith in
      let clash : none ≡ some _ = sym fresh ∙ ap (λ c. find_user c heap) e ∙ f in absurd cc
]

-- A user is made for the session at `p`, where there is none, and the session points to it.
pub Linked-new :
    {H K : Type 0} {owner : ℕ → ℕ} {heap : List (ℕ × ChatUser)} {x : Session} {m : Manager}
    (s : Host H K) (p : Address) (a : ℕ)
    → Holds p x m s
    → find_user a heap ≡ none
    → Linked owner heap s
    → Linked
        (λ b. if b == a then x.id else owner b)
        ((a, record { username = []; session = p }) ∷ heap)
        (changed p (λ y. record y { user_data = a }) m s)
unfolding find_user
Linked-new {heap = heap} {x = x} {m = m} s p a h fresh linked q y n at_q ne =
    elim (Holds-changed p q y n s (λ y. record y { user_data = a }) h at_q) [
      | inl (here, its) ↦ rw its (record {
        u = record { username = []; session = p };
        allocated = rw (==_refl a) refl;
        its_session = here;
        mine = rw (==_refl a) refl;
      })
      | inr (there, before) ↦
          let l = linked q y m before ne in
          let apart = fresh_apart a y.user_data heap fresh l.allocated in
          let apart' : (y.user_data == a) ≡ false = ground arith in
          record {
            u = l.u;
            allocated = rw apart l.allocated;
            its_session = l.its_session;
            mine = rw apart' l.mine;
          }
    ]

-- The user of the session at `p` is deleted, and the session has none any more.
pub Linked-free :
    {H K : Type 0} {owner : ℕ → ℕ} {heap : List (ℕ × ChatUser)} {x : Session} {m : Manager}
    (s : Host H K) (p : Address)
    → Holds p x m s
    → HasUser owner heap p x
    → Linked owner heap s
    → Linked owner (free_user x.user_data heap) (changed p (λ y. record y { user_data = 0 }) m s)
Linked-free {heap = heap} {x = x} {m = m} s p h has linked q y n at_q ne =
    elim (Holds-changed p q y n s (λ y. record y { user_data = 0 }) h at_q) [
      | inl (here, its) ↦ absurd (ne (ap (λ (z : Session). z.user_data) its))
      | inr (there, before) ↦
          let l = linked q y m before ne in
          let apart : y.user_data ≢ x.user_data = λ e.
            let same : some l.u ≡ some has.u =
              sym l.allocated ∙ ap (λ a. find_user a heap) e ∙ has.allocated in
            let it : l.u ≡ has.u = cc in
            there
              (sym has.its_session ∙ ap (λ (v : ChatUser). v.session) (sym it) ∙ l.its_session) in
          record {
            u = l.u;
            allocated = find_user-free_other x.user_data y.user_data heap apart ∙ l.allocated;
            its_session = l.its_session;
            mine = l.mine;
          }
    ]
