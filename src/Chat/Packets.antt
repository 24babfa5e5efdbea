-- ===== src/Chat/Packets.antt =====
-- Examples/ChatServer/ChatProtocol.h: what a client reads from a MessageBroadcastPacket.
use kancho_net.Common.{
  zero, suc, subst, Bool, true, length-replicate, ℕ, ◌-◌, ◌+◌, ◌<◌, ◌≡◌, refl, ap, sym, ◌∙◌,
  Bool-cases, inl, inr, false, List, [], ◌∷◌, ◌++◌, Option, none, some, arith, ◌==◌, if◌then◌else◌,
  length, take, drop, replicate, get_or, ◌*◌, length-append, take-append_exact, drop-append_exact,
  ◌>>=◌,
}
use kancho_net.Chat.Protocol.{
  header, c_string, strcpy_s, broadcast, broadcast_size, broadcast_type, packet_type,
}

-- The array that `strcpy_s` leaves of a string that fits.
abbrev pub padded : ℕ → List ℕ → List ℕ
padded capacity s = s ++ replicate (capacity - length s) 0

pub strcpy_s_lem :
    (capacity : ℕ) (s : List ℕ)
    → length s < capacity
    → strcpy_s capacity s ≡ some (padded capacity s)
unfolding strcpy_s
strcpy_s_lem capacity s h = ground arith

c_string-zeros : (n : ℕ) → 0 < n → c_string (replicate n 0) ≡ some []
unfolding c_string replicate
c_string-zeros zero h = absurd (omega arith)
c_string-zeros (suc n) h = refl

-- A string that goes on is its first byte and the rest.
cons_inv :
    (ends : Bool) (rest : Option (List ℕ)) (b : ℕ) (s : List ℕ)
    → (if ends then some [] else (rest >>= λ t. some (b ∷ t))) ≡ some s
    → ends ≡ false
    → (t : List ℕ) × (rest ≡ some t) × (b ∷ t ≡ s)
cons_inv true rest b s e f = absurd cc
cons_inv false none b s e f = absurd cc
cons_inv false (some t) b s e f = (t, refl, cc)

-- A string that was read is read again from its bytes and a 0 behind them.
c_string-append :
    (src s : List ℕ) (n : ℕ)
    → c_string src ≡ some s
    → 0 < n
    → c_string (s ++ replicate n 0) ≡ some s
unfolding c_string
c_string-append [] s n e h = cc
c_string-append (b ∷ src) s n e h = elim (Bool-cases (b == 0)) [
  | inl ends ↦
      let none_left : [] ≡ s = cc in
      subst (λ t. c_string (t ++ replicate n 0) ≡ some t) none_left (c_string-zeros n h)
  | inr more ↦
      let (t, found, cons) = cons_inv (b == 0) (c_string src) b s e more in
      subst (λ v. c_string (v ++ replicate n 0) ≡ some v) cons
        (rw (more, c_string-append src t n found h) refl)
]

length-padded :
    (capacity : ℕ) (s : List ℕ) → length s < capacity → length (padded capacity s) ≡ capacity
length-padded capacity s h = omega (
  arith,
  length-append s (replicate (capacity - length s) 0),
  length-replicate {A = ℕ} (capacity - length s) 0,
)

-- The packet that is made of a name shorter than 32 bytes and a message shorter than 256, both C strings read
-- from memory, has the length and the type that its header says, and a client reads the same name and
-- message from their places in it.
pub broadcast-c_string :
    {name message : List ℕ} (named said : List ℕ)
    → c_string named ≡ some name
    → c_string said ≡ some message
    → length name < 32
    → length message < 256
    → (packet : List ℕ) × (broadcast name message ≡ some packet)
      × (length packet ≡ broadcast_size)
      × (get_or packet 0 0 + 256 * get_or packet 1 0 ≡ broadcast_size)
      × (packet_type packet ≡ broadcast_type)
      × (c_string (take 32 (drop 4 packet)) ≡ some name)
      × (c_string (drop 36 packet) ≡ some message)
unfolding broadcast header packet_type
broadcast-c_string {name} {message} named said n s short brief =
    let u = padded 32 name in
    let m = padded 256 message in
    let lu : length u ≡ 32 = length-padded 32 name short in
    let lm : length m ≡ 256 = length-padded 256 message brief in
    let first : take 32 (u ++ m) ≡ u = ap (λ k. take k (u ++ m)) (sym lu) ∙ take-append_exact u m in
    let second : drop 32 (u ++ m) ≡ m =
      ap (λ k. drop k (u ++ m)) (sym lu) ∙ drop-append_exact u m in
    (
      header broadcast_size broadcast_type ++ (u ++ m),
      rw (strcpy_s_lem 32 name short, strcpy_s_lem 256 message brief) refl,
      omega (arith, length-append u m, lu, lm),
      refl,
      refl,
      ap c_string first ∙ c_string-append named name (32 - length name) n (omega arith),
      ap c_string second ∙ c_string-append said message (256 - length message) s (omega arith),
    )
