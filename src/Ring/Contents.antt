-- ===== src/Ring/Contents.antt =====
-- The bytes that a ring buffer holds, oldest first: the abstract queue that its methods work on.
use kancho_net.Common.{
  ℕ, ◌+◌, ◌-◌, ◌%◌, ◌≤◌, ◌<◌, ◌≡◌, refl, ◌∙◌, ap, ap₂, sym, true, ◌↔◌, List, [], ◌++◌, arith,
  length, get_or, take, drop, tabulate, length-tabulate, tabulate_ext, tabulate-add, take-tabulate,
  drop-tabulate, tabulate-get_or,
}
use kancho_net.Ring.{Ring, available_read, is_empty, is_full, clear}
use kancho_net.Ring.Bounds.{IsValid, available_read_lem, available_write_lem}

-- The byte in the slot `i` places behind the read position.
unfoldable pub byte_at : Ring → ℕ → ℕ
byte_at r i = get_or r.buffer ((r.read_pos + i) % r.capacity) 0

unfoldable pub contents : Ring → List ℕ
contents r = tabulate (available_read r) (byte_at r)

pub length-contents : (r : Ring) → length (contents r) ≡ available_read r
unfolding contents
length-contents r = length-tabulate (available_read r) (byte_at r)

-- A change that keeps the old bytes and puts `xs` behind them appends `xs`.
pub contents-append :
    (r r' : Ring) (xs : List ℕ)
    → available_read r' ≡ available_read r + length xs
    → ((i : ℕ) → i < available_read r → byte_at r' i ≡ byte_at r i)
    → ((i : ℕ) → i < length xs → byte_at r' (available_read r + i) ≡ get_or xs i 0)
    → contents r' ≡ contents r ++ xs
unfolding contents
contents-append r r' xs grows keeps adds =
    ap (λ n. tabulate n (byte_at r')) grows
    ∙ tabulate-add (available_read r) (length xs) (byte_at r')
    ∙ ap₂ ◌++◌ (tabulate_ext (available_read r) _ _ keeps)
        (tabulate_ext (length xs) _ _ adds ∙ tabulate-get_or xs 0)

-- A change that moves the read position on by `n` drops the first `n` bytes.
pub contents-drop :
    (r r' : Ring) (n : ℕ)
    → available_read r' ≡ available_read r - n
    → ((i : ℕ) → i < available_read r - n → byte_at r' i ≡ byte_at r (n + i))
    → contents r' ≡ drop n (contents r)
unfolding contents
contents-drop r r' n shrinks keeps =
    ap (λ k. tabulate k (byte_at r')) shrinks
    ∙ tabulate_ext (available_read r - n) _ _ keeps
    ∙ sym (drop-tabulate n (available_read r) (byte_at r))

pub take-contents :
    (r : Ring) (n : ℕ) → n ≤ available_read r → take n (contents r) ≡ tabulate n (byte_at r)
unfolding contents
take-contents r n h = take-tabulate n (available_read r) (byte_at r) h

-- `IsEmpty` says that no byte is held.
pub is_empty_iff : {r : Ring} → IsValid r → (is_empty r ≡ true) ↔ (length (contents r) ≡ 0)
unfolding is_empty
is_empty_iff {r} v = ground (arith, length-contents r, available_read_lem v)

-- A valid buffer `IsFull` exactly when it holds one byte fewer than its storage has.
pub is_full_iff :
    {r : Ring} → IsValid r → (is_full r ≡ true) ↔ (length (contents r) + 1 ≡ r.capacity)
unfolding is_full
is_full_iff {r} v = ground (arith, length-contents r, available_read_lem v, available_write_lem v)

pub contents-clear : (r : Ring) → contents (clear r) ≡ []
unfolding contents clear available_read
contents-clear r = refl
