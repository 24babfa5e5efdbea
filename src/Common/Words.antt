-- ===== src/Common/Words.antt =====
-- `size_t` and `uint64_t` arithmetic: sums and differences are taken modulo 2^64.
use Prim.Native.Nat.{ℕ, ◌+◌, ◌-◌, ◌*◌, ◌%◌, ◌^◌, ◌<◌, ◌≤◌}
use mathlib.Core.Path.{◌≡◌}
use native.Mathlib.Omega.{arith}

abbrev pub word : ℕ
word = 2 ^ 64

abbrev pub add_size : ℕ → ℕ → ℕ
add_size a b = (a + b) % 2 ^ 64

-- The modulus is added first, since `-` stops at 0.
abbrev pub sub_size : ℕ → ℕ → ℕ
sub_size a b = (a + 2 ^ 64 - b) % 2 ^ 64

abbrev pub mul_size : ℕ → ℕ → ℕ
mul_size a b = a * b % 2 ^ 64

pub add_size-eq-add : (a b : ℕ) → a + b < word → add_size a b ≡ a + b
add_size-eq-add a b h = omega arith

pub sub_size-eq-sub : (a b : ℕ) → b ≤ a → a < word → sub_size a b ≡ a - b
sub_size-eq-sub a b h k = omega arith
