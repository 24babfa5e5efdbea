-- ===== src/Common/Tabulate.antt =====
-- The list of the first `n` values of a function, and what `take` and `drop` do to it.
use Prim.Native.Nat.{ℕ, zero, suc, ◌+◌, ◌-◌, ◌<◌, ◌≤◌}
use mathlib.Core.Path.{◌≡◌, refl, ap, ap₂, sym, ◌∙◌}
use mathlib.Core.List.{List, [], ◌∷◌, ◌++◌}
use native.Mathlib.Omega.{arith}
use native.Mathlib.Nat.{zero-add, suc-add, sub-zero}
use native.Mathlib.Numerals.{unary_clauses}
use kancho_net.Common.Lists.{
  length, get_or, take, drop, length-take, length-drop, get_or-take, get_or-drop,
}

module _ {ℓ} {A : Type ℓ} where
  abbrev pub tabulate : ℕ → (ℕ → A) → List A
  tabulate zero f = []
  tabulate (suc n) f = f 0 ∷ tabulate n (λ i. f (suc i))

  pub length-tabulate : (n : ℕ) (f : ℕ → A) → length (tabulate n f) ≡ n
  length-tabulate zero f = refl
  length-tabulate (suc n) f = ap suc (length-tabulate n (λ i. f (suc i)))

  pub tabulate_ext :
      (n : ℕ) (f g : ℕ → A) → ((i : ℕ) → i < n → f i ≡ g i) → tabulate n f ≡ tabulate n g
  tabulate_ext zero f g h = refl
  tabulate_ext (suc n) f g h =
      ap₂ ◌∷◌ (h 0 (omega arith))
        (tabulate_ext n (λ i. f (suc i)) (λ i. g (suc i)) (λ i lt. h (suc i) (omega arith)))

  pub tabulate-add :
      (m n : ℕ) (f : ℕ → A) → tabulate (m + n) f ≡ tabulate m f ++ tabulate n (λ i. f (m + i))
  tabulate-add zero n f = simp zero-add refl
  tabulate-add (suc m) n f = simp suc-add (ap (◌∷◌ (f 0)) (tabulate-add m n (λ i. f (suc i))))

  pub tabulate-get_or : (xs : List A) (d : A) → tabulate (length xs) (λ i. get_or xs i d) ≡ xs
  tabulate-get_or [] d = refl
  tabulate-get_or (x ∷ xs) d = ap (◌∷◌ x) (tabulate-get_or xs d)

  pub take-tabulate : (k n : ℕ) (f : ℕ → A) → k ≤ n → take k (tabulate n f) ≡ tabulate k f
  take-tabulate zero n f h = refl
  take-tabulate (suc k) zero f h = absurd (omega arith)
  take-tabulate (suc k) (suc n) f h =
      ap (◌∷◌ (f 0)) (take-tabulate k n (λ i. f (suc i)) (omega arith))

  pub drop-tabulate :
      (k n : ℕ) (f : ℕ → A) → drop k (tabulate n f) ≡ tabulate (n - k) (λ i. f (k + i))
  drop-tabulate zero n f = simp (zero-add, sub-zero) refl
  drop-tabulate (suc k) zero f = let e : 0 - suc k ≡ 0 = omega arith in rw e
  drop-tabulate (suc k) (suc n) f =
      simp (suc-add, unary_clauses) (drop-tabulate k n (λ i. f (suc i)))

  -- A stretch of a list is the list of its elements.
  pub slice-eq-tabulate :
      (xs : List A) (i n : ℕ) (d : A)
      → i + n ≤ length xs
      → take n (drop i xs) ≡ tabulate n (λ k. get_or xs (i + k) d)
  slice-eq-tabulate xs i n d h =
      let e : length (take n (drop i xs)) ≡ n =
        omega (arith, length-take n (drop i xs), length-drop i xs) in
      sym (tabulate-get_or (take n (drop i xs)) d)
      ∙ ap (λ k. tabulate k (λ j. get_or (take n (drop i xs)) j d)) e
      ∙ tabulate_ext n _ _ (λ k lt. get_or-take n (drop i xs) k d lt ∙ get_or-drop i xs k d)
