-- ===== src/Wheel/Counts.antt =====
-- Counting nodes: which timers are in the wheel, with no regard to order.
use mathlib.Core.List.{Perm, Permᴰ}
use mathlib.Core.Logic.{∥∥₁_elim}
use native.Mathlib.Nat.{ℕ_set}
use exc.Common.{ℕ, ◌+◌, ◌≡◌, refl, ap, ◌∙◌, List, [], ◌∷◌, ◌++◌, All, Bool, true, false, arith}

abbrev pub one_if : Bool → ℕ
one_if true = 1
one_if false = 0

module _ {A : Type 0} where
  abbrev pub count : (A → Bool) → List A → ℕ
  count p [] = 0
  count p (x ∷ xs) = one_if (p x) + count p xs

  count-permᴰ : (p : A → Bool) {xs ys : List A} → Permᴰ xs ys → count p xs ≡ count p ys
  count-permᴰ p Permᴰ.nil = refl
  count-permᴰ p (Permᴰ.cons e d) =
      let f = ap (λ x. one_if (p x)) e in omega (arith, count-permᴰ p d)
  count-permᴰ p (Permᴰ.swap e d) =
      let f = ap (λ x. one_if (p x)) e in let g = ap (λ x. one_if (p x)) d in omega arith
  count-permᴰ p (Permᴰ.trans d e) = count-permᴰ p d ∙ count-permᴰ p e

  pub count-append : (p : A → Bool) (xs ys : List A) → count p (xs ++ ys) ≡ count p xs + count p ys
  count-append p [] ys = omega arith
  count-append p (x ∷ xs) ys = omega (arith, count-append p xs ys)

  pub count-eq-zero : (p : A → Bool) (xs : List A) → All (λ a. p a ≡ false) xs → count p xs ≡ 0
  count-eq-zero p [] h = refl
  count-eq-zero p (x ∷ xs) h = rw h.0 (omega (arith, count-eq-zero p xs h.1))

  pub count-perm : (p : A → Bool) {xs ys : List A} → Perm xs ys → count p xs ≡ count p ys
  count-perm p d = ∥∥₁_elim d (ℕ_set _ _) (count-permᴰ p)
