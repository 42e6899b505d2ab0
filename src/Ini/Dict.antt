-- ===== src/Ini/Dict.antt =====
-- Strings as lists of bytes, and `std::map` on them: its entries in the order of their keys, which
-- is what an iteration over the map sees.
pub mod Order
use exc.Common.{
  ℕ, ◌≡◌, refl, arith, Bool, true, false, ◌&&◌, if◌then◌else◌, ltb, ◌==◌, List, [], ◌∷◌, Option,
  none, some, Bool-cases, inl, inr,
}

abbrev pub Text : Type 0
Text = List ℕ

abbrev pub same_text : Text → Text → Bool
same_text [] [] = true
same_text [] (b ∷ ys) = false
same_text (a ∷ xs) [] = false
same_text (a ∷ xs) (b ∷ ys) = (a == b) && same_text xs ys

abbrev pub less_text : Text → Text → Bool
less_text xs [] = false
less_text [] (b ∷ ys) = true
less_text (a ∷ xs) (b ∷ ys) = if a == b then less_text xs ys else ltb a b

pub record Entry (V : Type 0) : Type 0 where
  pub key : Text
  pub value : V

module _ {V : Type 0} where
  unfoldable pub find : Text → List (Entry V) → Option V
  find k [] = none
  find k (e ∷ es) = if same_text k e.key then some e.value else find k es

  -- `map[k] = v`
  unfoldable pub put : Text → V → List (Entry V) → List (Entry V)
  put k v [] = record { key = k; value = v } ∷ []
  put k v (e ∷ es) =
      let rest = put k v es in
      if same_text k e.key
      then record { key = k; value = v } ∷ es
      else if less_text k e.key
      then record { key = k; value = v } ∷ e ∷ es
      else e ∷ rest

  unfoldable pub erase : Text → List (Entry V) → List (Entry V)
  erase k [] = []
  erase k (e ∷ es) = let rest = erase k es in if same_text k e.key then es else e ∷ rest

pub same_text_refl : (k : Text) → same_text k k ≡ true
same_text_refl [] = refl
same_text_refl (a ∷ xs) = ground (arith, same_text_refl xs)

pub same_text-eq : (j k : Text) → same_text j k ≡ true → j ≡ k
same_text-eq [] [] h = refl
same_text-eq [] (b ∷ ys) h = absurd (ground arith)
same_text-eq (a ∷ xs) [] h = absurd (ground arith)
same_text-eq (a ∷ xs) (b ∷ ys) h =
    let e : a ≡ b = ground arith in
    let d : same_text xs ys ≡ true = ground arith in let f = same_text-eq xs ys d in cc

module _ {V : Type 0} where
  pub find-put : (k : Text) (v : V) (m : List (Entry V)) → find k (put k v m) ≡ some v
  unfolding find put
  find-put k v [] = ground (arith, same_text_refl k)
  find-put k v (e ∷ es) = ground (arith, same_text_refl k, find-put k v es)

  pub find-put_other :
      (j k : Text) (v : V) (m : List (Entry V))
      → same_text j k ≡ false
      → find j (put k v m) ≡ find j m
  unfolding find put
  find-put_other j k v [] d = rw d
  find-put_other j k v (e ∷ es) d = elim (Bool-cases (same_text k e.key)) [
    | inl s ↦
        let q = same_text-eq k e.key s in rw (s, d) (let n : same_text j e.key ≡ false = cc in rw n)
    | inr s ↦ elim (Bool-cases (less_text k e.key)) [
      | inl l ↦ rw (s, l, d)
      | inr l ↦ rw (s, l) (ground (arith, find-put_other j k v es d))
    ]
  ]
