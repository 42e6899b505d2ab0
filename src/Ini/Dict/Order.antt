-- ===== src/Ini/Dict/Order.antt =====
-- The order of the keys, and what `find` and `put` do behind the last one.
use exc.Common.{
  ◌≡◌, refl, sym, ap, subst, arith, true, false, List, [], ◌∷◌, ◌++◌, none, some, All, Bool-cases,
  inl, inr,
}
use exc.Ini.Dict.{Text, same_text, same_text-eq, same_text_refl, less_text, Entry, find, put}

pub less_text-asymm :
    (j k : Text) → less_text j k ≡ true → (same_text k j ≡ false) × (less_text k j ≡ false)
less_text-asymm [] [] h = cc
less_text-asymm [] (b ∷ ys) h = (refl, refl)
less_text-asymm (a ∷ xs) [] h = cc
less_text-asymm (a ∷ xs) (b ∷ ys) h = ground (arith, less_text-asymm xs ys)

pub less_text_trans :
    (i j k : Text) → less_text i j ≡ true → less_text j k ≡ true → less_text i k ≡ true
less_text_trans [] [] k h l = cc
less_text_trans [] (b ∷ ys) [] h l = cc
less_text_trans [] (b ∷ ys) (c ∷ zs) h l = refl
less_text_trans (a ∷ xs) [] k h l = cc
less_text_trans (a ∷ xs) (b ∷ ys) [] h l = cc
less_text_trans (a ∷ xs) (b ∷ ys) (c ∷ zs) h l = ground (arith, less_text_trans xs ys zs)

pub less_text_total :
    (j k : Text) → same_text j k ≡ false → less_text j k ≡ false → less_text k j ≡ true
less_text_total [] [] h l = cc
less_text_total [] (b ∷ ys) h l = cc
less_text_total (a ∷ xs) [] h l = refl
less_text_total (a ∷ xs) (b ∷ ys) h l = ground (arith, less_text_total xs ys)

module _ {V : Type 0} where
  abbrev pub Above : Text → List (Entry V) → Type 0
  Above k = All (λ e. less_text k e.key ≡ true)

  abbrev pub Below : Text → List (Entry V) → Type 0
  Below k = All (λ e. less_text e.key k ≡ true)

  -- What a `std::map` is: its keys are in order, and so all different.
  abbrev pub IsMap : List (Entry V) → Type 0
  IsMap [] = Unit {0}
  IsMap (e ∷ es) = Above e.key es × IsMap es

  Above-trans : (j k : Text) (m : List (Entry V)) → less_text j k ≡ true → Above k m → Above j m
  Above-trans j k [] h a = tt
  Above-trans j k (e ∷ es) h a = (less_text_trans j k e.key h a.0, Above-trans j k es h a.1)

  Above-put :
      (j k : Text) (v : V) (m : List (Entry V))
      → less_text j k ≡ true
      → Above j m
      → Above j (put k v m)
  unfolding put
  Above-put j k v [] h a = (h, tt)
  Above-put j k v (e ∷ es) h a = elim (Bool-cases (same_text k e.key)) [
    | inl s ↦ rw s (h, a.1)
    | inr s ↦ elim (Bool-cases (less_text k e.key)) [
      | inl l ↦ rw (s, l) (h, a)
      | inr l ↦ rw (s, l) (a.0, Above-put j k v es h a.1)
    ]
  ]

  -- An assignment keeps the keys in order.
  pub put-IsMap : (k : Text) (v : V) (m : List (Entry V)) → IsMap m → IsMap (put k v m)
  unfolding put
  put-IsMap k v [] h = (tt, tt)
  put-IsMap k v (e ∷ es) h = elim (Bool-cases (same_text k e.key)) [
    | inl s ↦ let q = same_text-eq k e.key s in rw s (subst (λ t. Above t es) (sym q) h.0, h.1)
    | inr s ↦ elim (Bool-cases (less_text k e.key)) [
      | inl l ↦ rw (s, l) ((l, Above-trans k e.key es l h.0), h)
      | inr l ↦
          rw (s, l) (Above-put e.key k v es (less_text_total k e.key s l) h.0, put-IsMap k v es h.1)
    ]
  ]

  pub find-Below : (k : Text) (m : List (Entry V)) → Below k m → find k m ≡ none
  unfolding find
  find-Below k [] b = refl
  find-Below k (e ∷ es) b = rw (less_text-asymm e.key k b.0).0 (find-Below k es b.1)

  pub put-Below :
      (k : Text) (v : V) (m : List (Entry V))
      → Below k m
      → put k v m ≡ m ++ record { key = k; value = v } ∷ []
  unfolding put
  put-Below k v [] b = refl
  put-Below k v (e ∷ es) b =
      let a = less_text-asymm e.key k b.0 in rw (a.0, a.1) (ap (λ t. e ∷ t) (put-Below k v es b.1))

  pub find-last :
      (k : Text) (v : V) (m : List (Entry V))
      → Below k m
      → find k (m ++ record { key = k; value = v } ∷ []) ≡ some v
  unfolding find
  find-last k v [] b = rw (same_text_refl k)
  find-last k v (e ∷ es) b = rw (less_text-asymm e.key k b.0).0 (find-last k v es b.1)

  pub put-last :
      (k : Text) (v w : V) (m : List (Entry V))
      → Below k m
      → put k v (m ++ record { key = k; value = w } ∷ []) ≡ m ++ record { key = k; value = v } ∷ []
  unfolding put
  put-last k v w [] b = rw (same_text_refl k)
  put-last k v w (e ∷ es) b =
      let a = less_text-asymm e.key k b.0 in rw (a.0, a.1) (ap (λ t. e ∷ t) (put-last k v w es b.1))
