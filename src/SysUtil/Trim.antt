-- ===== src/SysUtil/Trim.antt =====
-- util_strtrim takes the blanks off both ends.
use exc.Common.{
  last, ℕ, ◌<◌, ◌≡◌, refl, sym, ap, ◌∙◌, subst, arith, Bool, true, false, ◌&&◌, [], ◌∷◌, ◌++◌, none,
  some, All, append_empty, length, Bool-cases, inl, inr, ◌⊎◌,
}
use exc.Ini.Dict.{Text}
use exc.SysUtil.{is_space, is_nil, trim_front, trim_back, trim_rest, strtrim}

abbrev pub AllSpaces : Text → Type 0
AllSpaces = All (λ x. is_space x ≡ true)

-- A text with no blank at its ends.
abbrev pub IsTrimmed : Text → Type 0
IsTrimmed [] = Unit
IsTrimmed (x ∷ xs) = (is_space x ≡ false) × (is_space (last x xs) ≡ false)

abbrev StartsBlack : Text → Type 0
StartsBlack [] = Unit
StartsBlack (x ∷ xs) = is_space x ≡ false

trim_front_lem :
    (s : Text) → (a : Text) × (s ≡ a ++ trim_front s) × AllSpaces a × StartsBlack (trim_front s)
unfolding trim_front
trim_front_lem [] = ([], refl, tt, tt)
trim_front_lem (x ∷ xs) = elim (Bool-cases (is_space x)) [
  | inl e ↦
      let (a, split, spaces, black) = trim_front_lem xs in
      rw e (x ∷ a, ap (λ t. x ∷ t) split, (e, spaces), black)
  | inr e ↦ rw e ([], refl, tt, e)
]

trim_back_lem : (s : Text) → (b : Text) × (s ≡ trim_back s ++ b) × AllSpaces b
unfolding trim_back
trim_back_lem [] = ([], refl, tt)
trim_back_lem (x ∷ xs) =
    let (b, split, spaces) = trim_back_lem xs in
    elim (Bool-cases (is_space x && is_nil (trim_back xs))) [
      | inl e ↦
          let black : is_space x ≡ true = ground arith in
          let nil : trim_back xs ≡ [] = nil_of (trim_back xs) (ground arith) in
          rw e (x ∷ b, ap (λ t. x ∷ t) (split ∙ ap (λ t. t ++ b) nil), (black, spaces))
      | inr e ↦ rw e (b, ap (λ t. x ∷ t) split, spaces)
    ]
  where
    nil_of : (t : Text) → is_nil t ≡ true → t ≡ []
    nil_of [] e = refl
    nil_of (x ∷ xs) e = absurd (cc e)

last-trim_back :
    (x : ℕ) (xs : Text)
    → (is_space x ≡ false) ⊎ (is_nil (trim_back xs) ≡ false)
    → is_space (last x (trim_back xs)) ≡ false
unfolding trim_back
last-trim_back x [] (inl h) = h
last-trim_back x [] (inr h) = absurd (cc h)
last-trim_back x (y ∷ ys) h = elim (Bool-cases (is_space y && is_nil (trim_back ys))) [
  | inl e ↦ rw e (elim h [ inl a ↦ a | inr b ↦ absurd (impossible e b) ])
  | inr e ↦ rw e (last-trim_back y ys (one_fails (is_space y) (is_nil (trim_back ys)) e))
]
  where
    one_fails : (p q : Bool) → p && q ≡ false → (p ≡ false) ⊎ (q ≡ false)
    one_fails true q e = inr e
    one_fails false q e = inl refl

    impossible :
        is_space y && is_nil (trim_back ys) ≡ true → is_nil (trim_back (y ∷ ys)) ≡ false → ⊥
    impossible e b = let f : is_nil (trim_back (y ∷ ys)) ≡ true = rw e refl in absurd (cc b)

-- util_strtrim on the text that the first loop leaves.
trim_rest_lem :
    (t : Text)
    → StartsBlack t
    → ((t ≡ []) × (trim_rest t ≡ none))
      ⊎ ((b : Text) × (r : Text) × (trim_rest t ≡ some r)
          × (t ≡ r ++ b)
          × AllSpaces b
          × IsTrimmed r)
unfolding trim_rest
trim_rest_lem [] h = inl (refl, refl)
trim_rest_lem (x ∷ xs) h =
    let (b, split, spaces) = trim_back_lem xs in
    inr (b, x ∷ trim_back xs, refl, ap (λ t. x ∷ t) split, spaces, (h, last-trim_back x xs (inl h)))

-- util_strtrim leaves what stands between the blanks at both ends, and no blank at its own ends.
-- Only for a string that has blanks and nothing else, its behaviour is undefined.
pub strtrim_lem :
    (s : Text)
    → ((0 < length s) × AllSpaces s × (strtrim s ≡ none))
      ⊎ ((a : Text) × (b : Text) × (r : Text) × (strtrim s ≡ some r)
          × (s ≡ a ++ (r ++ b))
          × AllSpaces a
          × AllSpaces b
          × IsTrimmed r)
unfolding strtrim
strtrim_lem [] = inr ([], [], [], refl, refl, tt, tt, tt)
strtrim_lem (x ∷ xs) =
    let (a, split, spaces, black) = trim_front_lem (x ∷ xs) in
    elim (trim_rest_lem (trim_front (x ∷ xs)) black) [
      | inl (nil, undefined) ↦ inl (
        omega arith,
        subst AllSpaces (sym (split ∙ ap (λ t. a ++ t) nil ∙ append_empty a)) spaces,
        undefined,
      )
      | inr (b, r, run, back, tail, trimmed) ↦
          inr (a, b, r, run, split ∙ ap (λ t. a ++ t) back, spaces, tail, trimmed)
    ]
