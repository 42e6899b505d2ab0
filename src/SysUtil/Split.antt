-- ===== src/SysUtil/Split.antt =====
-- util_strsplit gives the pieces between the delimiters.
use exc.Common.{
  ℕ, zero, suc, ◌≤◌, ◌<◌, ◌≡◌, refl, ap, ◌∙◌, arith, true, false, if◌then◌else◌, ◌==◌, List, [],
  ◌∷◌, ◌++◌, All, length, length-append, Bool-cases, inl, inr,
}
use exc.Ini.Dict.{Text}
use exc.SysUtil.{skip, token, behind, split_from, strsplit}

-- The characters that are not `c`.
abbrev pub without : ℕ → Text → Text
without c [] = []
without c (x ∷ xs) = let rest = without c xs in if x == c then rest else x ∷ rest

abbrev pub flatten : List Text → Text
flatten [] = []
flatten (t ∷ ts) = t ++ flatten ts

-- A piece: not empty, and without the delimiter.
abbrev pub IsToken : ℕ → Text → Type 0
IsToken c t = (0 < length t) × All (λ x. (x == c) ≡ false) t

-- The pieces with `c` between them.
abbrev pub join : ℕ → List Text → Text
join c [] = []
join c (t ∷ ts) = t ++ c ∷ join c ts

without-skip : (c : ℕ) (s : Text) → without c (skip c s) ≡ without c s
unfolding skip
without-skip c [] = refl
without-skip c (x ∷ xs) = elim (Bool-cases (x == c)) [
  | inl e ↦ rw e (without-skip c xs)
  | inr e ↦ rw (e, e) refl
]

without-behind : (c : ℕ) (s : Text) → token c s ++ without c (behind c s) ≡ without c s
unfolding token behind
without-behind c [] = refl
without-behind c (x ∷ xs) = elim (Bool-cases (x == c)) [
  | inl e ↦ rw (e, e) refl
  | inr e ↦ rw e (ap (λ t. x ∷ t) (without-behind c xs))
]

token-All : (c : ℕ) (s : Text) → All (λ x. (x == c) ≡ false) (token c s)
unfolding token
token-All c [] = tt
token-All c (x ∷ xs) = elim (Bool-cases (x == c)) [
  | inl e ↦ rw e tt
  | inr e ↦ rw e (e, token-All c xs)
]

length-skip : (c : ℕ) (s : Text) → length (skip c s) ≤ length s
unfolding skip
length-skip c [] = omega arith
length-skip c (x ∷ xs) = ground (arith, length-skip c xs)

length-behind : (c : ℕ) (s : Text) → length (behind c s) ≤ length s
unfolding behind
length-behind c [] = omega arith
length-behind c (x ∷ xs) = ground (arith, length-behind c xs)

abbrev Starts : ℕ → Text → Type 0
Starts c [] = Unit
Starts c (x ∷ xs) = (x == c) ≡ false

skip-Starts : (c : ℕ) (s : Text) → Starts c (skip c s)
unfolding skip
skip-Starts c [] = tt
skip-Starts c (x ∷ xs) = elim (Bool-cases (x == c)) [
  | inl e ↦ rw e (skip-Starts c xs)
  | inr e ↦ rw e e
]

split_from_lem :
    (fuel c : ℕ) (s : Text)
    → length s ≤ fuel
    → Starts c s
    → All (IsToken c) (split_from fuel c s) × (flatten (split_from fuel c s) ≡ without c s)
unfolding split_from token behind
split_from_lem zero c [] n h = (tt, refl)
split_from_lem zero c (x ∷ xs) n h = absurd (omega (arith, n))
split_from_lem (suc fuel) c [] n h = (tt, refl)
split_from_lem (suc fuel) c (x ∷ xs) n h =
    let rest = skip c (behind c xs) in
    let shorter : length rest ≤ fuel =
      omega (arith, n, length-skip c (behind c xs), length-behind c xs) in
    let (tokens, flat) = split_from_lem fuel c rest shorter (skip-Starts c (behind c xs)) in
    rw h (
      ((omega arith, (h, token-All c xs)), tokens),
      ap (λ t. x ∷ token c xs ++ t) (flat ∙ without-skip c (behind c xs))
          ∙ ap (λ t. x ∷ t) (without-behind c xs),
    )

-- util_strsplit gives pieces that are not empty and have no delimiter in them, and together they
-- are all the other characters of the string, in their order.
pub strsplit_lem :
    (s : Text) (c : ℕ) → All (IsToken c) (strsplit s c) × (flatten (strsplit s c) ≡ without c s)
unfolding strsplit
strsplit_lem s c =
    let (tokens, flat) =
      split_from_lem (length s) c (skip c s) (length-skip c s) (skip-Starts c s) in
    (tokens, flat ∙ without-skip c s)

token-append :
    (c : ℕ) (t r : Text)
    → All (λ x. (x == c) ≡ false) t
    → (token c (t ++ c ∷ r) ≡ t) × (behind c (t ++ c ∷ r) ≡ c ∷ r)
unfolding token behind
token-append c [] r h = let e : (c == c) ≡ true = ground arith in rw e (refl, refl)
token-append c (x ∷ xs) r h = let (a, b) = token-append c xs r h.1 in rw h.0 (ap (λ t. x ∷ t) a, b)

skip-join : (c : ℕ) (ts : List Text) → All (IsToken c) ts → skip c (join c ts) ≡ join c ts
unfolding skip
skip-join c [] h = refl
skip-join c ([] ∷ ts) h = absurd (omega (arith, h.0.0))
skip-join c ((x ∷ xs) ∷ ts) h = rw (h.0.1.0) refl

skip-delimiter : (c : ℕ) (s : Text) → skip c (c ∷ s) ≡ skip c s
unfolding skip
skip-delimiter c s = let e : (c == c) ≡ true = ground arith in rw e refl

split_from-join :
    (fuel c : ℕ) (ts : List Text)
    → All (IsToken c) ts
    → length (join c ts) ≤ fuel
    → split_from fuel c (join c ts) ≡ ts
unfolding split_from
split_from-join zero c [] h n = refl
split_from-join (suc fuel) c [] h n = refl
split_from-join fuel c ([] ∷ ts) h n = absurd (omega (arith, h.0.0))
split_from-join zero c ((x ∷ xs) ∷ ts) h n = absurd (omega (arith, n))
split_from-join (suc fuel) c ((x ∷ xs) ∷ ts) h n =
    let rest = join c ts in
    let (a, b) = token-append c (x ∷ xs) rest h.0.1 in
    let shorter : length rest ≤ fuel = omega (arith, n, length-append xs (c ∷ rest)) in
    rw (a, b)
      (ap (λ t. (x ∷ xs) ∷ split_from fuel c t) (skip-delimiter c rest ∙ skip-join c ts h.1)
        ∙ ap (λ t. (x ∷ xs) ∷ t) (split_from-join fuel c ts h.1 shorter))

-- util_strsplit gives back the pieces of a string that has the delimiter behind each of them, if
-- none is empty or has the delimiter in it.
pub strsplit-join : (c : ℕ) (ts : List Text) → All (IsToken c) ts → strsplit (join c ts) c ≡ ts
unfolding strsplit
strsplit-join c ts h =
    ap (λ s. split_from (length (join c ts)) c s) (skip-join c ts h)
    ∙ split_from-join (length (join c ts)) c ts h (omega arith)
