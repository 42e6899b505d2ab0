-- ===== src/Base64/Reference.antt =====
-- A decoder in plain arithmetic, and that it reads back what Encode writes.
use Prim.Native.Nat.{bit_and, bit_or}
use exc.Common.{
  ℕ, zero, suc, ◌+◌, ◌*◌, ◌/◌, ◌%◌, ◌^◌, ◌<◌, ◌≡◌, refl, ap, ◌∙◌, arith, Bool, true, false, ◌&&◌,
  ◌||◌, ◌==◌, ltb, if◌then◌else◌, List, [], ◌∷◌, ◌++◌, All, Bool-cases, inl, inr,
}
use mathlib.Core.List.{append_assoc}
use exc.Words.Masks.{bit_or_fields, bit_and_low}
use exc.Base64.{encode_table, letter, four_letters, line_end, next_line, encode_from, base64_encode}

-- The place of a letter in the table, or its length.
unfoldable pub index_in : List ℕ → ℕ → ℕ
index_in [] c = 0
index_in (x ∷ table) c = if x == c then 0 else suc (index_in table c)

abbrev pub value : ℕ → ℕ
value c = index_in encode_table c

-- Line ends are skipped; four letters are three bytes, or two, or one where `=` stands for the rest.
unfoldable pub decode : List ℕ → List ℕ
unfolding index_in encode_table
decode (p ∷ q ∷ r ∷ s ∷ rest) =
    let others = decode rest in
    let later = decode (q ∷ r ∷ s ∷ rest) in
    if p == 13
    then later
    else if p == 10
    then later
    else if r == 61
    then (value p * 4 + value q / 16) ∷ []
    else if s == 61
    then (value p * 4 + value q / 16) ∷ (value q % 16 * 16 + value r / 4) ∷ []
    else (value p * 4 + value q / 16)
      ∷ (value q % 16 * 16 + value r / 4)
      ∷ (value r % 4 * 64 + value s)
      ∷ others
decode rest = []

-- Checks of all small numbers, by evaluation.
all_below : ℕ → (ℕ → Bool) → Bool
all_below zero p = true
all_below (suc n) p = p n && all_below n p

all_below_lem : (n : ℕ) (p : ℕ → Bool) (x : ℕ) → all_below n p ≡ true → x < n → p x ≡ true
unfolding all_below
all_below_lem zero p x e h = absurd (omega arith)
all_below_lem (suc n) p x e h = ground (arith, all_below_lem n p x)

letter_table :
    all_below 64 (λ n.
      value (letter n) == n && (ltb 13 (letter n) && (ltb (letter n) 61 || ltb 61 (letter n))))
    ≡ true
unfolding all_below letter index_in
letter_table = refl

high_table :
    all_below 256 (λ a. bit_and a 0xfc / 2 ^ 2 == a / 4 && bit_and a 0xf0 / 2 ^ 4 == a / 16) ≡ true
unfolding all_below
high_table = refl

letter-facts :
    (n : ℕ) → n < 64 → (value (letter n) ≡ n) × (13 < letter n) × ((letter n == 61) ≡ false)
letter-facts n h = ground (arith, all_below_lem 64 _ n letter_table h)

high_bits : (a : ℕ) → a < 256 → (bit_and a 0xfc / 2 ^ 2 ≡ a / 4) × (bit_and a 0xf0 / 2 ^ 4 ≡ a / 16)
high_bits a h = ground (arith, all_below_lem 256 _ a high_table h)

no_line_end : (c : ℕ) → 13 < c → ((c == 13) ≡ false) × ((c == 10) ≡ false)
no_line_end c h = (ground arith, ground arith)

-- A group of letters.
decode-letters :
    (i j k l : ℕ) (rest : List ℕ)
    → i < 64
    → j < 64
    → k < 64
    → l < 64
    → decode (letter i ∷ letter j ∷ letter k ∷ letter l ∷ rest)
      ≡ (i * 4 + j / 16) ∷ (j % 16 * 16 + k / 4) ∷ (k % 4 * 64 + l) ∷ decode rest
unfolding decode
decode-letters i j k l rest hi hj hk hl =
    let (vi, ci, ei) = letter-facts i hi in
    let (vj, cj, ej) = letter-facts j hj in
    let (vk, ck, ek) = letter-facts k hk in
    let (vl, cl, el) = letter-facts l hl in
    let (cr, lf) = no_line_end (letter i) ci in
    rw (cr, lf, ek, el)
      (λ t.
        (vi t * 4 + vj t / 16) ∷ (vj t % 16 * 16 + vk t / 4) ∷ (vk t % 4 * 64 + vl t) ∷ decode rest)

decode-two :
    (i j k : ℕ)
    → i < 64
    → j < 64
    → k < 64
    → decode (letter i ∷ letter j ∷ letter k ∷ 61 ∷ [])
      ≡ (i * 4 + j / 16) ∷ (j % 16 * 16 + k / 4) ∷ []
unfolding decode
decode-two i j k hi hj hk =
    let (vi, ci, ei) = letter-facts i hi in
    let (vj, cj, ej) = letter-facts j hj in
    let (vk, ck, ek) = letter-facts k hk in
    let (cr, lf) = no_line_end (letter i) ci in
    rw (cr, lf, ek) (λ t. (vi t * 4 + vj t / 16) ∷ (vj t % 16 * 16 + vk t / 4) ∷ [])

decode-one :
    (i j : ℕ)
    → i < 64
    → j < 64
    → decode (letter i ∷ letter j ∷ 61 ∷ 61 ∷ []) ≡ (i * 4 + j / 16) ∷ []
unfolding decode
decode-one i j hi hj =
    let (vi, ci, ei) = letter-facts i hi in
    let (vj, cj, ej) = letter-facts j hj in
    let (cr, lf) = no_line_end (letter i) ci in rw (cr, lf) (λ t. (vi t * 4 + vj t / 16) ∷ [])

-- A line end in front of what follows it.
decode-line_end :
    (line n : ℕ) (bytes : List ℕ)
    → decode (line_end line ++ encode_from n bytes) ≡ decode (encode_from n bytes)
unfolding line_end
decode-line_end line n bytes = elim (Bool-cases (line + 4 == 76)) [
  | inl full ↦ rw full (skipped bytes)
  | inr more ↦ rw more refl
]
  where
    skipped : (l : List ℕ) → decode (13 ∷ 10 ∷ encode_from n l) ≡ decode (encode_from n l)
    skipped [] = unfold decode encode_from in refl
    skipped (a ∷ []) = unfold decode encode_from in refl
    skipped (a ∷ b ∷ []) = unfold decode encode_from in refl
    skipped (a ∷ b ∷ c ∷ l) = unfold decode encode_from four_letters in refl

-- The letters of three bytes, as arithmetic.
four_letters-sum :
    (a b c : ℕ)
    → a < 256
    → b < 256
    → c < 256
    → four_letters a b c
      ≡ letter (a / 4)
        ∷ letter (a % 4 * 16 + b / 16)
        ∷ letter (b % 16 * 4 + c / 64)
        ∷ letter (c % 64)
        ∷ []
unfolding four_letters
four_letters-sum a b c ha hb hc =
    let second : bit_and (bit_or (a * 2 ^ 4) (b / 2 ^ 4)) 0x3f ≡ a % 4 * 16 + b / 16 =
      bit_and_low 6 (bit_or (a * 2 ^ 4) (b / 2 ^ 4))
      ∙ ap (λ t. t % 2 ^ 6) (bit_or_fields 4 a (b / 2 ^ 4) (omega arith))
      ∙ omega arith in
    let third : bit_and (bit_or (b * 2 ^ 2) (c / 2 ^ 6)) 0x3f ≡ b % 16 * 4 + c / 64 =
      bit_and_low 6 (bit_or (b * 2 ^ 2) (c / 2 ^ 6))
      ∙ ap (λ t. t % 2 ^ 6) (bit_or_fields 2 b (c / 2 ^ 6) (omega arith))
      ∙ omega arith in
    let fourth : bit_and c 0x3f ≡ c % 64 = bit_and_low 6 c in
    λ t. letter (a / 4) ∷ letter (second t) ∷ letter (third t) ∷ letter (fourth t) ∷ []

three_bytes :
    (a b c : ℕ) (rest : List ℕ)
    → a < 256
    → b < 256
    → c < 256
    → decode (four_letters a b c ++ rest) ≡ a ∷ b ∷ c ∷ decode rest
three_bytes a b c rest ha hb hc =
    let first : a / 4 * 4 + (a % 4 * 16 + b / 16) / 16 ≡ a = omega arith in
    let second : (a % 4 * 16 + b / 16) % 16 * 16 + (b % 16 * 4 + c / 64) / 4 ≡ b = omega arith in
    let third : (b % 16 * 4 + c / 64) % 4 * 64 + c % 64 ≡ c = omega arith in
    ap (λ l. decode (l ++ rest)) (four_letters-sum a b c ha hb hc)
    ∙ decode-letters (a / 4) (a % 4 * 16 + b / 16) (b % 16 * 4 + c / 64) (c % 64) rest (omega arith)
        (omega arith) (omega arith) (omega arith)
    ∙ (λ t. first t ∷ second t ∷ third t ∷ decode rest)

encode_from-decode :
    (bytes : List ℕ) (line : ℕ) → All (λ b. b < 256) bytes → decode (encode_from line bytes) ≡ bytes
unfolding encode_from
encode_from-decode [] line h = unfold decode in refl
encode_from-decode (a ∷ []) line (ha, h) =
    let low : bit_and a 0x03 ≡ a % 4 = bit_and_low 2 a in
    let whole : a / 4 * 4 + a % 4 * 16 / 16 ≡ a = omega arith in
    (λ t. decode (letter ((high_bits a ha).0 t) ∷ letter (low t * 2 ^ 4) ∷ 61 ∷ 61 ∷ []))
    ∙ decode-one (a / 4) (a % 4 * 16) (omega arith) (omega arith)
    ∙ (λ t. whole t ∷ [])
encode_from-decode (a ∷ b ∷ []) line (ha, (hb, h)) =
    let low : bit_and a 0x03 ≡ a % 4 = bit_and_low 2 a in
    let nibble : bit_and b 0x0f ≡ b % 16 = bit_and_low 4 b in
    let joined : bit_or (bit_and a 0x03 * 2 ^ 4) (bit_and b 0xf0 / 2 ^ 4) ≡ a % 4 * 16 + b / 16 =
      (λ t. bit_or (low t * 2 ^ 4) ((high_bits b hb).1 t))
      ∙ bit_or_fields 4 (a % 4) (b / 16) (omega arith) in
    let first : a / 4 * 4 + (a % 4 * 16 + b / 16) / 16 ≡ a = omega arith in
    let second : (a % 4 * 16 + b / 16) % 16 * 16 + b % 16 * 4 / 4 ≡ b = omega arith in
    (λ t.
      decode
        (letter ((high_bits a ha).0 t) ∷ letter (joined t) ∷ letter (nibble t * 2 ^ 2) ∷ 61 ∷ []))
    ∙ decode-two (a / 4) (a % 4 * 16 + b / 16) (b % 16 * 4) (omega arith) (omega arith)
        (omega arith)
    ∙ (λ t. first t ∷ second t ∷ [])
encode_from-decode (a ∷ b ∷ c ∷ rest) line (ha, (hb, (hc, h))) =
    let more = encode_from (next_line line) rest in
    ap decode (append_assoc (four_letters a b c) (line_end line) more)
    ∙ three_bytes a b c (line_end line ++ more) ha hb hc
    ∙ ap (λ l. a ∷ b ∷ c ∷ l)
        (decode-line_end line (next_line line) rest ∙ encode_from-decode rest (next_line line) h)

-- What Encode makes of any bytes, with its padding and its line ends, a decoder in plain
-- arithmetic reads back: four letters are three bytes, and line ends are skipped.
pub decode-base64_encode :
    (bytes : List ℕ) → All (λ b. b < 256) bytes → decode (base64_encode bytes) ≡ bytes
unfolding base64_encode
decode-base64_encode bytes h = encode_from-decode bytes 0 h
