-- ===== src/Des/Easy.antt =====
-- util/cryption/DES/DES.cpp: EasyDES, which pads a text to whole blocks. Texts and codes are bytes,
-- as they are with outType and inType other than 0.
use exc.Common.{
  ℕ, zero, suc, ◌+◌, ◌-◌, ◌*◌, ◌/◌, ◌%◌, ◌≤◌, ◌<◌, ◌≡◌, refl, ap, ◌∙◌, arith, Bool, true, false,
  ◌==◌, ◌&&◌, if◌then◌else◌, ltb, leb, Bool-cases, inl, inr, List, [], ◌∷◌, ◌++◌, Option, none,
  some, length, length-append, length-replicate, replicate, get_or, All,
}
use mathlib.Core.List.{append_assoc}
use exc.Des.{Block, block, encrypt, decrypt}
use exc.Des.Decrypt.{AreBytes, decrypt-encrypt}

-- A buffer as blocks of eight bytes, and back; what does not fill a block is left out.
unfoldable pub to_blocks : List ℕ → List Block
to_blocks (a ∷ b ∷ c ∷ d ∷ e ∷ f ∷ g ∷ h ∷ rest) = block a b c d e f g h ∷ to_blocks rest
to_blocks rest = []

unfoldable pub from_blocks : List Block → List ℕ
from_blocks [] = []
from_blocks (block a b c d e f g h ∷ blocks) = a ∷ b ∷ c ∷ d ∷ e ∷ f ∷ g ∷ h ∷ from_blocks blocks

-- How many zeros follow a text: `extendSize - textLength`, where textLength counts one more.
abbrev pub additive_size : ℕ → ℕ
additive_size n = ((n + 1) / 8 + 1) * 8 - (n + 1)

-- The text, the zeros, and their number as a digit.
unfoldable pub padded : List ℕ → List ℕ
padded text = let n = additive_size (length text) in text ++ replicate n 0 ++ (48 + n) ∷ []

unfoldable pub output : Option (List Block) → Option (List ℕ)
unfolding from_blocks
output none = none
output (some code) = some (from_blocks code)

-- `m_key.c_str()`: the key and a zero behind it.
abbrev pub c_str : List ℕ → List ℕ
c_str key = key ++ 0 ∷ []

-- deskey reads eight bytes at `c_str()`; not all of them are there.
abbrev pub is_short : List ℕ → Bool
is_short key = ltb (length key + 1) 8

-- EasyDES::encrypt: none is a read behind the key.
unfoldable pub easy_encrypt : List ℕ → ℕ → List ℕ → Option (List ℕ)
easy_encrypt key mode text =
    if is_short key then none else output (encrypt (c_str key) mode (to_blocks (padded text)))

-- What happens to `clearText`. `undefined` is a read behind the buffer or the key.
pub data Cleared : Type 0 where
  cleared : List ℕ → Cleared
  untouched undefined : Cleared

unfoldable pub front_of : ℕ → List ℕ → List ℕ
front_of zero l = []
front_of (suc n) [] = []
front_of (suc n) (x ∷ l) = x ∷ front_of n l

-- The last byte is a signed char: `result[size - 1] - '0' + 1`, which must be less than the size.
unfoldable pub strip : List ℕ → Cleared
unfolding front_of
strip result =
    let size = length result in
    let digit = get_or result (size - 1) 0 in
    if leb 47 digit && ltb digit 128 && ltb (digit - 47) size
    then cleared (front_of (size - (digit - 47)) result)
    else untouched

-- Behind the decryption: with mode 1 one more byte is taken, and nothing is stripped.
unfoldable pub give_text : ℕ → Option (List Block) → Cleared
unfolding from_blocks strip
give_text mode none = untouched
give_text mode (some blocks) =
    if mode == 1 then cleared (from_blocks blocks ++ 0 ∷ []) else strip (from_blocks blocks)

-- EasyDES::decrypt. In mode 1 a block that is not full is filled with zeros; the other modes read
-- behind it.
unfoldable pub easy_decrypt : List ℕ → ℕ → List ℕ → Cleared
easy_decrypt key mode code =
    if length code == 0
    then untouched
    else if is_short key
    then undefined
    else if mode == 1
    then give_text mode (decrypt (c_str key) mode (to_blocks (code ++ replicate 7 0)))
    else if length code % 8 == 0
    then give_text mode (decrypt (c_str key) mode (to_blocks code))
    else undefined

to_blocks-from_blocks : (blocks : List Block) → to_blocks (from_blocks blocks) ≡ blocks
unfolding to_blocks from_blocks
to_blocks-from_blocks [] = refl
to_blocks-from_blocks (block a b c d e f g h ∷ blocks) =
    ap (λ t. block a b c d e f g h ∷ t) (to_blocks-from_blocks blocks)

to_blocks-zeros : (blocks : List Block) → to_blocks (from_blocks blocks ++ replicate 7 0) ≡ blocks
unfolding to_blocks from_blocks
to_blocks-zeros [] = refl
to_blocks-zeros (block a b c d e f g h ∷ blocks) =
    ap (λ t. block a b c d e f g h ∷ t) (to_blocks-zeros blocks)

length-from_blocks : (blocks : List Block) → length (from_blocks blocks) ≡ length blocks * 8
unfolding from_blocks
length-from_blocks [] = refl
length-from_blocks (block a b c d e f g h ∷ blocks) = omega (arith, length-from_blocks blocks)

from_blocks-to_blocks : (n : ℕ) (l : List ℕ) → length l ≡ n * 8 → from_blocks (to_blocks l) ≡ l
unfolding to_blocks from_blocks
from_blocks-to_blocks n [] e = refl
from_blocks-to_blocks zero (a ∷ l) e = absurd (omega arith)
from_blocks-to_blocks (suc n) (a ∷ b ∷ c ∷ d ∷ x ∷ f ∷ g ∷ h ∷ l) e =
    ap (λ t. a ∷ b ∷ c ∷ d ∷ x ∷ f ∷ g ∷ h ∷ t) (from_blocks-to_blocks n l (omega arith))
from_blocks-to_blocks (suc n) (a ∷ []) e = absurd (omega arith)
from_blocks-to_blocks (suc n) (a ∷ b ∷ []) e = absurd (omega arith)
from_blocks-to_blocks (suc n) (a ∷ b ∷ c ∷ []) e = absurd (omega arith)
from_blocks-to_blocks (suc n) (a ∷ b ∷ c ∷ d ∷ []) e = absurd (omega arith)
from_blocks-to_blocks (suc n) (a ∷ b ∷ c ∷ d ∷ x ∷ []) e = absurd (omega arith)
from_blocks-to_blocks (suc n) (a ∷ b ∷ c ∷ d ∷ x ∷ f ∷ []) e = absurd (omega arith)
from_blocks-to_blocks (suc n) (a ∷ b ∷ c ∷ d ∷ x ∷ f ∷ g ∷ []) e = absurd (omega arith)

to_blocks-AreBytes : (l : List ℕ) → All (λ b. b < 256) l → All AreBytes (to_blocks l)
unfolding to_blocks
to_blocks-AreBytes (a ∷ b ∷ c ∷ d ∷ e ∷ f ∷ g ∷ h ∷ rest)
      (ha, (hb, (hc, (hd, (he, (hf, (hg, (hh, others)))))))) =
    ((ha, hb, hc, hd, he, hf, hg, hh), to_blocks-AreBytes rest others)
to_blocks-AreBytes [] bytes = tt
to_blocks-AreBytes (a ∷ []) bytes = tt
to_blocks-AreBytes (a ∷ b ∷ []) bytes = tt
to_blocks-AreBytes (a ∷ b ∷ c ∷ []) bytes = tt
to_blocks-AreBytes (a ∷ b ∷ c ∷ d ∷ []) bytes = tt
to_blocks-AreBytes (a ∷ b ∷ c ∷ d ∷ e ∷ []) bytes = tt
to_blocks-AreBytes (a ∷ b ∷ c ∷ d ∷ e ∷ f ∷ []) bytes = tt
to_blocks-AreBytes (a ∷ b ∷ c ∷ d ∷ e ∷ f ∷ g ∷ []) bytes = tt

bytes-append :
    (xs ys : List ℕ) → All (λ b. b < 256) xs → All (λ b. b < 256) ys → All (λ b. b < 256) (xs ++ ys)
bytes-append [] ys hx hy = hy
bytes-append (x ∷ xs) ys (one, hx) hy = (one, bytes-append xs ys hx hy)

zeros-bytes : (n : ℕ) → All (λ b. b < 256) (replicate n 0)
zeros-bytes zero = tt
zeros-bytes (suc n) = (omega arith, zeros-bytes n)

zeros-length : (n : ℕ) → length {A = ℕ} (replicate n 0) ≡ n
zeros-length n = length-replicate {A = ℕ} n 0

length-padded : (text : List ℕ) → length (padded text) ≡ ((length text + 1) / 8 + 1) * 8
unfolding padded
length-padded text =
    let n = additive_size (length text) in
    omega (
      arith,
      length-append (text ++ replicate n 0) ((48 + n) ∷ []),
      length-append text (replicate n 0),
      zeros-length n,
    )

padded-bytes : (text : List ℕ) → All (λ b. b < 256) text → All (λ b. b < 256) (padded text)
unfolding padded
padded-bytes text bytes =
    let n = additive_size (length text) in
    bytes-append (text ++ replicate n 0) ((48 + n) ∷ [])
      (bytes-append text (replicate n 0) bytes (zeros-bytes n)) (omega arith, tt)

front_of-append : (xs ys : List ℕ) → front_of (length xs) (xs ++ ys) ≡ xs
unfolding front_of
front_of-append [] ys = refl
front_of-append (x ∷ xs) ys = ap (λ t. x ∷ t) (front_of-append xs ys)

get_or-snoc : (xs : List ℕ) (y : ℕ) → get_or (xs ++ y ∷ []) (length xs) 0 ≡ y
get_or-snoc [] y = refl
get_or-snoc (x ∷ xs) y = get_or-snoc xs y

-- With its digit and size known, what is stripped is the padding.
strip_digit :
    (text zeros : List ℕ) (n : ℕ)
    → length zeros ≡ n
    → n < 9
    → 0 < length text
    → strip (text ++ zeros ++ (48 + n) ∷ []) ≡ cleared text
unfolding strip
strip_digit text zeros n e small some_text =
    let result = text ++ zeros ++ (48 + n) ∷ [] in
    let size : length result ≡ length text + n + 1 =
      omega (arith, length-append (text ++ zeros) ((48 + n) ∷ []), length-append text zeros, e) in
    let digit : get_or result (length result - 1) 0 ≡ 48 + n =
      ap (λ t. get_or result t 0) (omega (arith, size, length-append text zeros, e))
      ∙ get_or-snoc (text ++ zeros) (48 + n) in
    let tests : (leb 47 (48 + n) && ltb (48 + n) 128 && ltb (48 + n - 47) (length result)) ≡ true =
      ground (arith, size) in
    let cut : front_of (length result - (48 + n - 47)) result ≡ text =
      ap (λ t. front_of t result) (omega (arith, size))
      ∙ ap (front_of (length text)) (append_assoc text zeros ((48 + n) ∷ []))
      ∙ front_of-append text (zeros ++ (48 + n) ∷ []) in
    ap
      (λ d.
        if leb 47 d && ltb d 128 && ltb (d - 47) (length result)
        then cleared (front_of (length result - (d - 47)) result)
        else untouched)
      digit
    ∙ rw tests (ap cleared cut)

strip-padded : (text : List ℕ) → 0 < length text → strip (padded text) ≡ cleared text
unfolding padded
strip-padded text some_text =
    let n = additive_size (length text) in
    strip_digit text (replicate n 0) n (zeros-length n) (omega arith) some_text

give_text-padded :
    (mode : ℕ) (text : List ℕ) (blocks : List Block)
    → from_blocks blocks ≡ padded text
    → 0 < length text
    → give_text mode (some blocks)
      ≡ (if mode == 1 then cleared (padded text ++ 0 ∷ []) else cleared text)
unfolding give_text
give_text-padded mode text blocks same some_text = elim (Bool-cases (mode == 1)) [
  | inl chained ↦ rw chained (ap (λ t. cleared (t ++ 0 ∷ [])) same)
  | inr single ↦ rw single (ap strip same ∙ strip-padded text some_text)
]

decrypt-some :
    (key : List ℕ) (mode : ℕ) (code : List Block) {blocks : List Block}
    → decrypt key mode code ≡ some blocks
    → 0 < length code
unfolding decrypt
decrypt-some key mode [] e = cc
decrypt-some key mode (b ∷ code) e = omega arith

easy_decrypt-from_blocks :
    (key : List ℕ) (mode : ℕ) (code : List Block)
    → 0 < length code
    → is_short key ≡ false
    → easy_decrypt key mode (from_blocks code) ≡ give_text mode (decrypt (c_str key) mode code)
unfolding easy_decrypt
easy_decrypt-from_blocks key mode code some_block enough =
    let size = length-from_blocks code in
    let filled : (length (from_blocks code) == 0) ≡ false = ground (arith, size) in
    let even : (length (from_blocks code) % 8 == 0) ≡ true = ground (arith, size) in
    elim (Bool-cases (mode == 1)) [
      | inl chained ↦
          rw (filled, enough, chained)
            (ap (λ t. give_text mode (decrypt (c_str key) mode t)) (to_blocks-zeros code))
      | inr single ↦
          rw (filled, enough, single, even)
            (ap (λ t. give_text mode (decrypt (c_str key) mode t)) (to_blocks-from_blocks code))
    ]

-- A text in whole blocks, encrypted and decrypted.
through_blocks :
    (key : List ℕ) (mode : ℕ) (text : List ℕ) (blocks : List Block)
    → is_short key ≡ false
    → 0 < length text
    → to_blocks (padded text) ≡ blocks
    → from_blocks blocks ≡ padded text
    → All AreBytes blocks
    → (code : List ℕ) × (easy_encrypt key mode text ≡ some code)
      × (easy_decrypt key mode code
          ≡ (if mode == 1 then cleared (padded text ++ 0 ∷ []) else cleared text))
unfolding easy_encrypt output
through_blocks key mode text [] enough some_text e whole ok =
    absurd (omega (arith, ap length whole, length-from_blocks [], length-padded text))
through_blocks key mode text (b ∷ blocks) enough some_text e whole ok =
    let (code, coded, back) = decrypt-encrypt (c_str key) mode b blocks ok in
    (
      from_blocks code,
      rw enough (ap (λ t. output (encrypt (c_str key) mode t)) e ∙ ap output coded),
      easy_decrypt-from_blocks key mode code (decrypt-some (c_str key) mode code back) enough
          ∙ ap (give_text mode) back
          ∙ give_text-padded mode text (b ∷ blocks) whole some_text,
    )

-- What the class gives back for a text that is not empty, of bytes, under a key of seven bytes or
-- more, with codes as bytes, that is with outType and inType other than 0. In the modes other than
-- 1, decryption gives the text that was encrypted. In mode 1 it gives the text with all that was
-- added to it, the zeros and their digit, and one zero more.
pub easy_decrypt-encrypt :
    (key : List ℕ) (mode : ℕ) (text : List ℕ)
    → 7 ≤ length key
    → All (λ b. b < 256) text
    → 0 < length text
    → (code : List ℕ) × (easy_encrypt key mode text ≡ some code)
      × (easy_decrypt key mode code
          ≡ (if mode == 1 then cleared (padded text ++ 0 ∷ []) else cleared text))
easy_decrypt-encrypt key mode text enough bytes some_text =
    let full = padded text in
    through_blocks key mode text (to_blocks full) (ground arith) some_text refl
      (from_blocks-to_blocks ((length text + 1) / 8 + 1) full (length-padded text))
      (to_blocks-AreBytes full (padded-bytes text bytes))
