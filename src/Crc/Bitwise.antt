-- ===== src/Crc/Bitwise.antt =====
-- What the tables stand for: the remainder by a polynomial, one bit at a time.
use Prim.Native.Nat.{bit_xor}
use native.Mathlib.Nat.{pow-suc}
use mathlib.Core.List.{foldl}
use exc.Common.{
  ℕ, zero, suc, ◌-◌, ◌*◌, ◌/◌, ◌%◌, ◌^◌, ◌<◌, ◌≡◌, refl, sym, ap, ◌∙◌, arith, Bool, true, false,
  ◌&&◌, ◌==◌, if◌then◌else◌, List, [], ◌∷◌, get_or, All,
}
use exc.Words.Xor.{
  bit_xor_half, bit_xor_comm, bit_xor_self, bit_xor-zero, bit_xor-shift_right, bit_xor_exchange,
}
use exc.Words.Masks.{bit_xor_fields, bit_and_low}
use exc.Crc.{round, complement, calc16, calc32}
use exc.Crc.Tables.{crc16_table, crc32_table}

-- `(c >> 1) ^ (c & 1 ? poly : 0)`
abbrev pub bit_step : ℕ → ℕ → ℕ
bit_step poly c = bit_xor (c / 2) (if c % 2 == 1 then poly else 0)

unfoldable pub bit_steps : ℕ → ℕ → ℕ → ℕ
bit_steps poly zero c = c
bit_steps poly (suc n) c = bit_steps poly n (bit_step poly c)

-- The checksum of `w` bits, with every bit of the start set and inverted at the end.
abbrev pub remainder : ℕ → ℕ → List ℕ → ℕ
remainder w poly bytes =
    complement w (foldl (λ c b. bit_steps poly 8 (bit_xor c b)) (2 ^ w - 1) bytes)

abbrev pub itu_poly : ℕ
itu_poly = 0x8408

abbrev pub crc32_poly : ℕ
crc32_poly = 0xedb88320

-- The entries of a table are the steps on the numbers of a byte.
agree_below : ℕ → ℕ → List ℕ → Bool
unfolding bit_steps
agree_below poly zero table = true
agree_below poly (suc n) table = get_or table n 0 == bit_steps poly 8 n && agree_below poly n table

agree_below_lem :
    (poly n : ℕ) (table : List ℕ) (i : ℕ)
    → agree_below poly n table ≡ true
    → i < n
    → get_or table i 0 ≡ bit_steps poly 8 i
unfolding agree_below
agree_below_lem poly zero table i e h = absurd (omega arith)
agree_below_lem poly (suc n) table i e h = ground (arith, agree_below_lem poly n table i)

crc16_agrees : agree_below itu_poly 256 crc16_table ≡ true
unfolding agree_below crc16_table
crc16_agrees = refl

crc32_agrees : agree_below crc32_poly 256 crc32_table ≡ true
unfolding agree_below crc32_table
crc32_agrees = refl

-- A step goes through `^`, so many do.
bit_step-xor :
    (poly x y : ℕ) → bit_step poly (bit_xor x y) ≡ bit_xor (bit_step poly x) (bit_step poly y)
bit_step-xor poly x y =
    let taken : ℕ → ℕ = λ c. if c % 2 == 1 then poly else 0 in
    let both : taken (bit_xor x y) ≡ bit_xor (taken x) (taken y) = ground (
      arith,
      bit_xor_half x y,
      bit_xor_self poly,
      bit_xor-zero poly,
      bit_xor-zero 0,
      bit_xor_comm 0 poly,
    ) in
    ap (λ t. bit_xor t (taken (bit_xor x y))) (bit_xor_half x y).0
    ∙ ap (λ t. bit_xor (bit_xor (x / 2) (y / 2)) t) both
    ∙ bit_xor_exchange (x / 2) (y / 2) (taken x) (taken y)

bit_steps-xor :
    (poly n x y : ℕ)
    → bit_steps poly n (bit_xor x y) ≡ bit_xor (bit_steps poly n x) (bit_steps poly n y)
unfolding bit_steps
bit_steps-xor poly zero x y = refl
bit_steps-xor poly (suc n) x y =
    ap (bit_steps poly n) (bit_step-xor poly x y)
    ∙ bit_steps-xor poly n (bit_step poly x) (bit_step poly y)

-- Steps on a number whose low bits are 0 only shift it.
bit_steps-shift : (poly n q : ℕ) → bit_steps poly n (q * 2 ^ n) ≡ q
unfolding bit_steps
bit_steps-shift poly zero q = omega arith
bit_steps-shift poly (suc n) q =
    let even : q * 2 ^ suc n ≡ q * 2 ^ n * 2 = omega (arith, ap (λ (t : ℕ). q * t) (pow-suc 2 n)) in
    let off : (q * 2 ^ suc n % 2 == 1) ≡ false = ground (arith, even) in
    let one : bit_step poly (q * 2 ^ suc n) ≡ q * 2 ^ n =
      rw off (bit_xor-zero (q * 2 ^ suc n / 2) ∙ omega (arith, even)) in
    ap (bit_steps poly n) one ∙ bit_steps-shift poly n q

-- Eight steps by one look into the table.
round-bit_steps :
    (poly : ℕ) (table : List ℕ) (fcs b : ℕ)
    → agree_below poly 256 table ≡ true
    → b < 256
    → round table fcs b ≡ bit_steps poly 8 (bit_xor fcs b)
unfolding round
round-bit_steps poly table fcs b agrees small =
    let c = bit_xor fcs b in
    let index = bit_and_low 8 c in
    let entry = agree_below_lem poly 256 table (c % 2 ^ 8) agrees (omega arith) in
    let upper : c / 2 ^ 8 ≡ fcs / 2 ^ 8 =
      bit_xor-shift_right 8 fcs b
      ∙ ap (λ t. bit_xor (fcs / 2 ^ 8) t) (omega arith)
      ∙ bit_xor-zero (fcs / 2 ^ 8) in
    let cut : bit_xor (c / 2 ^ 8 * 2 ^ 8) (c % 2 ^ 8) ≡ c =
      bit_xor_fields 8 (c / 2 ^ 8) (c % 2 ^ 8) (omega arith) ∙ omega arith in
    ap (λ t. bit_xor (fcs / 2 ^ 8) (get_or table t 0)) index
    ∙ ap (λ t. bit_xor (fcs / 2 ^ 8) t) entry
    ∙ ap (λ t. bit_xor t (bit_steps poly 8 (c % 2 ^ 8)))
        (sym (bit_steps-shift poly 8 (fcs / 2 ^ 8)))
    ∙ sym (bit_steps-xor poly 8 (fcs / 2 ^ 8 * 2 ^ 8) (c % 2 ^ 8))
    ∙ ap (λ t. bit_steps poly 8 (bit_xor (t * 2 ^ 8) (c % 2 ^ 8))) (sym upper)
    ∙ ap (bit_steps poly 8) cut

foldl-round :
    (poly : ℕ) (table bytes : List ℕ) (fcs : ℕ)
    → agree_below poly 256 table ≡ true
    → All (λ b. b < 256) bytes
    → foldl (round table) fcs bytes ≡ foldl (λ c b. bit_steps poly 8 (bit_xor c b)) fcs bytes
foldl-round poly table [] fcs agrees small = refl
foldl-round poly table (b ∷ bytes) fcs agrees (one, rest) =
    ap (λ t. foldl (round table) t bytes) (round-bit_steps poly table fcs b agrees one)
    ∙ foldl-round poly table bytes (bit_steps poly 8 (bit_xor fcs b)) agrees rest

-- On any bytes, both checksums by table are those that divide by their polynomial one bit at a
-- time, as the comment in the source does for the table of CRC32.
pub calc-remainder :
    (bytes : List ℕ)
    → All (λ b. b < 256) bytes
    → (calc16 bytes ≡ remainder 16 itu_poly bytes) × (calc32 bytes ≡ remainder 32 crc32_poly bytes)
unfolding calc16 calc32
calc-remainder bytes small = (
  ap (complement 16) (foldl-round itu_poly crc16_table bytes 0xffff crc16_agrees small),
  ap (complement 32) (foldl-round crc32_poly crc32_table bytes 0xffffffff crc32_agrees small),
)
