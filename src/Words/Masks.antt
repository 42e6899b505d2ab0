-- ===== src/Words/Masks.antt =====
-- Fields of a number, and masks of its low bits.
use Prim.Native.Nat.{bit_and, bit_xor, bit_or}
use native.Mathlib.Nat.{pow-suc, one-le-pow}
use exc.Common.{ℕ, zero, suc, ◌+◌, ◌-◌, ◌*◌, ◌/◌, ◌%◌, ◌^◌, ◌≤◌, ◌<◌, ◌≡◌, refl, ap, ◌∙◌, arith}
use exc.Words.Xor.{by_halves, bit_xor_half, bit_and_half, bit_or_half, bit_xor-zero, same_digits}

pub bit_and-zero : (a : ℕ) → bit_and a 0 ≡ 0
bit_and-zero a =
    by_halves (λ x y z. bit_and x 0 ≡ 0) refl (λ x y z ih. ground (arith, bit_and_half x 0, ih)) a 0
      0

pub bit_or-zero : (a : ℕ) → bit_or a 0 ≡ a
bit_or-zero a =
    by_halves (λ x y z. bit_or x 0 ≡ x) refl (λ x y z ih. ground (arith, bit_or_half x 0, ih)) a 0 0

twice_pow : (q k : ℕ) → q * 2 ^ suc k ≡ q * 2 ^ k * 2
twice_pow q k = omega (arith, ap (λ (t : ℕ). q * t) (pow-suc 2 k))

-- A field of `k` low bits beside the bits above it.
pub bit_xor_fields : (k q r : ℕ) → r < 2 ^ k → bit_xor (q * 2 ^ k) r ≡ q * 2 ^ k + r
bit_xor_fields zero q r fits = ground (arith, bit_xor-zero q)
bit_xor_fields (suc k) q r fits =
    ground (
      arith,
      twice_pow q k,
      pow-suc 2 k,
      bit_xor_half (q * 2 ^ suc k) r,
      bit_xor_fields k q (r / 2),
    )

pub bit_or_fields : (k q r : ℕ) → r < 2 ^ k → bit_or (q * 2 ^ k) r ≡ q * 2 ^ k + r
bit_or_fields zero q r fits = ground (arith, bit_or-zero q)
bit_or_fields (suc k) q r fits =
    ground
      (arith, twice_pow q k, pow-suc 2 k, bit_or_half (q * 2 ^ suc k) r, bit_or_fields k q (r / 2))

low_field : (k q r : ℕ) → r < 2 ^ k → bit_and (q * 2 ^ k + r) (2 ^ k - 1) ≡ r
low_field zero q r fits = bit_and-zero (q * 1 + r) ∙ omega arith
low_field (suc k) q r fits =
    let mask : (2 ^ suc k - 1) / 2 ≡ 2 ^ k - 1 = omega (arith, pow-suc 2 k, one-le-pow k 2) in
    let upper : (q * 2 ^ suc k + r) / 2 ≡ q * 2 ^ k + r / 2 = omega (arith, twice_pow q k) in
    let half = bit_and_half (q * 2 ^ suc k + r) (2 ^ suc k - 1) in
    same_digits (bit_and (q * 2 ^ suc k + r) (2 ^ suc k - 1)) r
      (half.0
        ∙ ap (λ t. bit_and t ((2 ^ suc k - 1) / 2)) upper
        ∙ ap (λ t. bit_and (q * 2 ^ k + r / 2) t) mask
        ∙ low_field k q (r / 2) (omega (arith, pow-suc 2 k)))
      (ground (arith, half, twice_pow q k, pow-suc 2 k, one-le-pow k 2))

-- A mask of the `k` low bits is a remainder.
pub bit_and_low : (k a : ℕ) → bit_and a (2 ^ k - 1) ≡ a % 2 ^ k
bit_and_low k a = ground (arith, one-le-pow k 2, low_field k (a / 2 ^ k) (a % 2 ^ k))

pub bit_and-le : (a m : ℕ) → bit_and a m ≤ m
bit_and-le a m =
    by_halves (λ x y z. bit_and x y ≤ y) (omega arith)
      (λ x y z ih. ground (arith, bit_and_half x y, ih)) a m 0

no_bits : (a : ℕ) → a < 1 → a ≡ 0
no_bits a h = omega arith

pub bit_or-lt : (k a b : ℕ) → a < 2 ^ k → b < 2 ^ k → bit_or a b < 2 ^ k
bit_or-lt zero a b ha hb = rw (no_bits a ha, no_bits b hb) (omega arith)
bit_or-lt (suc k) a b ha hb = omega (
  arith,
  bit_or-lt k (a / 2) (b / 2) (omega (arith, pow-suc 2 k)) (omega (arith, pow-suc 2 k)),
  pow-suc 2 k,
  (bit_or_half a b).0,
)
