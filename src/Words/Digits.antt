-- ===== src/Words/Digits.antt =====
-- `^`, `&` and `|` one binary digit at a time.
use Prim.Native.Nat.{
  min, max, differ, digits, bitwise, bit_and, bit_or, bit_xor, bit_and-bitwise, bit_or-bitwise,
  bit_xor-bitwise,
}
use exc.Common.{ℕ, zero, suc, ◌+◌, ◌*◌, ◌/◌, ◌%◌, ◌≤◌, ◌≡◌, refl, ap, arith}

-- The recursion on digits gives the same with any fuel that reaches the first number.
module _ (rest : ℕ → ℕ) (digit : ℕ → ℕ → ℕ) where
  digits_enough :
      (a n b : ℕ) (k : ℕ) → a ≤ n → n ≤ k → digits rest digit n a b ≡ digits rest digit a a b
  digits_enough zero n b k le small = none_left n
    where
      none_left : (n : ℕ) → digits rest digit n zero b ≡ rest b
      none_left zero = refl
      none_left (suc n) = refl
  digits_enough (suc a) zero b k le small = absurd (omega arith)
  digits_enough (suc a) (suc n) b zero le small = absurd (omega arith)
  digits_enough (suc a) (suc n) b (suc k) le small =
      let half = suc a / 2 in
      let upper = digits_enough half n (b / 2) k (omega arith) (omega arith) in
      let lower = digits_enough half a (b / 2) k (omega arith) (omega arith) in rw (upper, lower)

  bitwise-digit :
      (a b : ℕ)
      → bitwise rest digit (suc a) b
        ≡ bitwise rest digit (suc a / 2) (b / 2) * 2 + digit (suc a % 2) (b % 2)
  bitwise-digit a b =
      ap (λ t. t * 2 + digit (suc a % 2) (b % 2))
        (digits_enough (suc a / 2) a (b / 2) a (omega arith) (omega arith))

pub bit_xor-digit : (a b : ℕ) → bit_xor a b ≡ bit_xor (a / 2) (b / 2) * 2 + differ (a % 2) (b % 2)
bit_xor-digit zero b = simp bit_xor-bitwise (omega arith)
bit_xor-digit (suc a) b = simp bit_xor-bitwise (bitwise-digit (λ y. y) differ a b)

pub bit_and-digit : (a b : ℕ) → bit_and a b ≡ bit_and (a / 2) (b / 2) * 2 + min (a % 2) (b % 2)
bit_and-digit zero b = simp bit_and-bitwise (omega arith)
bit_and-digit (suc a) b = simp bit_and-bitwise (bitwise-digit (λ y. 0) min a b)

pub bit_or-digit : (a b : ℕ) → bit_or a b ≡ bit_or (a / 2) (b / 2) * 2 + max (a % 2) (b % 2)
bit_or-digit zero b = simp bit_or-bitwise (omega arith)
bit_or-digit (suc a) b = simp bit_or-bitwise (bitwise-digit (λ y. y) max a b)
