-- ===== src/Words/Xor.antt =====
-- Exclusive or is a commutative group in which each number is its own inverse, and shifts, masks and
-- bounds go through it.
use Prim.Native.Nat.{bit_and, bit_xor, bit_or, differ, min, max}
use native.Mathlib.Nat.{pow-suc, div-div-eq-div-mul}
use exc.Common.{ℕ, zero, suc, ◌+◌, ◌/◌, ◌%◌, ◌^◌, ◌≤◌, ◌<◌, ◌≡◌, refl, sym, ap, ◌∙◌, arith}
use exc.Words.Digits.{bit_xor-digit, bit_and-digit, bit_or-digit}

-- From the halves to the numbers.
halving :
    (P : ℕ → ℕ → ℕ → Type 0)
    → P 0 0 0
    → ((a b c : ℕ) → P (a / 2) (b / 2) (c / 2) → P a b c)
    → (n a b c : ℕ) → a ≤ n
    → b ≤ n
    → c ≤ n
    → P a b c
halving P base step zero zero zero zero ha hb hc = base
halving P base step zero (suc a) b c ha hb hc = absurd (omega arith)
halving P base step zero zero (suc b) c ha hb hc = absurd (omega arith)
halving P base step zero zero zero (suc c) ha hb hc = absurd (omega arith)
halving P base step (suc n) a b c ha hb hc =
    step a b c
      (halving P base step n (a / 2) (b / 2) (c / 2) (omega arith) (omega arith) (omega arith))

pub by_halves :
    (P : ℕ → ℕ → ℕ → Type 0)
    → P 0 0 0
    → ((a b c : ℕ) → P (a / 2) (b / 2) (c / 2) → P a b c)
    → (a b c : ℕ) → P a b c
by_halves P base step a b c =
    halving P base step (a + b + c) a b c (omega arith) (omega arith) (omega arith)

differ-sum : (x y : ℕ) → x < 2 → y < 2 → differ x y ≡ (x + y) % 2
differ-sum zero zero hx hy = refl
differ-sum zero (suc zero) hx hy = refl
differ-sum (suc zero) zero hx hy = refl
differ-sum (suc zero) (suc zero) hx hy = refl
differ-sum zero (suc (suc y)) hx hy = absurd (omega arith)
differ-sum (suc zero) (suc (suc y)) hx hy = absurd (omega arith)
differ-sum (suc (suc x)) y hx hy = absurd (omega arith)

-- The equations that the halving of each proof uses.
pub bit_xor_half :
    (a b : ℕ)
    → (bit_xor a b / 2 ≡ bit_xor (a / 2) (b / 2)) × (bit_xor a b % 2 ≡ (a % 2 + b % 2) % 2)
bit_xor_half a b =
    let sum = differ-sum (a % 2) (b % 2) (omega arith) (omega arith) in
    (omega (arith, bit_xor-digit a b, sum), omega (arith, bit_xor-digit a b, sum))

pub bit_and_half :
    (a b : ℕ)
    → (bit_and a b / 2 ≡ bit_and (a / 2) (b / 2)) × (bit_and a b % 2 ≡ min (a % 2) (b % 2))
bit_and_half a b = ground (arith, bit_and-digit a b)

pub bit_or_half :
    (a b : ℕ) → (bit_or a b / 2 ≡ bit_or (a / 2) (b / 2)) × (bit_or a b % 2 ≡ max (a % 2) (b % 2))
bit_or_half a b = ground (arith, bit_or-digit a b)

-- Two numbers with the same half and the same last digit are the same.
pub same_digits : (x y : ℕ) → x / 2 ≡ y / 2 → x % 2 ≡ y % 2 → x ≡ y
same_digits x y h l = omega (arith, h, l)

pub bit_xor_comm : (a b : ℕ) → bit_xor a b ≡ bit_xor b a
bit_xor_comm a b =
    by_halves (λ x y z. bit_xor x y ≡ bit_xor y x) refl
      (λ x y z ih.
        same_digits (bit_xor x y) (bit_xor y x)
          ((bit_xor_half x y).0 ∙ ih ∙ sym (bit_xor_half y x).0)
          (omega (arith, (bit_xor_half x y).1, (bit_xor_half y x).1)))
      a b 0

pub bit_xor_assoc : (a b c : ℕ) → bit_xor (bit_xor a b) c ≡ bit_xor a (bit_xor b c)
bit_xor_assoc =
    by_halves (λ x y z. bit_xor (bit_xor x y) z ≡ bit_xor x (bit_xor y z)) refl
      (λ x y z ih.
        same_digits (bit_xor (bit_xor x y) z) (bit_xor x (bit_xor y z))
          ((bit_xor_half (bit_xor x y) z).0
            ∙ ap (λ t. bit_xor t (z / 2)) (bit_xor_half x y).0
            ∙ ih
            ∙ ap (λ t. bit_xor (x / 2) t) (sym (bit_xor_half y z).0)
            ∙ sym (bit_xor_half x (bit_xor y z)).0)
          (omega (
            arith,
            (bit_xor_half (bit_xor x y) z).1,
            (bit_xor_half x y).1,
            (bit_xor_half y z).1,
            (bit_xor_half x (bit_xor y z)).1,
          )))

pub bit_xor_self : (a : ℕ) → bit_xor a a ≡ 0
bit_xor_self a =
    by_halves (λ x y z. bit_xor x x ≡ 0) refl
      (λ x y z ih. omega (arith, (bit_xor_half x x).0, (bit_xor_half x x).1, ih)) a 0 0

pub bit_xor-zero : (a : ℕ) → bit_xor a 0 ≡ a
bit_xor-zero a =
    by_halves (λ x y z. bit_xor x 0 ≡ x) refl
      (λ x y z ih. omega (arith, (bit_xor_half x 0).0, (bit_xor_half x 0).1, ih)) a 0 0

-- What was put in with `^` goes out with it.
pub bit_xor_cancel : (a b : ℕ) → bit_xor (bit_xor a b) b ≡ a
bit_xor_cancel a b = bit_xor_assoc a b b ∙ ap (λ t. bit_xor a t) (bit_xor_self b) ∙ bit_xor-zero a

div-one : (a : ℕ) → a / 1 ≡ a
div-one a = omega arith

shift_suc : (a k : ℕ) → a / 2 ^ suc k ≡ a / 2 / 2 ^ k
shift_suc a k = sym (div-div-eq-div-mul a 2 (2 ^ k) ∙ ap (λ t. a / t) (omega (arith, pow-suc 2 k)))

pub bit_xor-shift_right : (k a b : ℕ) → bit_xor a b / 2 ^ k ≡ bit_xor (a / 2 ^ k) (b / 2 ^ k)
bit_xor-shift_right zero a b =
    div-one (bit_xor a b)
    ∙ sym (ap (λ t. bit_xor t (b / 1)) (div-one a) ∙ ap (λ t. bit_xor a t) (div-one b))
bit_xor-shift_right (suc k) a b =
    shift_suc (bit_xor a b) k
    ∙ ap (λ t. t / 2 ^ k) (bit_xor_half a b).0
    ∙ bit_xor-shift_right k (a / 2) (b / 2)
    ∙ ap (λ t. bit_xor t (b / 2 / 2 ^ k)) (sym (shift_suc a k))
    ∙ ap (λ t. bit_xor (a / 2 ^ suc k) t) (sym (shift_suc b k))

zero_of : (a : ℕ) → a < 1 → a ≡ 0
zero_of a h = omega arith

pub bit_xor-lt : (k a b : ℕ) → a < 2 ^ k → b < 2 ^ k → bit_xor a b < 2 ^ k
bit_xor-lt zero a b ha hb = rw (zero_of a ha, zero_of b hb) (omega arith)
bit_xor-lt (suc k) a b ha hb = omega (
  arith,
  bit_xor-lt k (a / 2) (b / 2) (omega (arith, pow-suc 2 k)) (omega (arith, pow-suc 2 k)),
  pow-suc 2 k,
  (bit_xor_half a b).0,
)

pub bit_and_xor : (a b m : ℕ) → bit_and (bit_xor a b) m ≡ bit_xor (bit_and a m) (bit_and b m)
bit_and_xor =
    by_halves (λ x y z. bit_and (bit_xor x y) z ≡ bit_xor (bit_and x z) (bit_and y z)) refl
      (λ x y z ih.
        same_digits (bit_and (bit_xor x y) z) (bit_xor (bit_and x z) (bit_and y z))
          ((bit_and_half (bit_xor x y) z).0
            ∙ ap (λ t. bit_and t (z / 2)) (bit_xor_half x y).0
            ∙ ih
            ∙ ap (λ t. bit_xor t (bit_and (y / 2) (z / 2))) (sym (bit_and_half x z).0)
            ∙ ap (λ t. bit_xor (bit_and x z / 2) t) (sym (bit_and_half y z).0)
            ∙ sym (bit_xor_half (bit_and x z) (bit_and y z)).0)
          (ground (
            arith,
            bit_and_half (bit_xor x y) z,
            bit_xor_half x y,
            bit_and_half x z,
            bit_and_half y z,
            bit_xor_half (bit_and x z) (bit_and y z),
          )))

-- Two sums by `^`, regrouped.
pub bit_xor_exchange :
    (a b c d : ℕ) → bit_xor (bit_xor a b) (bit_xor c d) ≡ bit_xor (bit_xor a c) (bit_xor b d)
bit_xor_exchange a b c d =
    bit_xor_assoc a b (bit_xor c d)
    ∙ ap (λ t. bit_xor a t)
        (sym (bit_xor_assoc b c d) ∙ ap (λ t. bit_xor t d) (bit_xor_comm b c) ∙ bit_xor_assoc c b d)
    ∙ sym (bit_xor_assoc a c (bit_xor b d))
