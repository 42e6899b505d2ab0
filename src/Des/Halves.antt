-- ===== src/Des/Halves.antt =====
-- The permutations and rounds of desfunc undo each other.
use Prim.Native.Nat.{bit_and, bit_or, bit_xor}
use exc.Common.{ℕ, ◌+◌, ◌*◌, ◌/◌, ◌%◌, ◌^◌, ◌≤◌, ◌<◌, ◌≡◌, refl, ap, ◌∙◌, arith}
use native.Mathlib.Nat.{mod-eq_of_lt, div-eq_of_eq-mul_left, one-le-pow}
use exc.Words.Xor.{
  bit_xor_comm, bit_xor_self, bit_xor-zero, bit_xor_cancel, bit_xor-shift_right, bit_xor_exchange,
  bit_xor-lt,
}
use exc.Words.Masks.{bit_and_low, bit_and-le, bit_or_fields}
use exc.Des.{Halves, flip, delta, exchange, rotate_left, rotate_right}

-- Both halves fit 32 bits.
abbrev pub AreWords : Halves → Type 0
AreWords s = (s.0 < 2 ^ 32) × (s.1 < 2 ^ 32)

shifted_back : (k m w : ℕ) → w ≤ m → m * 2 ^ k < 2 ^ 32 → w * 2 ^ k % 2 ^ 32 / 2 ^ k ≡ w
shifted_back k m w le fits =
    let small : w * 2 ^ k < 2 ^ 32 = grind arith in
    ap (λ t. t / 2 ^ k) (mod-eq_of_lt small)
    ∙ div-eq_of_eq-mul_left (one-le-pow k 2 (omega arith)) refl

pub delta_twice : (k m : ℕ) (s : Halves) → m * 2 ^ k < 2 ^ 32 → delta k m (delta k m s) ≡ s
unfolding delta
delta_twice k m s fits =
    let work = bit_and (bit_xor (s.0 / 2 ^ k) s.1) m in
    let high = work * 2 ^ k % 2 ^ 32 in
    let again : bit_and (bit_xor (bit_xor s.0 high / 2 ^ k) (bit_xor s.1 work)) m ≡ work =
      ap (λ t. bit_and t m)
        (ap (λ t. bit_xor t (bit_xor s.1 work))
            (bit_xor-shift_right k s.0 high
              ∙ ap (λ t. bit_xor (s.0 / 2 ^ k) t)
                  (shifted_back k m work (bit_and-le (bit_xor (s.0 / 2 ^ k) s.1) m) fits))
          ∙ bit_xor_exchange (s.0 / 2 ^ k) work s.1 work
          ∙ ap (λ t. bit_xor (bit_xor (s.0 / 2 ^ k) s.1) t) (bit_xor_self work)
          ∙ bit_xor-zero (bit_xor (s.0 / 2 ^ k) s.1)) in
    ap (λ t. (bit_xor (bit_xor s.0 high) (t * 2 ^ k % 2 ^ 32), bit_xor (bit_xor s.1 work) t)) again
    ∙ pair (bit_xor_cancel s.0 high) (bit_xor_cancel s.1 work)
  where
    pair : {a b c d : ℕ} → a ≡ b → c ≡ d → ◌≡◌ {A = ℕ × ℕ} (a, c) (b, d)
    pair p q = λ i. (p i, q i)

pub delta-AreWords : (k m : ℕ) (s : Halves) → m < 2 ^ 32 → AreWords s → AreWords (delta k m s)
unfolding delta
delta-AreWords k m s fits (l, r) =
    let work = bit_and (bit_xor (s.0 / 2 ^ k) s.1) m in
    (
      bit_xor-lt 32 s.0 (work * 2 ^ k % 2 ^ 32) l (omega arith),
      bit_xor-lt 32 s.1 work r (omega (arith, bit_and-le (bit_xor (s.0 / 2 ^ k) s.1) m)),
    )

pub exchange_twice : (s : Halves) → exchange (exchange s) ≡ s
unfolding exchange
exchange_twice s =
    let work = bit_and (bit_xor s.0 s.1) 0xaaaaaaaa in
    let again : bit_and (bit_xor (bit_xor s.0 work) (bit_xor s.1 work)) 0xaaaaaaaa ≡ work =
      ap (λ t. bit_and t 0xaaaaaaaa)
        (bit_xor_exchange s.0 work s.1 work
          ∙ ap (λ t. bit_xor (bit_xor s.0 s.1) t) (bit_xor_self work)
          ∙ bit_xor-zero (bit_xor s.0 s.1)) in
    λ i. (
      (ap (λ t. bit_xor (bit_xor s.0 work) t) again ∙ bit_xor_cancel s.0 work) i,
      (ap (λ t. bit_xor (bit_xor s.1 work) t) again ∙ bit_xor_cancel s.1 work) i,
    )

pub exchange-flip : (s : Halves) → exchange (flip s) ≡ flip (exchange s)
unfolding exchange
exchange-flip s =
    ap (λ t. (bit_xor s.1 (bit_and t 0xaaaaaaaa), bit_xor s.0 (bit_and t 0xaaaaaaaa)))
      (bit_xor_comm s.1 s.0)

pub exchange-AreWords : (s : Halves) → AreWords s → AreWords (exchange s)
unfolding exchange
exchange-AreWords s (l, r) =
    let work = bit_and (bit_xor s.0 s.1) 0xaaaaaaaa in
    let fits : work < 2 ^ 32 = omega (arith, bit_and-le (bit_xor s.0 s.1) 0xaaaaaaaa) in
    (bit_xor-lt 32 s.0 work l fits, bit_xor-lt 32 s.1 work r fits)

-- The rotations of a word as arithmetic.
rotate_left-sum : (x : ℕ) → x < 2 ^ 32 → rotate_left x ≡ x % 2 ^ 31 * 2 + x / 2 ^ 31
unfolding rotate_left
rotate_left-sum x h =
    bit_and_low 32 (bit_or (x * 2 % 2 ^ 32) (bit_and (x / 2 ^ 31) 1))
    ∙ ap (λ t. bit_or (x * 2 % 2 ^ 32) t % 2 ^ 32) (bit_and_low 1 (x / 2 ^ 31))
    ∙ ap (λ t. bit_or t (x / 2 ^ 31 % 2 ^ 1) % 2 ^ 32) (omega arith)
    ∙ ap (λ t. t % 2 ^ 32) (bit_or_fields 1 (x % 2 ^ 31) (x / 2 ^ 31 % 2 ^ 1) (omega arith))
    ∙ omega arith

rotate_right-sum : (x : ℕ) → x < 2 ^ 32 → rotate_right x ≡ x % 2 * 2 ^ 31 + x / 2
unfolding rotate_right
rotate_right-sum x h =
    ap (λ t. bit_or t (x / 2)) (omega arith) ∙ bit_or_fields 31 (x % 2) (x / 2) (omega arith)

pub rotate_right-left : (x : ℕ) → x < 2 ^ 32 → rotate_right (rotate_left x) ≡ x
rotate_right-left x h = omega (
  arith,
  rotate_left-sum x h,
  rotate_right-sum (rotate_left x) (omega (arith, rotate_left-sum x h)),
)

pub rotate_left-right : (x : ℕ) → x < 2 ^ 32 → rotate_left (rotate_right x) ≡ x
rotate_left-right x h = omega (
  arith,
  rotate_right-sum x h,
  rotate_left-sum (rotate_right x) (omega (arith, rotate_right-sum x h)),
)

pub rotate_left-lt : (x : ℕ) → x < 2 ^ 32 → rotate_left x < 2 ^ 32
rotate_left-lt x h = omega (arith, rotate_left-sum x h)

pub rotate_right-lt : (x : ℕ) → x < 2 ^ 32 → rotate_right x < 2 ^ 32
rotate_right-lt x h = omega (arith, rotate_right-sum x h)
