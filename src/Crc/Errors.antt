-- ===== src/Crc/Errors.antt =====
-- Which changes of the bytes the checksums tell.
use Prim.Native.Nat.{bit_xor}
use native.Mathlib.Nat.{pow-suc, one-le-pow, div-eq_of_lt, div-eq_of_lt-le, mod-eq_of_lt}
use mathlib.Core.List.{foldl}
use exc.Common.{
  ℕ, zero, suc, ◌-◌, ◌/◌, ◌%◌, ◌^◌, ◌≤◌, ◌<◌, ◌≡◌, ◌≢◌, sym, ap, ◌∙◌, arith, ◌==◌, if◌then◌else◌,
  List, [], ◌∷◌, ◌++◌, All, Bool-cases, inl, inr,
}
use exc.Words.Xor.{bit_xor-lt, bit_xor-zero, bit_xor_cancel, bit_xor_comm, bit_xor-shift_right}
use exc.Crc.{calc16, calc32, complement}
use exc.Crc.Bitwise.{bit_step, bit_steps, remainder, itu_poly, crc32_poly, calc-remainder}

bit_xor_inj : (a b c : ℕ) → bit_xor a c ≡ bit_xor b c → a ≡ b
bit_xor_inj a b c e = sym (bit_xor_cancel a c) ∙ ap (λ t. bit_xor t c) e ∙ bit_xor_cancel b c

complement_inj : (w x y : ℕ) → x < 2 ^ w → y < 2 ^ w → complement w x ≡ complement w y → x ≡ y
complement_inj w x y hx hy e = omega (arith, mod-eq_of_lt hx, mod-eq_of_lt hy, e)

All-insert :
    (front back : List ℕ) (b : ℕ)
    → All (λ x. x < 256) front
    → All (λ x. x < 256) back
    → b < 256
    → All (λ x. x < 256) (front ++ b ∷ back)
All-insert [] back b hf hb one = (one, hb)
All-insert (x ∷ front) back b (hx, hf) hb one = (hx, All-insert front back b hf hb one)

-- A polynomial with the highest of its `k + 1` bits set.
module _ (k poly : ℕ) (high : 2 ^ k ≤ poly) (fits : poly < 2 ^ suc k) where
  bit_step-lt : (c : ℕ) → c < 2 ^ suc k → bit_step poly c < 2 ^ suc k
  bit_step-lt c h =
      bit_xor-lt (suc k) (c / 2) (if c % 2 == 1 then poly else 0) (omega arith)
        (ground (arith, one-le-pow (suc k) 2))

  -- The highest bit of what a step gives is the lowest of what it was given.
  bit_step-high : (c : ℕ) → c < 2 ^ suc k → bit_step poly c / 2 ^ k ≡ c % 2
  bit_step-high c h =
      let top : poly / 2 ^ k ≡ 1 =
        div-eq_of_lt-le (2 ^ k) (omega arith) (omega (arith, pow-suc 2 k)) in
      let low : c / 2 / 2 ^ k ≡ 0 = div-eq_of_lt (omega (arith, pow-suc 2 k)) in
      elim (Bool-cases (c % 2 == 1)) [
        | inl odd ↦ rw odd (
            bit_xor-shift_right k (c / 2) poly
            ∙ ap (λ t. bit_xor t (poly / 2 ^ k)) low
            ∙ ap (λ t. bit_xor 0 t) top
            ∙ ground arith)
        | inr even ↦ rw even (ap (λ t. t / 2 ^ k) (bit_xor-zero (c / 2)) ∙ low ∙ ground arith)
      ]

  bit_step_inj :
      (c d : ℕ) → c < 2 ^ suc k → d < 2 ^ suc k → bit_step poly c ≡ bit_step poly d → c ≡ d
  bit_step_inj c d hc hd e =
      let lows : c % 2 ≡ d % 2 =
        sym (bit_step-high c hc) ∙ ap (λ t. t / 2 ^ k) e ∙ bit_step-high d hd in
      let halves : c / 2 ≡ d / 2 =
        bit_xor_inj (c / 2) (d / 2) (if d % 2 == 1 then poly else 0)
          (ap (λ t. bit_xor (c / 2) (if t == 1 then poly else 0)) (sym lows) ∙ e) in
      omega (arith, lows, halves)

  bit_steps-lt : (n c : ℕ) → c < 2 ^ suc k → bit_steps poly n c < 2 ^ suc k
  unfolding bit_steps
  bit_steps-lt zero c h = h
  bit_steps-lt (suc n) c h = bit_steps-lt n (bit_step poly c) (bit_step-lt c h)

  bit_steps_inj :
      (n c d : ℕ) → c < 2 ^ suc k → d < 2 ^ suc k → bit_steps poly n c ≡ bit_steps poly n d → c ≡ d
  unfolding bit_steps
  bit_steps_inj zero c d hc hd e = e
  bit_steps_inj (suc n) c d hc hd e =
      bit_step_inj c d hc hd (
        bit_steps_inj n (bit_step poly c) (bit_step poly d) (bit_step-lt c hc) (bit_step-lt d hd) e)

  module _ (wide : 256 ≤ 2 ^ suc k) where
    abbrev next : ℕ → ℕ → ℕ
    next c b = bit_steps poly 8 (bit_xor c b)

    next-lt : (c b : ℕ) → c < 2 ^ suc k → b < 256 → next c b < 2 ^ suc k
    next-lt c b hc hb = bit_steps-lt 8 (bit_xor c b) (bit_xor-lt (suc k) c b hc (omega arith))

    foldl-lt :
        (bytes : List ℕ) (c : ℕ)
        → All (λ b. b < 256) bytes
        → c < 2 ^ suc k
        → foldl next c bytes < 2 ^ suc k
    foldl-lt [] c small h = h
    foldl-lt (b ∷ bytes) c (one, rest) h = foldl-lt bytes (next c b) rest (next-lt c b h one)

    foldl_inj :
        (bytes : List ℕ) (c d : ℕ)
        → All (λ b. b < 256) bytes
        → c < 2 ^ suc k
        → d < 2 ^ suc k
        → foldl next c bytes ≡ foldl next d bytes
        → c ≡ d
    foldl_inj [] c d small hc hd e = e
    foldl_inj (b ∷ bytes) c d (one, rest) hc hd e = bit_xor_inj c d b (
        bit_steps_inj 8 (bit_xor c b) (bit_xor d b) (bit_xor-lt (suc k) c b hc (omega arith))
          (bit_xor-lt (suc k) d b hd (omega arith))
          (foldl_inj bytes (next c b) (next d b) rest (next-lt c b hc one) (next-lt d b hd one) e))

    foldl_changed :
        (front back : List ℕ) (c b b' : ℕ)
        → All (λ x. x < 256) front
        → All (λ x. x < 256) back
        → c < 2 ^ suc k
        → b < 256
        → b' < 256
        → foldl next c (front ++ b ∷ back) ≡ foldl next c (front ++ b' ∷ back)
        → b ≡ b'
    foldl_changed [] back c b b' hf hb hc one other e =
        let inner : bit_xor c b ≡ bit_xor c b' =
          bit_steps_inj 8 (bit_xor c b) (bit_xor c b') (bit_xor-lt (suc k) c b hc (omega arith))
            (bit_xor-lt (suc k) c b' hc (omega arith))
            (foldl_inj back (next c b) (next c b') hb (next-lt c b hc one) (next-lt c b' hc other)
              e) in
        bit_xor_inj b b' c (bit_xor_comm b c ∙ inner ∙ bit_xor_comm c b')
    foldl_changed (x ∷ front) back c b b' (hx, hf) hb hc one other e =
        foldl_changed front back (next c x) b b' hf hb (next-lt c x hc hx) one other e

    remainder_changed :
        (front back : List ℕ) (b b' : ℕ)
        → All (λ x. x < 256) front
        → All (λ x. x < 256) back
        → b < 256
        → b' < 256
        → remainder (suc k) poly (front ++ b ∷ back) ≡ remainder (suc k) poly (front ++ b' ∷ back)
        → b ≡ b'
    remainder_changed front back b b' hf hb one other e =
        let start : 2 ^ suc k - 1 < 2 ^ suc k = omega (arith, one-le-pow (suc k) 2) in
        let x = foldl next (2 ^ suc k - 1) (front ++ b ∷ back) in
        let y = foldl next (2 ^ suc k - 1) (front ++ b' ∷ back) in
        foldl_changed front back (2 ^ suc k - 1) b b' hf hb start one other (
          complement_inj (suc k) x y
            (foldl-lt (front ++ b ∷ back) (2 ^ suc k - 1) (All-insert front back b hf hb one) start)
            (foldl-lt (front ++ b' ∷ back) (2 ^ suc k - 1) (All-insert front back b' hf hb other)
              start)
            e)

-- If two runs of bytes differ in just one byte, then their checksums differ, both those of 16 and
-- those of 32 bits.
pub calc_changed :
    (front back : List ℕ) (b b' : ℕ)
    → All (λ x. x < 256) front
    → All (λ x. x < 256) back
    → b < 256
    → b' < 256
    → b ≢ b'
    → (calc16 (front ++ b ∷ back) ≢ calc16 (front ++ b' ∷ back))
      × (calc32 (front ++ b ∷ back) ≢ calc32 (front ++ b' ∷ back))
calc_changed front back b b' hf hb one other differ =
    let old = calc-remainder (front ++ b ∷ back) (All-insert front back b hf hb one) in
    let new = calc-remainder (front ++ b' ∷ back) (All-insert front back b' hf hb other) in
    (
      λ e. differ (
          remainder_changed 15 itu_poly (omega arith) (omega arith) (omega arith) front back b b' hf
            hb one other (sym old.0 ∙ e ∙ new.0)),
      λ e. differ (
          remainder_changed 31 crc32_poly (omega arith) (omega arith) (omega arith) front back b b'
            hf hb one other (sym old.1 ∙ e ∙ new.1)),
    )
