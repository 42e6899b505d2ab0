-- ===== src/Wheel/Ticks.antt =====
-- The arithmetic of the wheel: a tick is the time that one spoke stands for.
use exc.Common.{ℕ, ◌+◌, ◌*◌, ◌/◌, ◌%◌, ◌≤◌, ◌<◌, ◌≡◌, ◌⊎◌, inl, inr, ap, arith}

-- The number of the tick in which a time falls, at `res` milliseconds to a tick.
abbrev pub tick : ℕ → ℕ → ℕ
tick res t = t / 1000 / res

div_mono : (a b res : ℕ) → 0 < res → a ≤ b → a / res ≤ b / res
div_mono a b res h k = grind arith

div_next : (a b res : ℕ) → 0 < res → b ≤ a + res → b / res ≤ a / res + 1
div_next a b res h k = grind arith

pub tick_mono : (a b res : ℕ) → 0 < res → a ≤ b → tick res a ≤ tick res b
tick_mono a b res h k = div_mono (a / 1000) (b / 1000) res h (omega arith)

pub tick_next : (a b res : ℕ) → 0 < res → b < a + 1000 * res → tick res b ≤ tick res a + 1
tick_next a b res h k = div_next (a / 1000) (b / 1000) res h (omega arith)

-- Between `low` and a tick later than `low`, an earlier time either falls in the spoke of `b`
-- or in that of `low`.
pub tick_cases :
    (low a b res n : ℕ)
    → 0 < res
    → low ≤ a
    → a ≤ b
    → b < low + 1000 * res
    → (tick res a % n ≡ tick res b % n) ⊎ (tick res a % n ≡ tick res low % n)
tick_cases low a b res n h la ab bl =
    elim (one_of (tick res low) (tick res a) (tick res b) (tick_mono low a res h la)
      (tick_mono a b res h ab) (tick_next low b res h bl)) [
        | inl e ↦ inl (ap (λ t. t % n) e)
        | inr e ↦ inr (ap (λ t. t % n) e)
      ]
  where
    one_of : (l x y : ℕ) → l ≤ x → x ≤ y → y ≤ l + 1 → (x ≡ y) ⊎ (x ≡ l)
    one_of l x y p q r = omega arith
