-- ===== src/Wheel/Sizing.antt =====
-- TimerWheel::power2bits: how many bits the number of spokes and the resolution get.
use exc.Common.{
  ℕ, zero, suc, ◌+◌, ◌-◌, ◌/◌, ◌^◌, true, false, if◌then◌else◌, ltb, leb, ◌==◌, Option, none, some,
}

-- The do-while loop that counts the bits: `tmp >>= 1; ++i` until `tmp` is 0, on fuel.
unfoldable pub count_bits : ℕ → ℕ → ℕ → ℕ
count_bits zero tmp i = i
count_bits (suc fuel) tmp i = elim (tmp / 2 == 0) [
  | true ↦ i + 1
  | false ↦ count_bits fuel (tmp / 2) (i + 1)
]

-- The distance of two numbers, which `b = -b` makes of a negative difference.
unfoldable pub gap : ℕ → ℕ → ℕ
gap a b = (a - b) + (b - a)

-- The nearest power of two, at the number `i` of bits of `n`.
unfoldable pub nearest_bits : ℕ → ℕ → ℕ → ℕ
unfolding gap
nearest_bits n min_bits i =
    if leb i min_bits then min_bits else if ltb (gap (2 ^ (i - 1)) n) (2 ^ i - n) then i - 1 else i

-- An unsigned number becomes an int. From 2^31 on that is below 0, thus not above the maximum, and
-- `tmp >>= 1` never makes it 0: `none` is that the loop does not end.
unfoldable pub power2bits : ℕ → ℕ → ℕ → Option ℕ
unfolding count_bits nearest_bits
power2bits n min_bits max_bits =
    if leb (2 ^ 31) n
    then none
    else if ltb (2 ^ max_bits - 1) n
    then some max_bits
    else some (nearest_bits n min_bits (count_bits (n + 1) n 0))
