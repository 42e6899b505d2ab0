-- ===== src/Tests/Clock.antt =====
-- `TimeValue` on concrete times.
use exc.Common.{◌≡◌, refl, arith, pos, negsuc, ◌+ℤ◌, ◌-ℤ◌}
use exc.Time.{
  TimeValue, IsNormal, normalize, carry, carry_up, carry_down, fix_sign, total, sub, add, incr,
  decr,
}
use exc.Time.Normalize.{total-normalize-IsNormal}
use exc.Time.Arith.{arith_total}
use exc.Time.Micros.{IsTime}

abbrev debt : TimeValue
debt = record { sec = pos 3; usec = negsuc 2500000 }

abbrev short : TimeValue
short = record { sec = pos 1; usec = pos 250000 }

abbrev long_ago : TimeValue
long_ago = record { sec = negsuc 1; usec = negsuc 499999 }

normalize_test : normalize debt ≡ record { sec = pos 0; usec = pos 499999 }
unfolding normalize carry carry_up carry_down fix_sign ◌+ℤ◌ ◌-ℤ◌
normalize_test = refl

sub_test :
    sub short (record { sec = pos 2; usec = pos 0 }) ≡ record { sec = pos 0; usec = negsuc 749999 }
unfolding sub normalize carry carry_up carry_down fix_sign ◌+ℤ◌ ◌-ℤ◌
sub_test = refl

short-IsNormal : IsNormal short
unfolding ◌+ℤ◌
short-IsNormal = record {
  below = ground arith;
  above = ground arith;
  if_pos = ground arith;
  if_neg = ground arith;
}

long_ago-IsNormal : IsNormal long_ago
unfolding ◌+ℤ◌
long_ago-IsNormal = record {
  below = ground arith;
  above = ground arith;
  if_pos = ground arith;
  if_neg = ground arith;
}

arith_total_example :
    ((total (add short debt) ≡ total short +ℤ total debt) × IsNormal (add short debt))
    × ((total (sub short debt) ≡ total short -ℤ total debt) × IsNormal (sub short debt))
    × ((total (incr short) ≡ total short +ℤ pos 1) × IsNormal (incr short))
    × ((total (decr short) ≡ total short -ℤ pos 1) × IsNormal (decr short))
arith_total_example = arith_total short debt

normalize_example : (total (normalize debt) ≡ total debt) × IsNormal (normalize debt)
normalize_example = total-normalize-IsNormal debt

short-IsTime : IsTime short
short-IsTime = record { sec_nonneg = refl; usec_nonneg = refl; usec_small = omega arith }

abbrev later : TimeValue
later = record { sec = pos 4; usec = pos 0 }

later-IsTime : IsTime later
later-IsTime = record { sec_nonneg = refl; usec_nonneg = refl; usec_small = omega arith }
