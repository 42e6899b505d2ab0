-- ===== src/Time.antt =====
-- comLib/dhntimer/Time_Value.h and Time_Value.cpp: seconds and microseconds of the timers.
-- `time_t` and `long` are signed and of 64 bits; the sums of this file are taken in ℤ, without
-- the overflow of 2 ^ 63 seconds.
pub mod Normalize
pub mod Order
pub mod Arith
pub mod Micros
use exc.Common.{
  ℕ, zero, suc, ◌+◌, ◌*◌, ◌/◌, ◌%◌, ◌^◌, Bool, true, false, not, ◌&&◌, if◌then◌else◌, ℤ, pos,
  pos_part, neg_part, ◌+ℤ◌, ◌-ℤ◌, scale, quot, to_u64, ltb_ℤ, leb_ℤ, eqb_ℤ, ◌≤ℤ◌, ◌<ℤ◌, ◌⊎◌,
}

pub record TimeValue : Type 0 where
  pub sec : ℤ
  pub usec : ℤ

-- ONE_SECOND_IN_USECS
abbrev pub second : ℕ
second = 1000000

-- The first loop of `normalize`, on fuel.
unfoldable pub carry_up : ℕ → TimeValue → TimeValue
carry_up zero t = t
carry_up (suc fuel) t = elim (leb_ℤ (pos second) t.usec) [
  | true ↦ carry_up fuel (record { sec = t.sec +ℤ pos 1; usec = t.usec -ℤ pos second })
  | false ↦ t
]

-- The second loop.
unfoldable pub carry_down : ℕ → TimeValue → TimeValue
carry_down zero t = t
carry_down (suc fuel) t = elim (leb_ℤ (t.usec +ℤ pos second) (pos 0)) [
  | true ↦ carry_down fuel (record { sec = t.sec -ℤ pos 1; usec = t.usec +ℤ pos second })
  | false ↦ t
]

-- The two tests at the end, which give both fields one sign.
unfoldable pub fix_sign : TimeValue → TimeValue
fix_sign t =
    if leb_ℤ (pos 1) t.sec && ltb_ℤ t.usec (pos 0)
    then record { sec = t.sec -ℤ pos 1; usec = t.usec +ℤ pos second }
    else if ltb_ℤ t.sec (pos 0) && ltb_ℤ (pos 0) t.usec
    then record { sec = t.sec +ℤ pos 1; usec = t.usec -ℤ pos second }
    else t

-- The branch that chooses a loop. The rounds are at most the number of microseconds.
unfoldable pub carry : TimeValue → TimeValue
carry t =
    if leb_ℤ (pos second) t.usec
    then carry_up (pos_part t.usec) t
    else if leb_ℤ (t.usec +ℤ pos second) (pos 0)
    then carry_down (neg_part t.usec) t
    else t

unfoldable pub normalize : TimeValue → TimeValue
normalize t = fix_sign (carry t)

-- TimeValue(sec, usec) and `set`
unfoldable pub make : ℤ → ℤ → TimeValue
make s u = normalize (record { sec = s; usec = u })

abbrev pub zero_time : TimeValue
zero_time = record { sec = pos 0; usec = pos 0 }

-- operator >
unfoldable pub gt : TimeValue → TimeValue → Bool
gt a b =
    if ltb_ℤ b.sec a.sec
    then true
    else if eqb_ℤ a.sec b.sec && ltb_ℤ b.usec a.usec
    then true
    else false

-- operator >=
unfoldable pub ge : TimeValue → TimeValue → Bool
ge a b =
    if ltb_ℤ b.sec a.sec
    then true
    else if eqb_ℤ a.sec b.sec && leb_ℤ b.usec a.usec
    then true
    else false

-- operator <
unfoldable pub lt : TimeValue → TimeValue → Bool
unfolding gt
lt a b = gt b a

-- operator <=
unfoldable pub le : TimeValue → TimeValue → Bool
unfolding ge
le a b = ge b a

-- operator ==
unfoldable pub eq : TimeValue → TimeValue → Bool
eq a b = eqb_ℤ a.sec b.sec && eqb_ℤ a.usec b.usec

-- operator !=
unfoldable pub ne : TimeValue → TimeValue → Bool
unfolding eq
ne a b = not (eq a b)

-- operator + and operator +=
unfoldable pub add : TimeValue → TimeValue → TimeValue
add a b = normalize (record { sec = a.sec +ℤ b.sec; usec = a.usec +ℤ b.usec })

-- operator - and operator -=
unfoldable pub sub : TimeValue → TimeValue → TimeValue
sub a b = normalize (record { sec = a.sec -ℤ b.sec; usec = a.usec -ℤ b.usec })

-- The prefix operators ++ and --
unfoldable pub incr : TimeValue → TimeValue
incr a = normalize (record a { usec = a.usec +ℤ pos 1 })

unfoldable pub decr : TimeValue → TimeValue
decr a = normalize (record a { usec = a.usec -ℤ pos 1 })

-- msec(void): the cast to `unsigned long` is modulo 2 ^ 64
unfoldable pub msec : TimeValue → ℕ
unfolding quot scale to_u64
msec t = to_u64 (scale 1000 t.sec +ℤ quot t.usec 1000)

-- msec(long)
unfoldable pub of_msec : ℤ → TimeValue
unfolding quot scale
of_msec ms = let s = quot ms 1000 in record { sec = s; usec = scale 1000 (ms -ℤ scale 1000 s) }

-- operator += and operator -= with a number of seconds, which do not normalize
unfoldable pub add_seconds : TimeValue → ℤ → TimeValue
add_seconds a n = record a { sec = a.sec +ℤ n }

unfoldable pub sub_seconds : TimeValue → ℤ → TimeValue
sub_seconds a n = record a { sec = a.sec -ℤ n }

-- operator = with a number of seconds
abbrev pub of_seconds : ℤ → TimeValue
of_seconds n = record { sec = n; usec = pos 0 }

-- to_timeval, which leaves the microseconds at the zero of memset
abbrev pub to_timeval : TimeValue → TimeValue
to_timeval a = record { sec = a.sec; usec = pos 0 }

-- The whole time in microseconds.
unfoldable pub total : TimeValue → ℤ
total t = scale second t.sec +ℤ t.usec

-- What `normalize` establishes: less than a second of microseconds, of the sign of the seconds.
pub record IsNormal (t : TimeValue) : Type 0 where
  pub below : t.usec <ℤ pos second
  pub above : pos 0 <ℤ t.usec +ℤ pos second
  pub if_pos : (t.sec ≤ℤ pos 0) ⊎ (pos 0 ≤ℤ t.usec)
  pub if_neg : (pos 0 ≤ℤ t.sec) ⊎ (t.usec ≤ℤ pos 0)
