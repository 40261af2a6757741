-- ===== src/Groups/Clock/Laws.antt =====
-- The date and the time in a clock-time group, as a receiver reads them.
use rds.Common.{ℕ, zero, suc, ◌+◌, ◌-◌, ◌*◌, ◌/◌, ◌%◌, ◌^◌, ◌<◌, Bool, true, inl, inr}
use rds.Common.{◌≡◌, refl, arith, ◌==◌, leb, ltb, if◌then◌else◌, not, ◌&&◌, ◌||◌, Bool-cases}
use rds.Common.{bit_or, bit_and, bit_or_sum, zero-bit_or, all_below, all_below_sound, ==_iff}
use rds.Model.{RdsGroup}
use package.rds.Groups.Ps.{blank}
use package.rds.Groups.Clock.{Tm, mjd_of, get_rdsp_ct_group}

-- Is the year `1900 + year` a leap year of the Gregorian calendar?
abbrev pub is_leap : ℕ → Bool
is_leap year = (year % 4 == 0) && (not ((1900 + year) % 100 == 0) || ((1900 + year) % 400 == 0))

abbrev pub year_length : ℕ → ℕ
year_length year = if is_leap year then 366 else 365

-- The months count from 0.
abbrev pub month_length : ℕ → ℕ → ℕ
month_length year mon =
    if mon == 1
    then (if is_leap year then 29 else 28)
    else if (mon == 3) || (mon == 5) || (mon == 8) || (mon == 10)
    then 30
    else 31

-- The days of the `n` years from 1901 on, and of the first `mon` months of a year.
pub days_of_years : ℕ → ℕ
days_of_years zero = 0
days_of_years (suc n) = days_of_years n + year_length (n + 1)

abbrev pub days_of_months : ℕ → ℕ → ℕ
days_of_months year zero = 0
days_of_months year (suc mon) = days_of_months year mon + month_length year mon

-- From 1901 to 2099 every fourth year is a leap year.
is_leap_lem : (y : ℕ) → 0 < y → y < 200 → is_leap y ≡ (y % 4 == 0)
is_leap_lem y pos h = ground arith

days_of_years_lem : (n : ℕ) → n < 199 → days_of_years n ≡ n * 36525 / 100
unfolding days_of_years
days_of_years_lem zero h = refl
days_of_years_lem (suc n) h =
    ground
      (arith, days_of_years_lem n (omega arith), is_leap_lem (n + 1) (omega arith) (omega arith))

-- The days of the months, as `mjd_of` takes them from a year that starts in March.
days_of_months_lem :
    (year mon : ℕ)
    → mon < 12
    → days_of_months year mon
      ≡ (if leb mon 1 then 31 * mon else (mon + 2) * 306001 / 10000 + year_length year - 428)
days_of_months_lem year zero h = ground arith
days_of_months_lem year (suc zero) h = ground arith
days_of_months_lem year (suc (suc zero)) h = ground arith
days_of_months_lem year (suc (suc (suc zero))) h = ground arith
days_of_months_lem year (suc (suc (suc (suc zero)))) h = ground arith
days_of_months_lem year (suc (suc (suc (suc (suc zero))))) h = ground arith
days_of_months_lem year (suc (suc (suc (suc (suc (suc zero)))))) h = ground arith
days_of_months_lem year (suc (suc (suc (suc (suc (suc (suc zero))))))) h = ground arith
days_of_months_lem year (suc (suc (suc (suc (suc (suc (suc (suc zero)))))))) h = ground arith
days_of_months_lem year (suc (suc (suc (suc (suc (suc (suc (suc (suc zero))))))))) h = ground arith
days_of_months_lem year (suc (suc (suc (suc (suc (suc (suc (suc (suc (suc zero)))))))))) h =
    ground arith
days_of_months_lem year (suc (suc (suc (suc (suc (suc (suc (suc (suc (suc (suc zero))))))))))) h =
    ground arith
days_of_months_lem year (suc (suc (suc (suc (suc (suc (suc (suc (suc (suc (suc (suc m))))))))))))
      h =
    absurd (omega arith)

-- `mjd_of` is the number of days by the Gregorian calendar from the modified Julian date 15384, the
-- last day of 1900, on: for the years 1901 to 2099.
pub mjd_of_lem :
    (year mon mday : ℕ)
    → 0 < year
    → year < 200
    → mon < 12
    → mjd_of year mon mday ≡ 15384 + days_of_years (year - 1) + days_of_months year mon + mday
unfolding mjd_of
mjd_of_lem year mon mday pos small valid =
    let years = days_of_years_lem (year - 1) (omega arith) in
    let this : year_length year ≡ year * 36525 / 100 - (year - 1) * 36525 / 100 =
      ground (arith, is_leap_lem year pos small) in
    elim (Bool-cases (leb mon 1)) [
      | inl early ↦ rw (days_of_months_lem year mon valid, early) (ground (arith, years))
      | inr late ↦ rw (days_of_months_lem year mon valid, late) (ground (arith, years, this))
    ]

-- What a receiver reads in a clock-time group.
pub record Clock : Type 0 where
  pub group_type : ℕ
  pub mjd : ℕ
  pub hour : ℕ
  pub minute : ℕ
  pub west : ℕ
  pub half_hours : ℕ

abbrev pub read_clock : RdsGroup → Clock
read_clock g = record {
  group_type = g.b / 4;
  mjd = g.b % 4 * 32768 + g.c / 2;
  hour = g.c % 2 * 16 + g.d / 4096;
  minute = g.d / 64 % 64;
  west = g.d / 32 % 2;
  half_hours = g.d % 32;
}

low_table : all_below 32 (λ h. bit_and h 0xf == h % 16) ≡ true
unfolding all_below
low_table = refl

-- Block D from the hour, the minute, the sign and the offset.
clock_word :
    (sign : Bool) (hour min k : ℕ)
    → hour < 24
    → min < 60
    → k < 32
    → let word = bit_or (bit_and hour 0xf * 2 ^ 12) (min * 2 ^ 6) % 2 ^ 16 in
      bit_or (if sign then bit_or word (1 * 2 ^ 5) else word) k % 2 ^ 16
      ≡ hour % 16 * 4096 + min * 64 + (if sign then 32 else 0) + k
clock_word sign hour min k h m o =
    let low : bit_and hour 0xf ≡ hour % 16 =
      (==_iff _ _).0 (all_below_sound 32 hour _ low_table (omega arith)) in
    let word = bit_or (bit_and hour 0xf * 2 ^ 12) (min * 2 ^ 6) % 2 ^ 16 in
    let x = hour % 16 * 64 + min in
    let first : word ≡ x * 2 ^ 6 = omega (
      arith,
      low,
      bit_or_sum 12 (bit_and hour 0xf) (bit_and hour 0xf * 2 ^ 12) (min * 2 ^ 6) refl (omega arith),
    ) in
    ground (
      arith,
      first,
      bit_or_sum 6 x word 32 first (omega arith),
      bit_or_sum 5 (x * 2 + 1) (bit_or word (1 * 2 ^ 5)) k
          (omega (arith, first, bit_or_sum 6 x word 32 first (omega arith))) o,
      bit_or_sum 6 x word k first (omega arith),
    )

-- A receiver reads the date, the hour, the minute and the offset of the local time in half hours from
-- the group that `get_rdsp_ct_group` makes on an empty one. The date must have 17 bits (up to the
-- year 2217), and the offset 5.
pub get_rdsp_ct_group_lem :
    (utc : Tm) (pi : ℕ)
    → mjd_of utc.year utc.mon utc.mday < 131072
    → utc.hour < 24
    → utc.min < 60
    → utc.gmtoff < 57600
    → read_clock (get_rdsp_ct_group utc (blank pi)) ≡ record {
      group_type = 4096;
      mjd = mjd_of utc.year utc.mon utc.mday;
      hour = utc.hour;
      minute = utc.min;
      west = if utc.west && ltb 0 (utc.gmtoff / 1800) then 1 else 0;
      half_hours = utc.gmtoff / 1800;
    }
unfolding get_rdsp_ct_group
get_rdsp_ct_group_lem utc pi date hour minute offset = λ i. record {
  group_type = type_read i;
  mjd = date_read i;
  hour = hour_read i;
  minute = minute_read i;
  west = west_read i;
  half_hours = offset_read i;
}
  where
    n : ℕ
    n = mjd_of utc.year utc.mon utc.mday

    k : ℕ
    k = utc.gmtoff / 1800

    sign : Bool
    sign = utc.west && ltb 0 k

    g : RdsGroup
    g = get_rdsp_ct_group utc (blank pi)

    block_b : g.b ≡ 16384 + n / 32768
    block_b = omega (
      arith,
      zero-bit_or (bit_or (4 * 2 ^ 12) (n / 2 ^ 15)),
      bit_or_sum 14 1 (4 * 2 ^ 12) (n / 2 ^ 15),
    )

    block_c : g.c ≡ (n * 2 + utc.hour / 16) % 65536
    block_c = omega (arith, bit_or_sum 1 n (n * 2) (utc.hour / 2 ^ 4) (omega arith) (omega arith))

    block_d : g.d ≡ utc.hour % 16 * 4096 + utc.min * 64 + (if sign then 32 else 0) + k
    block_d = clock_word sign utc.hour utc.min k hour minute (omega arith)

    type_read : g.b / 4 ≡ 4096
    type_read = omega (arith, block_b)

    date_read : g.b % 4 * 32768 + g.c / 2 ≡ n
    date_read = omega (arith, block_b, block_c)

    hour_read : g.c % 2 * 16 + g.d / 4096 ≡ utc.hour
    hour_read = ground (arith, block_c, block_d)

    minute_read : g.d / 64 % 64 ≡ utc.min
    minute_read = ground (arith, block_d)

    west_read : g.d / 32 % 2 ≡ (if sign then 1 else 0)
    west_read = ground (arith, block_d)

    offset_read : g.d % 32 ≡ k
    offset_read = ground (arith, block_d)
