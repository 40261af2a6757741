-- ===== src/Groups/Clock.antt =====
-- `get_rdsp_ct_group` of src/rds_groups.c: the clock-time group, with the modified Julian date.
pub mod Laws
use rds.Common.{
  ℕ, ◌+◌, ◌-◌, ◌*◌, ◌/◌, ◌%◌, ◌^◌, Bool, leb, if◌then◌else◌, ltb, ◌&&◌, bit_or, bit_and,
}
use rds.Model.{RdsGroup}

-- What `gmtime` and `localtime` give: the fields of `struct tm`, and the offset of the local time
-- as a sign and a number of seconds.
pub record Tm : Type 0 where
  pub sec : ℕ
  pub min : ℕ
  pub hour : ℕ
  pub mday : ℕ
  pub mon : ℕ
  pub year : ℕ
  pub west : Bool
  pub gmtoff : ℕ

-- The modified Julian date. The products by 365.25 and 30.6001 are taken in decimals: 365.25 is
-- exact in `float`, and 30.6001 is off by less than 0.000001, which moves no product by the
-- factors 3 to 14 past a whole number. `year - l` is not negative from 1901 on.
unfoldable pub mjd_of : ℕ → ℕ → ℕ → ℕ
mjd_of year mon mday =
    let l = if leb mon 1 then 1 else 0 in
    14956 + mday + (year - l) * 36525 / 100 + (mon + (1 + 1) + l * 12) * 306001 / 10000

-- `offset = tm_gmtoff / (30 * 60)` is cut towards zero, so it is negative only from half an hour
-- west on.
unfoldable pub get_rdsp_ct_group : Tm → RdsGroup → RdsGroup
unfolding mjd_of
get_rdsp_ct_group utc g =
    let mjd = mjd_of utc.year utc.mon utc.mday in
    let offset = utc.gmtoff / (30 * 60) in
    let d1 = bit_or (bit_and utc.hour 0xf * 2 ^ 12) (utc.min * 2 ^ 6) % 2 ^ 16 in
    let d2 = if utc.west && ltb 0 offset then bit_or d1 (1 * 2 ^ 5) else d1 in
    record g {
      b = bit_or g.b (bit_or (4 * 2 ^ 12) (mjd / 2 ^ 15)) % 2 ^ 16;
      c = bit_or (mjd * 2) (utc.hour / 2 ^ 4) % 2 ^ 16;
      d = bit_or d2 offset % 2 ^ 16;
    }
