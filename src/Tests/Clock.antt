-- ===== src/Tests/Clock.antt =====
-- The clock-time group on the first day of 2025.
use rds.Common.{◌+◌, ◌≡◌, refl, arith}
use rds.Groups.Clock.{mjd_of, get_rdsp_ct_group}
use rds.Groups.Clock.Laws.{days_of_years, read_clock, mjd_of_lem, get_rdsp_ct_group_lem}
use rds.Groups.Ps.{blank}
use package.rds.Tests.Sequence.{noon}

new_year : mjd_of 125 0 1 ≡ 60676
unfolding mjd_of
new_year = refl

mjd_of_lem_example : mjd_of 124 1 29 ≡ 15384 + days_of_years 123 + 31 + 29
mjd_of_lem_example = mjd_of_lem 124 1 29 (omega arith) (omega arith) (omega arith)

get_rdsp_ct_group_lem_example :
    read_clock (get_rdsp_ct_group noon (blank 0))
    ≡ record { group_type = 4096; mjd = 60676; hour = 12; minute = 30; west = 0; half_hours = 0 }
unfolding mjd_of
get_rdsp_ct_group_lem_example =
    get_rdsp_ct_group_lem noon 0 (omega arith) (omega arith) (omega arith) (omega arith)
