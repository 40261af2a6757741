-- ===== src/Tests/Rds95.antt =====
-- Two deadlines, a group in print, and a line of the configuration.
use rds.Common.{◌≡◌, ◌<◌, refl, [], ◌∷◌, true, false, none, some, arith}
use rds.Model.{RdsGroup}
use rds.Rds95.{Rds95Config, config_handler, ascii_group}
use rds.Rds95.Deadline.{Timespec, msleep, group_interval, deadlines}
use rds.Rds95.Laws.{nanoseconds, deadlines_lem, IsText, ascii_group-IsText}

abbrev noon : Timespec
noon = record { tv_sec = 43200; tv_nsec = 999999999 }

deadlines_lem_example :
    (u : Timespec) × (deadlines group_interval (noon ∷ noon ∷ []) none ≡ some u)
    × (nanoseconds u ≡ 43201175157893)
    × (u.tv_nsec < 1000000000)
deadlines_lem_example = deadlines_lem group_interval noon (noon ∷ [])

abbrev group : RdsGroup
group = record { a = 0x1abc; b = 0x0408; c = 0xe0cd; d = 0x4869; is_type_b = 0 }

ascii_group-IsText_example : IsText 1 group (ascii_group 1 group)
ascii_group-IsText_example =
    ascii_group-IsText 1 group (omega arith)
      (record { a = omega arith; b = omega arith; c = omega arith; d = omega arith })

abbrev config : Rds95Config
config = record { udp_port = 0; tcp_port = 0; asciig = 0 }

-- "2" is refused, and "1" is not.
config_is :
    (config_handler (λ _. 2) "rds95" "asciig" "2" config ≡ (false, config))
    × (config_handler (λ _. 1) "rds95" "asciig" "1" config ≡ (true, record config { asciig = 1 }))
unfolding config_handler
config_is = (refl, refl)

-- Ten milliseconds are ten microseconds.
slept_is : msleep 10 ≡ record { tv_sec = 0; tv_nsec = 10000 }
unfolding msleep
slept_is = refl
