-- ===== src/Rds95/Deadline.antt =====
-- `sleep_until_next_group`: when the next group is due.
use rds.Common.{
  ℕ, zero, suc, ◌+◌, ◌-◌, ◌*◌, ◌%◌, ◌/◌, List, [], ◌∷◌, Option, none, some, if◌then◌else◌, leb,
}

-- `struct timespec`
pub record Timespec : Type 0 where
  pub tv_sec : ℕ
  pub tv_nsec : ℕ

abbrev pub second : ℕ
second = 1000000000

-- `1e9 * bits_per_group / bit_rate` for 104 bits at 1187.5 bits a second, cut to a whole number.
abbrev pub group_interval : ℕ
group_interval = 87578947

-- `while (tv_nsec >= 1000000000L)`, with fuel for its rounds.
unfoldable pub carry : ℕ → Timespec → Timespec
carry zero t = t
carry (suc fuel) t =
    let rest = carry fuel (record { tv_sec = t.tv_sec + 1; tv_nsec = t.tv_nsec - second }) in
    if leb second t.tv_nsec then rest else t

-- The deadline of a call; `none` is one that is not initialised, and `now` what the clock says.
unfoldable pub next_deadline : ℕ → Timespec → Option Timespec → Timespec
unfolding carry
next_deadline interval now deadline =
    let last : Timespec = elim deadline [ none ↦ now | some t ↦ t ] in
    let due = last.tv_nsec + interval in
    carry (due / second + 1) (record { tv_sec = last.tv_sec; tv_nsec = due })

-- One call after the other, with what the clock says at each.
unfoldable pub deadlines : ℕ → List Timespec → Option Timespec → Option Timespec
unfolding next_deadline
deadlines interval [] deadline = deadline
deadlines interval (now ∷ clock) deadline =
    deadlines interval clock (some (next_deadline interval now deadline))

-- `msleep` of src/lib.c: the time that `nanosleep` is given for a number of milliseconds.
unfoldable pub msleep : ℕ → Timespec
msleep ms = record { tv_sec = ms / 1000; tv_nsec = ms % 1000 * 1000 }
