-- ===== src/Reset.antt =====
-- src/rds.c: the state and the settings that a programme starts with.
use rds.Common.{ℕ, ◌%◌, ◌^◌, List, [], ◌∷◌, map, replicate}
use rds.Model.{RdsData, RdsState, RdsEon, RdsEncoder, zero_data, zero_state, data_at, put, put_data}
use rds.Setters.{rt_setter, ps_setter, tps_setter, lps_setter, ptyn_setter}
use rds.Groups.Clock.{Tm}

-- The state that `reset_rds_state` builds in `tempCoder`, whose settings are dropped.
unfoldable pub fresh_state : Tm → RdsData → RdsState
fresh_state utc d =
    let (d1, s1) = rt_setter zero_data (record zero_state { ptyn_ab = 1 }) d.rt in
    let (d2, s2) = ps_setter d1 s1 d.ps in
    let (d3, s3) = tps_setter d2 s2 d.tps in
    let (d4, s4) = lps_setter d3 s3 d.lps in
    let (d5, s5) = ptyn_setter d4 s4 d.ptyn in
    record s5 { last_minute = utc.min % 2 ^ 6; last_second = utc.sec % 2 ^ 6 }

-- The traffic announcements of the programme and of its other networks end.
unfoldable pub clear_ta : RdsData → RdsData
clear_ta d = record d { ta = 0; eon = map (λ (e : RdsEon). record e { ta = 0 }) d.eon }

unfoldable pub reset_rds_state : Tm → RdsEncoder → ℕ → RdsEncoder
unfolding fresh_state clear_ta
reset_rds_state utc enc program =
    let d = data_at enc program in put enc program (clear_ta d, fresh_state utc d)

-- "* RDS * "
abbrev pub default_ps : List ℕ
default_ps = 0x2a ∷ 0x20 ∷ 0x52 ∷ 0x44 ∷ 0x53 ∷ 0x20 ∷ 0x2a ∷ 0x20 ∷ []

-- The group sequence is the character "0", which is the group kind 48.
unfoldable pub default_data : RdsData
default_data = record zero_data {
  ct = 1;
  grp_sqc = 0x30 ∷ replicate 31 0;
  tp = 1;
  pi = 0xffff;
  ps = default_ps;
  rt_enabled = 1;
  rt = replicate 64 0x20;
}

unfoldable pub set_rds_defaults : Tm → RdsEncoder → ℕ → RdsEncoder
unfolding default_data reset_rds_state
set_rds_defaults utc enc program =
    reset_rds_state utc (record (put_data enc program default_data) { streams = 1 }) program
