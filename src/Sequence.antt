-- ===== src/Sequence.antt =====
-- src/rds.c: which group is sent next, and what every group gets before it is sent.
pub mod Laws
pub mod Keeps
pub mod Cycle
pub mod ByProgress
pub mod Whole
use rds.Common.{ℕ, ◌+◌, ◌*◌, ◌%◌, ◌^◌, List, [], ◌∷◌, Bool, true, false, ◌==◌, if◌then◌else◌, ltb}
use rds.Common.{not, ◌&&◌, ◌||◌, none, some, get_or, bit_or, bit_xor}
use rds.Model.{RdsData, RdsState, RdsEon, RdsEncoder, RdsGroup, data_at, state_at, put_state}
use rds.Lua.{Lua, World, lua_call_tfunction, tick, minute_tick, pre_tx, lua_rds2_group}
use rds.Groups.{is_set, on_air, get_rds_ps_group, get_rds_fasttuning_group, get_rds_ecc_group}
use rds.Groups.{get_rds_slcdata_group}
use rds.Groups.Text.{get_rds_rt_group, get_rds_lps_group, get_rds_ptyn_group}
use rds.Groups.Eon.{get_rds_eon_group}
use rds.Groups.Custom.{type_bit, get_rds_custom_groups, get_rds_custom_groups2, get_rdsp_lua_group}
use rds.Groups.Clock.{Tm, get_rdsp_ct_group}

-- `for (i = 0; i < EONs; i++) if (eon[i].enabled) return 1;`
pub any_enabled : List RdsEon → Bool
any_enabled [] = false
any_enabled (e ∷ es) = if is_set e.enabled then true else any_enabled es

-- `check_rds_good_group`: is there something to send in a group of the kind `grp`? Kind 28 is
-- good even with no network enabled.
unfoldable pub check_rds_good_group : RdsData → ℕ → Bool
unfolding any_enabled
check_rds_good_group d grp =
    if grp == 2
    then is_set d.ecc || is_set d.slc_data
    else if grp == 4
    then is_set d.rt_enabled
    else if grp == 20
    then is_set d.ptyn_enabled
    else if grp == 28 && any_enabled d.eon
    then true
    else if grp == 30
    then is_set (get_or d.lps 0 0)
    else true

-- The case 2 of the switch: the group of the country code, or of the labelling code in turn.
unfoldable pub slow_labelling_group : RdsData → RdsState → RdsGroup → RdsState × RdsGroup
slow_labelling_group d s g =
    let (s', g') =
      if s.data_ecc == 0 && is_set d.slc_data
      then get_rds_slcdata_group d s g
      else get_rds_ecc_group d s g in
    (record s' { data_ecc = bit_xor s'.data_ecc 1 }, g')

-- What stays the same through a transmission: the signedness of `char`, the memory past the array
-- of networks, and the interpreter.
module _ (L : Lua) (signed : Bool) (stray : RdsEon) where
  -- An operation that calls no hook.
  abbrev quiet :
      (RdsData → RdsState → RdsGroup → RdsState × RdsGroup)
      → World L
      → RdsGroup
      → World L × RdsGroup
  quiet f w g = let (enc, g') = on_air f w.0 g in ((enc, w.1), g')

  -- A group that Lua makes, or else a PS group.
  unfoldable pub lua_or_ps_group : ℕ → World L → RdsGroup → World L × RdsGroup
  lua_or_ps_group grp w g =
      let (reply, w') = get_rdsp_lua_group L g grp w in
      elim reply [ none ↦ get_rds_ps_group L signed w' g | some g' ↦ (w', g') ]

  -- `get_rds_sequence_group`
  unfoldable pub get_rds_sequence_group : Bool → ℕ → World L → RdsGroup → World L × RdsGroup
  get_rds_sequence_group good grp w g =
      if not good
      then lua_or_ps_group grp w g
      else if grp == 0
      then get_rds_ps_group L signed w g
      else if grp == 2
      then quiet slow_labelling_group w g
      else if grp == 4
      then get_rds_rt_group L signed w g
      else if grp == 20
      then quiet (get_rds_ptyn_group signed) w g
      else if grp == 28
      then quiet (get_rds_eon_group stray signed) w g
      else if grp == 30
      then quiet (get_rds_lps_group signed) w g
      else if grp == 31
      then quiet get_rds_fasttuning_group w g
      else lua_or_ps_group grp w g

  -- The label `group_coded` on stream 0: programme fields, and what the other streams repeat.
  unfoldable pub finish_group : RdsEncoder → RdsGroup → RdsEncoder × RdsGroup
  finish_group enc g =
      let d = data_at enc enc.program in
      let s = state_at enc enc.program in
      let b = bit_or (bit_or g.b (d.tp * 2 ^ 10)) (d.pty * 2 ^ 5) in
      let c = if is_set g.is_type_b then d.pi else g.c in
      (
        put_state enc enc.program (record s {
          last_stream0_group = b ∷ c ∷ g.d ∷ [];
          last_stream0_group_type_b = g.is_type_b;
        }),
        record g { b = b; c = c },
      )

  -- The label `group_coded_rds2` on the other streams: only a group with block A zero is filled in.
  unfoldable pub finish_rds2_group : RdsEncoder → RdsGroup → RdsGroup
  finish_rds2_group enc g =
      let d = data_at enc enc.program in
      if g.a == 0
      then record g {
        c = if is_set g.is_type_b then d.pi else g.c;
        b = bit_or (bit_or g.b (d.tp * 2 ^ 10)) (d.pty * 2 ^ 5);
      }
      else g

  -- What a stream other than 0 sends: a buffered group, one of Lua, or the last group of stream 0.
  unfoldable pub rds2_group : ℕ → World L → RdsGroup → World L × RdsGroup
  rds2_group stream w g =
      let enc = w.0 in
      elim (get_rds_custom_groups2 (state_at enc enc.program)) [
        | some (s, g') ↦ ((put_state enc enc.program s, w.1), g')
        | none ↦
            let (reply, w') = lua_rds2_group L g stream w in
            let last = state_at w'.0 w'.0.program in
            elim reply [
              | some g' ↦ (w', if g'.a == 0 then record g' { is_type_b = type_bit g'.b } else g')
              | none ↦ (
                w',
                record g {
                  b = get_or last.last_stream0_group 0 0;
                  c = get_or last.last_stream0_group 1 0;
                  d = get_or last.last_stream0_group 2 0;
                  is_type_b = last.last_stream0_group_type_b;
                },
              )
            ]
      ]

  -- What stream 0 sends: a buffered group, or the next one of the sequence.
  unfoldable pub stream0_group : World L → RdsGroup → World L × RdsGroup
  stream0_group w g =
      let enc = w.0 in
      let d = data_at enc enc.program in
      let s = state_at enc enc.program in
      elim (get_rds_custom_groups d s) [
        | some (s', g') ↦ ((put_state enc enc.program s', w.1), g')
        | none ↦
            let index = if ltb d.grp_sqc_len s.grp_seq_idx then 0 else s.grp_seq_idx in
            let grp = get_or d.grp_sqc index 0 in
            let s' = record s { grp_seq_idx = (index + 1) % 2 ^ 8 } in
            get_rds_sequence_group (check_rds_good_group d grp) grp
              (put_state enc enc.program s', w.1) g
      ]

  -- The first part of `get_rds_group`: the clock hooks. The result tells whether a clock-time group
  -- is due.
  unfoldable pub clock_hooks : Tm → ℕ → World L → Bool × World L
  clock_hooks utc stream w =
      let s0 = state_at w.0 w.0.program in
      let w1 =
        if utc.sec == s0.last_second
        then w
        else lua_call_tfunction L tick
            (put_state w.0 w.0.program (record s0 { last_second = utc.sec % 2 ^ 6 }), w.1) in
      let s1 = state_at w1.0 w1.0.program in
      let w2 =
        lua_call_tfunction L minute_tick
          (put_state w1.0 w1.0.program (record s1 { last_minute = utc.min % 2 ^ 6 }), w1.1) in
      if not (utc.min == s1.last_minute) && stream == 0
      then (is_set (data_at w2.0 w2.0.program).ct, w2)
      else (false, w1)

  -- `get_rds_group`, at the time `utc`.
  unfoldable pub get_rds_group : Tm → ℕ → World L → World L × RdsGroup
  get_rds_group utc stream w =
      let blank : RdsGroup = record {
        a = (data_at w.0 w.0.program).pi;
        b = 0;
        c = 0;
        d = 0;
        is_type_b = 0;
      } in
      let (clock_due, w1) = clock_hooks utc stream w in
      let w2 = lua_call_tfunction L pre_tx w1 in
      let (w3, g3) = rds2_group stream w2 (record blank { a = 0 }) in
      let (w4, g4) = stream0_group w2 blank in
      let (enc5, g5) = finish_group w4.0 g4 in
      let (enc6, g6) = finish_group w1.0 (get_rdsp_ct_group utc blank) in
      if clock_due
      then ((enc6, w1.1), g6)
      else if stream == 0
      then ((enc5, w4.1), g5)
      else (w3, finish_rds2_group w3.0 g3)
