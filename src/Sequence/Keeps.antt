-- ===== src/Sequence/Keeps.antt =====
-- What every hook keeps of the encoder, and the progress of the transmission too, is kept by the
-- functions of src/rds.c that make and finish a group.
use rds.Common.{ℕ, ◌%◌, ◌^◌, Bool, ◌==◌, not, ◌&&◌, if◌then◌else◌, Bool-cases}
use rds.Common.{Option-cases, inl, inr}
use rds.Model.{RdsEon, RdsEncoder, RdsGroup, state_at, put_state}
use rds.Lua.{Lua, World, lua_call_tfunction, tick, minute_tick, lua_group}
use rds.Lua.Keeps.{HooksKeep, lua_call_tfunction-Keeps, lua_group-Keeps}
use rds.Groups.{on_air, get_rds_ps_group, get_rds_fasttuning_group}
use rds.Groups.Text.{get_rds_rt_group, get_rds_lps_group, get_rds_ptyn_group}
use rds.Groups.Eon.{get_rds_eon_group}
use rds.Groups.Custom.{get_rdsp_lua_group}
use rds.Groups.Clock.{Tm}
use package.rds.Sequence.{slow_labelling_group, lua_or_ps_group, get_rds_sequence_group}
use package.rds.Sequence.{finish_group, clock_hooks}
use rds.Common.{List}

-- A property that each generator keeps, and each of the writes around them. Those that call a hook keep
-- it together with the hook.
pub record GeneratorsKeep (L : Lua) (signed : Bool) (stray : RdsEon) (P : RdsEncoder → Type 0)
    : Type 0 where
  pub ps : (w : World L) (g : RdsGroup) → P w.0 → P (get_rds_ps_group L signed w g).0.0
  pub rt : (w : World L) (g : RdsGroup) → P w.0 → P (get_rds_rt_group L signed w g).0.0
  pub slow : (enc : RdsEncoder) (g : RdsGroup) → P enc → P (on_air slow_labelling_group enc g).0
  pub ptyn :
      (enc : RdsEncoder) (g : RdsGroup) → P enc → P (on_air (get_rds_ptyn_group signed) enc g).0
  pub eon :
      (enc : RdsEncoder) (g : RdsGroup)
      → P enc
      → P (on_air (get_rds_eon_group stray signed) enc g).0
  pub lps :
      (enc : RdsEncoder) (g : RdsGroup) → P enc → P (on_air (get_rds_lps_group signed) enc g).0
  pub fast : (enc : RdsEncoder) (g : RdsGroup) → P enc → P (on_air get_rds_fasttuning_group enc g).0
  pub finished :
      (enc : RdsEncoder) (words : List ℕ) (t : ℕ)
      → P enc
      → P (
          put_state enc enc.program (record (state_at enc enc.program) {
            last_stream0_group = words;
            last_stream0_group_type_b = t;
          }))
  pub second :
      (enc : RdsEncoder) (n : ℕ)
      → P enc
      → P (put_state enc enc.program (record (state_at enc enc.program) { last_second = n }))
  pub minute :
      (enc : RdsEncoder) (n : ℕ)
      → P enc
      → P (put_state enc enc.program (record (state_at enc enc.program) { last_minute = n }))

module _ (L : Lua) (signed : Bool) (stray : RdsEon) (P : RdsEncoder → Type 0) (h : HooksKeep L P)
    (k : GeneratorsKeep L signed stray P) where
  get_rdsp_lua_group-Keeps :
      (g : RdsGroup) (grp : ℕ) (w : World L) → P w.0 → P (get_rdsp_lua_group L g grp w).1.0
  unfolding get_rdsp_lua_group
  get_rdsp_lua_group-Keeps g grp w p =
      let q = lua_group-Keeps L P h grp g w p in
      elim (Option-cases (lua_group L grp g w).0) [
        | inl absent ↦ rw (get_rdsp_lua_group, absent) q
        | inr (g', made) ↦ rw (get_rdsp_lua_group, made) q
      ]

  lua_or_ps_group-Keeps :
      (grp : ℕ) (w : World L) (g : RdsGroup)
      → P w.0
      → P (lua_or_ps_group L signed stray grp w g).0.0
  unfolding lua_or_ps_group
  lua_or_ps_group-Keeps grp w g p =
      let (reply, w') = get_rdsp_lua_group L g grp w in
      let q : P w'.0 = get_rdsp_lua_group-Keeps g grp w p in
      elim (Option-cases reply) [
        | inl absent ↦ rw (lua_or_ps_group, absent) (k.ps w' g q)
        | inr (g', made) ↦ rw (lua_or_ps_group, made) q
      ]

  P-if : (c : Bool) (a b : World L × RdsGroup) → P a.0.0 → P b.0.0 → P (if c then a else b).0.0
  P-if c a b p q = elim (Bool-cases c) [ inl y ↦ rw y p | inr n ↦ rw n q ]

  pub get_rds_sequence_group-Keeps :
      (good : Bool) (grp : ℕ) (w : World L) (g : RdsGroup)
      → P w.0
      → P (get_rds_sequence_group L signed stray good grp w g).0.0
  unfolding get_rds_sequence_group
  get_rds_sequence_group-Keeps good grp w g p =
      let other = lua_or_ps_group-Keeps grp w g p in
      P-if (not good) _ _ other (
        P-if (grp == 0) _ _ (k.ps w g p) (
          P-if (grp == 2) _ _ (k.slow w.0 g p) (
            P-if (grp == 4) _ _ (k.rt w g p) (
              P-if (grp == 20) _ _ (k.ptyn w.0 g p) (
                P-if (grp == 28) _ _ (k.eon w.0 g p) (
                  P-if (grp == 30) _ _ (k.lps w.0 g p)
                    (P-if (grp == 31) _ _ (k.fast w.0 g p) other)))))))

  pub finish_group-Keeps :
      (enc : RdsEncoder) (g : RdsGroup) → P enc → P (finish_group L signed stray enc g).0
  unfolding finish_group
  finish_group-Keeps enc g p = k.finished enc _ _ p

  pub clock_hooks-Keeps :
      (utc : Tm) (stream : ℕ) (w : World L)
      → P w.0
      → P (clock_hooks L signed stray utc stream w).1.0
  unfolding clock_hooks
  clock_hooks-Keeps utc stream w p =
      let s0 = state_at w.0 w.0.program in
      let ticked =
        lua_call_tfunction-Keeps L P h tick
          (put_state w.0 w.0.program (record s0 { last_second = utc.sec % 2 ^ 6 }), w.1)
          (k.second w.0 _ p) in
      let w1 : World L =
        if utc.sec == s0.last_second
        then w
        else lua_call_tfunction L tick
            (put_state w.0 w.0.program (record s0 { last_second = utc.sec % 2 ^ 6 }), w.1) in
      let p1 : P w1.0 = elim (Bool-cases (utc.sec == s0.last_second)) [
        | inl same ↦ rw same p
        | inr new ↦ rw new ticked
      ] in
      let s1 = state_at w1.0 w1.0.program in
      let p2 =
        lua_call_tfunction-Keeps L P h minute_tick
          (put_state w1.0 w1.0.program (record s1 { last_minute = utc.min % 2 ^ 6 }), w1.1)
          (k.minute w1.0 _ p1) in
      elim (Bool-cases (not (utc.min == s1.last_minute) && stream == 0)) [
        | inl due ↦ rw due p2
        | inr other ↦ rw other p1
      ]
