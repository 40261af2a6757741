-- ===== src/Sequence/Whole.antt =====
-- What hooks and generators keep of the encoder is kept by `get_rds_group` as a whole.
use rds.Common.{ℕ, ◌%◌, ◌^◌, ◌==◌, Option-cases, Bool-cases, inl, inr, get_or, set, Bool}
use rds.Model.{RdsEon, RdsEncoder, RdsGroup, state_at, put_state}
use rds.Lua.{Lua, World, pre_tx, lua_rds2_group}
use rds.Lua.Keeps.{HooksKeep, lua_call_tfunction-Keeps, lua_rds2_group-Keeps}
use rds.Groups.Clock.{Tm}
use rds.Groups.Custom.{get_rds_custom_groups, get_rds_custom_groups2}
use package.rds.Sequence.{get_rds_group, stream0_group, rds2_group, clock_hooks}
use package.rds.Sequence.Keeps.{
  GeneratorsKeep, get_rds_sequence_group-Keeps, finish_group-Keeps, clock_hooks-Keeps,
}

-- What choosing a group writes: the place in the sequence, and the marks of the buffers.
pub record ChoicesKeep (P : RdsEncoder → Type 0) : Type 0 where
  pub index :
      (enc : RdsEncoder) (n : ℕ)
      → P enc
      → P (
          put_state enc enc.program (record (state_at enc enc.program) { grp_seq_idx = n % 2 ^ 8 }))
  pub taken :
      (enc : RdsEncoder)
      → P enc
      → let s = state_at enc enc.program in
        P (put_state enc enc.program (record s { custom_group = set s.custom_group 0 0 }))
  pub taken2 :
      (enc : RdsEncoder)
      → P enc
      → let s = state_at enc enc.program in
        P (put_state enc enc.program (record s { custom_group2 = set s.custom_group2 0 0 }))

module _ (L : Lua) (signed : Bool) (stray : RdsEon) (P : RdsEncoder → Type 0) (h : HooksKeep L P)
    (k : GeneratorsKeep L signed stray P) (c : ChoicesKeep P) where
  stream0_group-Keeps :
      (w : World L) (g : RdsGroup) → P w.0 → P (stream0_group L signed stray w g).0.0
  unfolding stream0_group get_rds_custom_groups
  stream0_group-Keeps w g p =
      elim (Bool-cases (get_or (state_at w.0 w.0.program).custom_group 0 0 == 1)) [
        | inl full ↦ rw (stream0_group, get_rds_custom_groups, full) (c.taken w.0 p)
        | inr empty ↦
            rw (stream0_group, get_rds_custom_groups, empty)
              (get_rds_sequence_group-Keeps L signed stray P h k _ _ _ g (c.index w.0 _ p))
      ]

  rds2_group-Keeps :
      (stream : ℕ) (w : World L) (g : RdsGroup)
      → P w.0
      → P (rds2_group L signed stray stream w g).0.0
  unfolding rds2_group get_rds_custom_groups2
  rds2_group-Keeps stream w g p =
      let hooked = lua_rds2_group-Keeps L P h g stream w p in
      elim (Bool-cases (get_or (state_at w.0 w.0.program).custom_group2 0 0 == 1)) [
        | inl full ↦ rw (rds2_group, get_rds_custom_groups2, full) (c.taken2 w.0 p)
        | inr empty ↦ elim (Option-cases (lua_rds2_group L g stream w).0) [
          | inl absent ↦ rw (rds2_group, get_rds_custom_groups2, empty, absent) hooked
          | inr (g', made) ↦ rw (rds2_group, get_rds_custom_groups2, empty, made) hooked
        ]
      ]

  pub get_rds_group-Keeps :
      (utc : Tm) (stream : ℕ) (w : World L)
      → P w.0
      → P (get_rds_group L signed stray utc stream w).0.0
  unfolding get_rds_group
  get_rds_group-Keeps utc stream w p =
      let w1 = (clock_hooks L signed stray utc stream w).1 in
      let p1 = clock_hooks-Keeps L signed stray P h k utc stream w p in
      let p2 = lua_call_tfunction-Keeps L P h pre_tx w1 p1 in
      let finished = finish_group-Keeps L signed stray P h k in
      elim (Bool-cases (clock_hooks L signed stray utc stream w).0) [
        | inl due ↦ rw due (finished w1.0 _ p1)
        | inr other ↦ elim (Bool-cases (stream == 0)) [
          | inl first ↦ rw (other, first) (finished _ _ (stream0_group-Keeps _ _ p2))
          | inr later ↦ rw (other, later) (rds2_group-Keeps stream _ _ p2)
        ]
      ]
