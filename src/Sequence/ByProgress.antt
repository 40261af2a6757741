-- ===== src/Sequence/ByProgress.antt =====
-- A property that does not depend on where the transmission stands is kept by every generator.
use rds.Common.{Bool, true, ◌==◌, ◌&&◌, refl, Bool-cases}
use rds.Common.{inl, inr}
use rds.Model.{RdsData, RdsState, RdsEon, RdsEncoder, RdsGroup, data_at, state_at, put_state}
use rds.Lua.{Lua, World, ps_transmission, rt_transmission}
use rds.Lua.Keeps.{HooksKeep, lua_call_tfunction-Keeps}
use rds.Groups.{is_set, on_air, ps_group, get_rds_ps_group, get_rds_fasttuning_group}
use rds.Groups.Text.{rt_group, get_rds_rt_group, rt_done, get_rds_lps_group, get_rds_ptyn_group}
use rds.Groups.Eon.{get_rds_eon_group}
use rds.Groups.Progress.{Progress, Progress-same, Progress-trans, ps_group-Progress}
use rds.Groups.Progress.{rt_group-Progress, get_rds_lps_group-Progress, get_rds_ptyn_group-Progress}
use rds.Groups.Progress.{get_rds_fasttuning_group-Progress, get_rds_ecc_group-Progress}
use rds.Groups.Progress.{get_rds_slcdata_group-Progress, get_rds_eon_group-Progress}
use package.rds.Sequence.{slow_labelling_group}
use package.rds.Sequence.Keeps.{GeneratorsKeep}

-- A property that the progress of the programme on the air keeps.
pub record ProgressKeeps (P : RdsEncoder → Type 0) : Type 0 where
  pub put :
      (enc : RdsEncoder) (s : RdsState)
      → P enc
      → Progress (state_at enc enc.program) s
      → P (put_state enc enc.program s)

pub slow_labelling_group-Progress :
    (d : RdsData) (s : RdsState) (g : RdsGroup) → Progress s (slow_labelling_group d s g).0
unfolding slow_labelling_group
slow_labelling_group-Progress d s g = elim (Bool-cases (s.data_ecc == 0 && is_set d.slc_data)) [
  | inl labelled ↦ rw labelled (
      Progress-trans s _ _ (get_rds_slcdata_group-Progress true d s g)
        (Progress-same _ _ (refl, refl)))
  | inr code ↦ rw code (
      Progress-trans s _ _ (get_rds_ecc_group-Progress true d s g) (Progress-same _ _ (refl, refl)))
]

module _ (L : Lua) (signed : Bool) (stray : RdsEon) (P : RdsEncoder → Type 0) (h : HooksKeep L P)
    (k : ProgressKeeps P) where
  -- A generator that calls no hook.
  on_air-Keeps :
      (f : RdsData → RdsState → RdsGroup → RdsState × RdsGroup) (enc : RdsEncoder) (g : RdsGroup)
      → ((d : RdsData) (s : RdsState) → Progress s (f d s g).0)
      → P enc
      → P (on_air f enc g).0
  on_air-Keeps f enc g made p =
      k.put enc _ p (made (data_at enc enc.program) (state_at enc enc.program))

  get_rds_ps_group-Keeps :
      (w : World L) (g : RdsGroup) → P w.0 → P (get_rds_ps_group L signed w g).0.0
  unfolding get_rds_ps_group
  get_rds_ps_group-Keeps w g p =
      let enc = (on_air (ps_group signed) w.0 g).0 in
      let q = on_air-Keeps (ps_group signed) w.0 g (λ d s. ps_group-Progress signed d s g) p in
      let hooked = lua_call_tfunction-Keeps L P h ps_transmission (enc, w.1) q in
      elim (Bool-cases ((state_at enc enc.program).ps_csegment == 4)) [
        | inl last ↦ rw last (k.put _ _ hooked (Progress-same _ _ (refl, refl)))
        | inr before ↦ rw before q
      ]

  get_rds_rt_group-Keeps :
      (w : World L) (g : RdsGroup) → P w.0 → P (get_rds_rt_group L signed w g).0.0
  unfolding get_rds_rt_group
  get_rds_rt_group-Keeps w g p =
      let enc = (on_air (rt_group signed) w.0 g).0 in
      let q = on_air-Keeps (rt_group signed) w.0 g (λ d s. rt_group-Progress signed d s g) p in
      let hooked = lua_call_tfunction-Keeps L P h rt_transmission (enc, w.1) q in
      elim (Bool-cases (rt_done (state_at enc enc.program))) [
        | inl last ↦ rw last (k.put _ _ hooked (Progress-same _ _ (refl, refl)))
        | inr before ↦ rw before q
      ]

  -- Every generator keeps what its progress keeps.
  pub progress-GeneratorsKeep : GeneratorsKeep L signed stray P
  progress-GeneratorsKeep = record {
    ps = get_rds_ps_group-Keeps;
    rt = get_rds_rt_group-Keeps;
    slow =
        λ enc g. on_air-Keeps slow_labelling_group enc g λ d s. slow_labelling_group-Progress d s g;
    ptyn = λ enc g.
        on_air-Keeps (get_rds_ptyn_group signed) enc g
          λ d s. get_rds_ptyn_group-Progress signed d s g;
    eon = λ enc g.
        on_air-Keeps (get_rds_eon_group stray signed) enc g
          λ d s. get_rds_eon_group-Progress stray signed d s g;
    lps = λ enc g.
        on_air-Keeps (get_rds_lps_group signed) enc g
          λ d s. get_rds_lps_group-Progress signed d s g;
    fast = λ enc g.
        on_air-Keeps get_rds_fasttuning_group enc g
          λ d s. get_rds_fasttuning_group-Progress signed d s g;
    finished = λ enc words t p. k.put enc _ p (Progress-same _ _ (refl, refl));
    second = λ enc n p. k.put enc _ p (Progress-same _ _ (refl, refl));
    minute = λ enc n p. k.put enc _ p (Progress-same _ _ (refl, refl));
  }
