-- ===== src/System/Bounds.antt =====
-- The functions of src/rds.c and src/rds_groups.c keep the programme on the air inside its texts.
use rds.Common.{ℕ, ◌≡◌, sym, refl, arith, Bool, false, ◌==◌}
use rds.Common.{Bool-cases, inl, inr, get_or-set_self}
use mathlib.Core.Path.{subst}
use rds.Model.{
  RdsData, RdsState, RdsEon, RdsEncoder, RdsGroup, data_at, state_at, put_state, zero_state,
}
use rds.Lua.{Lua, World, ps_transmission, rt_transmission}
use rds.Lua.Keeps.{HooksKeep, lua_call_tfunction-Keeps}
use rds.Groups.{on_air, ps_group, get_rds_ps_group, get_rds_fasttuning_group}
use rds.Groups.Text.{rt_group, rt_done, get_rds_rt_group, get_rds_lps_group, get_rds_ptyn_group}
use rds.Groups.Eon.{get_rds_eon_group}
use rds.Groups.Progress.{Progress, Progress-same, ps_group-Progress, rt_group-Progress}
use rds.Groups.Progress.{get_rds_lps_group-Progress, get_rds_ptyn_group-Progress}
use rds.Groups.Progress.{get_rds_fasttuning_group-Progress, get_rds_eon_group-Progress}
use rds.Sequence.{slow_labelling_group}
use rds.Sequence.Keeps.{GeneratorsKeep}
use rds.Sequence.ByProgress.{slow_labelling_group-Progress}
use rds.Api.Valid.{IsEncoder, IsState, IsSettings, All-set, data_at-IsSettings, state_at-IsState}
use rds.Api.Valid.{put_state-IsEncoder}
use package.rds.System.Groups.{Progress-IsState, IsEncoder-ChoicesKeep}
use rds.Sequence.{get_rds_group}
use rds.Sequence.Whole.{ChoicesKeep, get_rds_group-Keeps}
use rds.Groups.Clock.{Tm}
use package.rds.System.InText.{AtMost, counters, InText, ps_group-InText, rt_group-InText}
use package.rds.System.InText.{get_rds_lps_group-InText, get_rds_ptyn_group-InText}
use package.rds.System.InText.{get_rds_fasttuning_group-InText, get_rds_eon_group-InText}
use package.rds.System.InText.{slow_labelling_group-InText}

-- The encoder is within its arrays and fields, and the programme on the air inside its texts.
pub record OnText (a b : ℕ) (enc : RdsEncoder) : Type 0 where
  pub encoder : IsEncoder enc
  pub on_air : InText a b (state_at enc enc.program)

-- A new state of the programme on the air.
pub put-OnText :
    (a b : ℕ) (enc : RdsEncoder) (s : RdsState)
    → IsEncoder enc
    → IsState s
    → InText a b s
    → OnText a b (put_state enc enc.program s)
put-OnText a b enc s v t h = record {
  encoder = put_state-IsEncoder enc enc.program s v t;
  on_air =
      subst (InText a b)
        (sym
          (get_or-set_self enc.state enc.program s zero_state (omega (arith, v.states, v.program))))
        h;
}

-- The counter behind its text is taken back, or is not there yet.
ps_reset : (s : RdsState) → InText 4 15 s → InText 3 15 (record s { ps_csegment = 0 })
ps_reset s h = record {
  counters = All-set AtMost (counters 4 15 s) 0 (0, 3) h.counters (omega arith);
  texts = h.texts;
}

rt_reset : (s : RdsState) → InText 3 16 s → InText 3 15 (record s { rt_state = 0 })
rt_reset s h = record {
  counters = All-set AtMost (counters 3 16 s) 1 (0, 15) h.counters (omega arith);
  texts = h.texts;
}

ps_before : (s : RdsState) → InText 4 15 s → (s.ps_csegment == 4) ≡ false → InText 3 15 s
ps_before s h ne =
    let (at, _) = h.counters in
    record {
      counters =
          All-set AtMost (counters 4 15 s) 0 (s.ps_csegment, 3) h.counters (ground (arith, at));
      texts = h.texts;
    }

rt_before : (s : RdsState) → InText 3 16 s → rt_done s ≡ false → InText 3 15 s
unfolding rt_done
rt_before s h ne =
    let (_, (at, _)) = h.counters in
    record {
      counters =
          All-set AtMost (counters 3 16 s) 1 (s.rt_state, 15) h.counters (ground (arith, at));
      texts = h.texts;
    }

module _ (L : Lua) (signed : Bool) (stray : RdsEon) (h : (a b : ℕ) → HooksKeep L (OnText a b)) where
  on_air-OnText :
      (a b : ℕ) (f : RdsData → RdsState → RdsGroup → RdsState × RdsGroup) (enc : RdsEncoder)
      (g : RdsGroup)
      → ((d : RdsData) (s : RdsState) → Progress s (f d s g).0)
      → ((d : RdsData) (s : RdsState) → IsSettings d → InText 3 15 s → InText a b (f d s g).0)
      → OnText 3 15 enc
      → OnText a b (on_air f enc g).0
  on_air-OnText a b f enc g moves stays v =
      let d = data_at enc enc.program in
      let s = state_at enc enc.program in
      put-OnText a b enc (f d s g).0 v.encoder
        (Progress-IsState s _ (moves d s) (state_at-IsState enc enc.program v.encoder))
        (stays d s (data_at-IsSettings enc enc.program v.encoder) v.on_air)

  -- What is written elsewhere in the state of the programme on the air.
  written :
      (a b : ℕ) (enc : RdsEncoder) (s : RdsState)
      → Progress (state_at enc enc.program) s
      → OnText 3 15 enc
      → InText a b s
      → OnText a b (put_state enc enc.program s)
  written a b enc s moves v t =
      put-OnText a b enc s v.encoder
        (Progress-IsState _ s moves (state_at-IsState enc enc.program v.encoder)) t

  get_rds_ps_group-OnText :
      (w : World L) (g : RdsGroup)
      → OnText 3 15 w.0
      → OnText 3 15 (get_rds_ps_group L signed w g).0.0
  unfolding get_rds_ps_group
  get_rds_ps_group-OnText w g v =
      let enc = (on_air (ps_group signed) w.0 g).0 in
      let sent : OnText 4 15 enc =
        on_air-OnText 4 15 (ps_group signed) w.0 g (λ d s. ps_group-Progress signed d s g)
          (λ d s p q. ps_group-InText signed d p s g q) v in
      let hooked =
        lua_call_tfunction-Keeps L (OnText 4 15) (h 4 15) ps_transmission (enc, w.1) sent in
      elim (Bool-cases ((state_at enc enc.program).ps_csegment == 4)) [
        | inl last ↦ rw last (
            put-OnText 3 15 _ _ hooked.encoder
              (Progress-IsState _ _ (Progress-same _ _ (refl, refl))
                (state_at-IsState _ _ hooked.encoder))
              (ps_reset _ hooked.on_air))
        | inr before ↦
            rw before (record { encoder = sent.encoder; on_air = ps_before _ sent.on_air before })
      ]

  get_rds_rt_group-OnText :
      (w : World L) (g : RdsGroup)
      → OnText 3 15 w.0
      → OnText 3 15 (get_rds_rt_group L signed w g).0.0
  unfolding get_rds_rt_group
  get_rds_rt_group-OnText w g v =
      let enc = (on_air (rt_group signed) w.0 g).0 in
      let sent : OnText 3 16 enc =
        on_air-OnText 3 16 (rt_group signed) w.0 g (λ d s. rt_group-Progress signed d s g)
          (λ d s p q. rt_group-InText signed d p s g q) v in
      let hooked =
        lua_call_tfunction-Keeps L (OnText 3 16) (h 3 16) rt_transmission (enc, w.1) sent in
      elim (Bool-cases (rt_done (state_at enc enc.program))) [
        | inl last ↦ rw last (
            put-OnText 3 15 _ _ hooked.encoder
              (Progress-IsState _ _ (Progress-same _ _ (refl, refl))
                (state_at-IsState _ _ hooked.encoder))
              (rt_reset _ hooked.on_air))
        | inr before ↦
            rw before (record { encoder = sent.encoder; on_air = rt_before _ sent.on_air before })
      ]

  OnText-GeneratorsKeep : GeneratorsKeep L signed stray (OnText 3 15)
  OnText-GeneratorsKeep = record {
    ps = get_rds_ps_group-OnText;
    rt = get_rds_rt_group-OnText;
    slow = λ enc g.
        on_air-OnText 3 15 slow_labelling_group enc g (λ d s. slow_labelling_group-Progress d s g)
          (λ d s p q. slow_labelling_group-InText signed d s g q);
    ptyn = λ enc g.
        on_air-OnText 3 15 (get_rds_ptyn_group signed) enc g
          (λ d s. get_rds_ptyn_group-Progress signed d s g)
          (λ d s p q. get_rds_ptyn_group-InText signed d p s g q);
    eon = λ enc g.
        on_air-OnText 3 15 (get_rds_eon_group stray signed) enc g
          (λ d s. get_rds_eon_group-Progress stray signed d s g)
          (λ d s p q. get_rds_eon_group-InText stray signed d s g q);
    lps = λ enc g.
        on_air-OnText 3 15 (get_rds_lps_group signed) enc g
          (λ d s. get_rds_lps_group-Progress signed d s g)
          (λ d s p q. get_rds_lps_group-InText signed d p s g q);
    fast = λ enc g.
        on_air-OnText 3 15 get_rds_fasttuning_group enc g
          (λ d s. get_rds_fasttuning_group-Progress signed d s g)
          (λ d s p q. get_rds_fasttuning_group-InText signed d s g q);
    finished = λ enc words t v.
        written 3 15 enc _ (Progress-same _ _ (refl, refl)) v
          (record { counters = v.on_air.counters; texts = v.on_air.texts });
    second = λ enc n v.
        written 3 15 enc _ (Progress-same _ _ (refl, refl)) v
          (record { counters = v.on_air.counters; texts = v.on_air.texts });
    minute = λ enc n v.
        written 3 15 enc _ (Progress-same _ _ (refl, refl)) v
          (record { counters = v.on_air.counters; texts = v.on_air.texts });
  }

-- The state that another write leaves, with the same place in the texts.
rewritten :
    (enc : RdsEncoder) (s : RdsState)
    → OnText 3 15 enc
    → IsEncoder (put_state enc enc.program s)
    → InText 3 15 s
    → OnText 3 15 (put_state enc enc.program s)
rewritten enc s v e t = record {
  encoder = e;
  on_air =
      subst (InText 3 15)
        (sym (
          get_or-set_self enc.state enc.program s zero_state
            (omega (arith, v.encoder.states, v.encoder.program))))
        t;
}

OnText-ChoicesKeep : ChoicesKeep (OnText 3 15)
OnText-ChoicesKeep = record {
  index = λ enc n v.
      rewritten enc _ v (IsEncoder-ChoicesKeep.index enc n v.encoder)
        (record { counters = v.on_air.counters; texts = v.on_air.texts });
  taken = λ enc v.
      rewritten enc _ v (IsEncoder-ChoicesKeep.taken enc v.encoder)
        (record { counters = v.on_air.counters; texts = v.on_air.texts });
  taken2 = λ enc v.
      rewritten enc _ v (IsEncoder-ChoicesKeep.taken2 enc v.encoder)
        (record { counters = v.on_air.counters; texts = v.on_air.texts });
}

-- Every group that `get_rds_group` makes leaves the programme on the air inside its texts: the next PS
-- group reads one of the four segments of a name of eight characters, the next radiotext group one of
-- sixteen in 64 characters, the next group of the long name one of eight in 32, and that of the
-- programme type name one of two in eight. The hooks keep it so for the programme that they leave on
-- the air, also where they find a counter behind its last segment.
pub get_rds_group-OnText :
    (L : Lua) (signed : Bool) (stray : RdsEon) (utc : Tm) (stream : ℕ) (w : World L)
    → ((a b : ℕ) → HooksKeep L (OnText a b))
    → OnText 3 15 w.0
    → OnText 3 15 (get_rds_group L signed stray utc stream w).0.0
get_rds_group-OnText L signed stray utc stream w h v =
    get_rds_group-Keeps L signed stray (OnText 3 15) (h 3 15)
      (OnText-GeneratorsKeep L signed stray h) OnText-ChoicesKeep utc stream w v
