-- ===== src/Delivery.antt =====
-- From a setter to the air: src/rds_setters.c and src/rds_groups.c together.
use rds.Common.{ℕ, ◌≤◌, ◌<◌, List, [], ◌∷◌, map, Bool, true, false}
use rds.Common.{◌≡◌, ◌≢◌, refl, sym, ap, ap₂, ◌∙◌, arith, ◌==◌, length, get_or}
use rds.Common.{Bool-cases, inl, inr, get_or-set_self, length-set}
use rds.Model.{RdsData, RdsState, RdsEncoder, data_at, state_at, put, zero_data, zero_state}
use rds.Lua.{Lua, World}
use rds.Setters.{
  is_nul, is_line_end, set_rds_rt, set_rds_ps, rt_setter, ps_setter, tps_setter, lps_setter,
  ptyn_setter,
}
use rds.Setters.Copy.{text_prefix, trim_cons, trim_end, padded}
use rds.Setters.Laws.{terminated, segments_of, rt_setter_lem, ps_setter_lem}
use rds.Reset.{fresh_state, clear_ta, reset_rds_state}
use rds.Groups.Clock.{Tm}
use rds.Groups.{is_set}
use rds.Groups.Ps.{IsByte, aired}
use rds.Groups.PsCycle.{text_to_send, segments_sent, ps_groups, ps_cycle}
use rds.Common.{All, ◌++◌, zero, suc, ltb, replicate}
use mathlib.Core.Path.{subst}
use rds.Groups.RtCycle.{rt_segment, rt_segments_from, rt_groups, rt_cycle}

-- The programme on the air is one of the encoder's.
pub record OnAir (enc : RdsEncoder) : Type 0 where
  pub has_settings : enc.program < length enc.settings
  pub has_state : enc.program < length enc.state

-- The addresses and blocks D that carry a name.
abbrev pub name_groups : Bool → List ℕ → List (ℕ × ℕ)
name_groups signed name =
    (0, aired signed name 0)
    ∷ (1, aired signed name 2)
    ∷ (2, aired signed name 4)
    ∷ (3, aired signed name 6)
    ∷ []

data_at-put :
    (enc : RdsEncoder) (r : RdsData × RdsState)
    → OnAir enc
    → data_at (put enc enc.program r) enc.program ≡ r.0
data_at-put enc r on = get_or-set_self enc.settings enc.program r.0 zero_data on.has_settings

state_at-put :
    (enc : RdsEncoder) (r : RdsData × RdsState)
    → OnAir enc
    → state_at (put enc enc.program r) enc.program ≡ r.1
state_at-put enc r on = get_or-set_self enc.state enc.program r.1 zero_state on.has_state

put_range :
    (enc : RdsEncoder) (r : RdsData × RdsState)
    → OnAir enc
    → (put enc enc.program r).program < length (put enc enc.program r).state
put_range enc r on = omega (arith, on.has_state, length-set enc.state enc.program r.1)

set_rds_ps_lem :
    (enc : RdsEncoder) (src : List ℕ) (p : ℕ)
    → set_rds_ps enc src p
      ≡ put enc p (
        record (data_at enc p) { ps = padded 8 (text_prefix is_nul 8 src) },
        record (state_at enc p) { ps_update = 1 },
      )
unfolding set_rds_ps
set_rds_ps_lem enc src p = ap (put enc p) (ps_setter_lem (data_at enc p) (state_at enc p) src)

set_rds_rt_lem :
    (enc : RdsEncoder) (src : List ℕ) (p : ℕ)
    → let t = trim_end (text_prefix is_line_end 64 src) in
      set_rds_rt enc src p
      ≡ put enc p (
        record (data_at enc p) { rt = terminated 64 t },
        record (state_at enc p) { rt_update = 1; rt_segments = segments_of 64 t },
      )
unfolding set_rds_rt
set_rds_rt_lem enc src p = ap (put enc p) (rt_setter_lem (data_at enc p) (state_at enc p) src)

segments_of-le : (t : List ℕ) → segments_of 64 t ≤ 16
segments_of-le t = ground arith

-- What a reset leaves of the name and the radiotext.
record Reset (d : RdsData) (s : RdsState) : Type 0 where
  name_due : s.ps_update ≡ 1
  name_start : s.ps_csegment ≡ 0
  text_due : s.rt_update ≡ 1
  flag : s.rt_ab ≡ 0
  segments : s.rt_segments ≡ segments_of 64 (trim_end (text_prefix is_line_end 64 d.rt))

-- The setter of the long name leaves the name and the radiotext alone.
record SameTexts (s s' : RdsState) : Type 0 where
  ps_update : s'.ps_update ≡ s.ps_update
  ps_csegment : s'.ps_csegment ≡ s.ps_csegment
  rt_update : s'.rt_update ≡ s.rt_update
  rt_ab : s'.rt_ab ≡ s.rt_ab
  rt_segments : s'.rt_segments ≡ s.rt_segments

lps_setter-SameTexts :
    (d : RdsData) (s : RdsState) (src : List ℕ) → SameTexts s (lps_setter d s src).1
unfolding lps_setter
lps_setter-SameTexts d s src = elim (Bool-cases (get_or src 0 0 == 0)) [
  | inl none ↦ rw none (record {
    ps_update = refl;
    ps_csegment = refl;
    rt_update = refl;
    rt_ab = refl;
    rt_segments = refl;
  })
  | inr some ↦ rw some (record {
    ps_update = refl;
    ps_csegment = refl;
    rt_update = refl;
    rt_ab = refl;
    rt_segments = refl;
  })
]

fresh_state-Reset : (utc : Tm) (d : RdsData) → Reset d (fresh_state utc d)
unfolding fresh_state rt_setter ps_setter tps_setter ptyn_setter
fresh_state-Reset utc d =
    let s0 : RdsState = record zero_state { ptyn_ab = 1 } in
    let (d1, s1) = rt_setter zero_data s0 d.rt in
    let (d2, s2) = ps_setter d1 s1 d.ps in
    let (d3, s3) = tps_setter d2 s2 d.tps in
    let same = lps_setter-SameTexts d3 s3 d.lps in
    record {
      name_due = same.ps_update;
      name_start = same.ps_csegment;
      text_due = same.rt_update;
      flag = same.rt_ab;
      segments =
          same.rt_segments
          ∙ ap (λ (r : RdsData × RdsState). r.1.rt_segments) (rt_setter_lem zero_data s0 d.rt);
    }

-- What the setters store of bytes are bytes.
append-IsByte : (xs ys : List ℕ) → All IsByte xs → All IsByte ys → All IsByte (xs ++ ys)
append-IsByte [] ys h k = k
append-IsByte (x ∷ xs) ys (hx, h) k = (hx, append-IsByte xs ys h k)

spaces-IsByte : (n : ℕ) → All IsByte (replicate n 0x20)
spaces-IsByte zero = tt
spaces-IsByte (suc n) = (omega arith, spaces-IsByte n)

text_prefix-IsByte :
    (stop : ℕ → Bool) (n : ℕ) (src : List ℕ) → All IsByte src → All IsByte (text_prefix stop n src)
text_prefix-IsByte stop zero src h = tt
text_prefix-IsByte stop (suc n) [] h = tt
text_prefix-IsByte stop (suc n) (c ∷ cs) (hc, h) = elim (Bool-cases (stop c)) [
  | inl end ↦ rw end tt
  | inr text ↦ rw text (hc, text_prefix-IsByte stop n cs h)
]

padded-IsByte : (n : ℕ) (p : List ℕ) → All IsByte p → All IsByte (padded n p)
padded-IsByte n p h = append-IsByte p _ h (spaces-IsByte _)

trim_cons-IsByte : (c : ℕ) (t : List ℕ) → c < 256 → All IsByte t → All IsByte (trim_cons c t)
trim_cons-IsByte c [] hc h = elim (Bool-cases (c == 0x20)) [
  | inl space ↦ rw space tt
  | inr text ↦ rw text (hc, tt)
]
trim_cons-IsByte c (t ∷ ts) hc h = (hc, h)

trim_end-IsByte : (p : List ℕ) → All IsByte p → All IsByte (trim_end p)
trim_end-IsByte [] h = tt
trim_end-IsByte (c ∷ cs) (hc, h) = trim_cons-IsByte c (trim_end cs) hc (trim_end-IsByte cs h)

terminated-IsByte : (n : ℕ) (t : List ℕ) → All IsByte t → All IsByte (terminated n t)
terminated-IsByte n t h = elim (Bool-cases (ltb (length t) n)) [
  | inl short ↦ rw short (append-IsByte t _ h (omega arith, spaces-IsByte _))
  | inr full ↦ rw full h
]

module _ (L : Lua) (signed : Bool) (pi : ℕ) where
  -- The groups of a radiotext that an operation on the programme has stored.
  text_stored :
      (enc : RdsEncoder) (r : RdsData × RdsState) (i : L.Interp)
      → OnAir enc
      → r.1.rt_update ≢ 0
      → r.0.rt_enabled ≢ 0
      → r.1.rt_ab < 2
      → r.1.rt_segments ≤ 16
      → All IsByte r.0.rt
      → map rt_segment (rt_groups L signed pi r.1.rt_segments (put enc enc.program r, i))
        ≡ rt_segments_from signed r.0.rt r.1.rt_ab r.1.rt_segments 0
  text_stored enc r i on update enabled ab n bytes =
      let w : World L = (put enc enc.program r, i) in
      let d = data_at-put enc r on in
      let s = state_at-put enc r on in
      let sent =
        rt_cycle L signed w pi (put_range enc r on)
          (omega (arith, update, ap (λ (s : RdsState). s.rt_update) s))
          (omega (arith, enabled, ap (λ (d : RdsData). d.rt_enabled) d))
          (omega (arith, ab, ap (λ (s : RdsState). s.rt_ab) s))
          (omega (arith, n, ap (λ (s : RdsState). s.rt_segments) s))
          (subst (λ (d : RdsData). All IsByte d.rt) (sym d) bytes) in
      ap (λ (s : RdsState). map rt_segment (rt_groups L signed pi s.rt_segments w)) (sym s)
      ∙ sent
      ∙ ap₂ (λ (d : RdsData) (s : RdsState). rt_segments_from signed d.rt s.rt_ab s.rt_segments 0) d
          s

  -- The same for a name, before segment 0, without a traffic announcement.
  name_stored :
      (enc : RdsEncoder) (r : RdsData × RdsState) (i : L.Interp)
      → OnAir enc
      → r.1.ps_update ≢ 0
      → r.1.ps_csegment ≡ 0
      → r.0.ta ≡ 0
      → r.0.dpty < 2
      → All IsByte r.0.ps
      → segments_sent (ps_groups L signed pi 4 (put enc enc.program r, i))
        ≡ name_groups signed r.0.ps
  name_stored enc r i on update first ta dpty bytes =
      let w : World L = (put enc enc.program r, i) in
      let d = data_at-put enc r on in
      let s = state_at-put enc r on in
      let new : is_set r.1.ps_update ≡ true = ground arith in
      let plain : is_set r.0.ta ≡ false = ground arith in
      let shown : text_to_send r.0 r.1 ≡ r.0.ps = rw (plain, new) refl in
      let text : text_to_send (data_at w.0 w.0.program) (state_at w.0 w.0.program) ≡ r.0.ps =
        ap₂ text_to_send d s ∙ shown in
      let sent =
        ps_cycle L signed w pi (put_range enc r on)
          (omega (arith, first, ap (λ (s : RdsState). s.ps_csegment) s))
          (omega (arith, ta, ap (λ (d : RdsData). d.ta) d))
          (omega (arith, dpty, ap (λ (d : RdsData). d.dpty) d))
          (subst (All IsByte) (sym text) bytes) in
      sent ∙ ap (λ t. name_groups signed t) text

  -- After `set_rds_ps` on the programme on the air, at segment 0 and without a traffic
  -- announcement, the blocks of four PS groups have the new name in pairs as `aired` reads them, cut after
  -- eight characters and filled up with spaces. The characters are bytes.
  pub set_rds_ps_delivered :
      (enc : RdsEncoder) (src : List ℕ) (i : L.Interp)
      → OnAir enc
      → (state_at enc enc.program).ps_csegment ≡ 0
      → (data_at enc enc.program).ta ≡ 0
      → (data_at enc enc.program).dpty < 2
      → All IsByte src
      → segments_sent (ps_groups L signed pi 4 (set_rds_ps enc src enc.program, i))
        ≡ name_groups signed (padded 8 (text_prefix is_nul 8 src))
  set_rds_ps_delivered enc src i on first ta dpty bytes =
      let d = data_at enc enc.program in
      let s = state_at enc enc.program in
      rw (set_rds_ps_lem enc src enc.program) (
        name_stored enc
          (record d { ps = padded 8 (text_prefix is_nul 8 src) }, record s { ps_update = 1 }) i on
          (omega arith) first ta dpty (padded-IsByte 8 _ (text_prefix-IsByte is_nul 8 src bytes)))

  -- After `set_rds_rt` on the programme on the air, with radiotext on, the groups of one transmission
  -- have the new text in pairs as `aired` reads them: without its last spaces, ended by a carriage return if it is shorter than 64
  -- characters, each of its segments once and in order. This is so in the middle of an old text too.
  -- The characters are bytes.
  pub set_rds_rt_delivered :
      (enc : RdsEncoder) (src : List ℕ) (i : L.Interp)
      → OnAir enc
      → (data_at enc enc.program).rt_enabled ≢ 0
      → (state_at enc enc.program).rt_ab < 2
      → All IsByte src
      → let t = trim_end (text_prefix is_line_end 64 src) in
        map rt_segment
          (rt_groups L signed pi (segments_of 64 t) (set_rds_rt enc src enc.program, i))
        ≡ rt_segments_from signed
            (terminated 64 t)
            (state_at enc enc.program).rt_ab
            (segments_of 64 t)
            0
  set_rds_rt_delivered enc src i on enabled ab bytes =
      let d = data_at enc enc.program in
      let s = state_at enc enc.program in
      let t = trim_end (text_prefix is_line_end 64 src) in
      rw (set_rds_rt_lem enc src enc.program) (
        text_stored enc
          (
            record d { rt = terminated 64 t },
            record s { rt_update = 1; rt_segments = segments_of 64 t },
          )
          i on (omega arith) enabled ab (segments_of-le t)
          (terminated-IsByte 64 t
            (trim_end-IsByte _ (text_prefix-IsByte is_line_end 64 src bytes))))

  -- After `reset_rds_state` on the programme on the air, whatever was on before: if the next groups are
  -- four PS groups, these have the name of the settings from segment 0 on in their blocks, in pairs as
  -- `aired` reads them; and if they are radiotext groups, as many as the text of the settings has
  -- segments, these have its segments in order with the flag 0, in pairs too. Radiotext is on, the
  -- programme is one of the encoder's, and the characters of the name and the text are bytes.
  pub reset_rds_state_delivered :
      (utc : Tm) (enc : RdsEncoder) (i : L.Interp)
      → OnAir enc
      → (data_at enc enc.program).dpty < 2
      → (data_at enc enc.program).rt_enabled ≢ 0
      → All IsByte (data_at enc enc.program).ps
      → All IsByte (data_at enc enc.program).rt
      → let d = data_at enc enc.program in
        let n = segments_of 64 (trim_end (text_prefix is_line_end 64 d.rt)) in
        let w : World L = (reset_rds_state utc enc enc.program, i) in
        (segments_sent (ps_groups L signed pi 4 w) ≡ name_groups signed d.ps)
        × (map rt_segment (rt_groups L signed pi n w) ≡ rt_segments_from signed d.rt 0 n 0)
  unfolding reset_rds_state clear_ta
  reset_rds_state_delivered utc enc i on dpty enabled name text =
      let d = data_at enc enc.program in
      let s = fresh_state utc d in
      let n = segments_of 64 (trim_end (text_prefix is_line_end 64 d.rt)) in
      let fresh = fresh_state-Reset utc d in
      let w : World L = (put enc enc.program (clear_ta d, s), i) in
      (
        name_stored enc (clear_ta d, s) i on (omega (arith, fresh.name_due)) fresh.name_start refl
            dpty name,
        ap (λ k. map rt_segment (rt_groups L signed pi k w)) (sym fresh.segments)
            ∙ text_stored enc (clear_ta d, s) i on (omega (arith, fresh.text_due)) enabled
                (omega (arith, fresh.flag))
                (omega (
                  arith,
                  fresh.segments,
                  segments_of-le (trim_end (text_prefix is_line_end 64 d.rt)),
                ))
                text
            ∙ ap₂ (λ ab k. rt_segments_from signed d.rt ab k 0) fresh.flag fresh.segments,
      )
