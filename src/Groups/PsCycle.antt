-- ===== src/Groups/PsCycle.antt =====
-- Four PS groups in a row, at the encoder: how the whole name is sent.
use rds.Common.{ℕ, zero, suc, ◌+◌, ◌*◌, ◌%◌, ◌<◌, List, [], ◌∷◌, map, Bool, true, false}
use rds.Common.{◌≡◌, ◌≢◌, refl, ap, ap₂, ◌∙◌, arith, ◌==◌, if◌then◌else◌, length}
use rds.Common.{Bool-cases, inl, inr, get_or, get_or-set_self, length-set}
use rds.Model.{RdsData, RdsState, RdsEncoder, RdsGroup, data_at, state_at, put_state, zero_state}
use rds.Lua.{Lua, World}
use rds.Common.{◌&&◌}
use package.rds.Groups.{is_set, text_block, on_air, ps_load, ps_send, ps_group, get_rds_ps_group}
use rds.Common.{All}
use package.rds.Groups.Ps.{IsByte, aired, text_block-aired}
use package.rds.Groups.Ps.{blank, shown_text, ps_send-Sends, segment-ps_load, ps_load_later}

-- The encoder is about to send segment `seg` of the name `ps`, or of the traffic text `tps`.
record Ready (enc : RdsEncoder) (d : RdsData) (seg : ℕ) (ps tps : List ℕ) : Type 0 where
  settings : data_at enc enc.program ≡ d
  segment : (state_at enc enc.program).ps_csegment ≡ seg
  ps_text : (ps_load d (state_at enc enc.program)).ps_text ≡ ps
  tps_text : (ps_load d (state_at enc enc.program)).tps_text ≡ tps
  in_range : enc.program < length enc.state

pub state_at-put_state :
    (enc : RdsEncoder) (s : RdsState)
    → enc.program < length enc.state
    → state_at (put_state enc enc.program s) enc.program ≡ s
state_at-put_state enc s h = get_or-set_self enc.state enc.program s zero_state h

abbrev shown : RdsData → List ℕ → List ℕ → List ℕ
shown d ps tps = shown_text d (record zero_state { ps_text = ps; tps_text = tps })

-- The group of a call is made before the hook.
group-get_rds_ps_group :
    (L : Lua) (signed : Bool) (w : World L) (g : RdsGroup)
    → (get_rds_ps_group L signed w g).1
      ≡ (ps_group signed (data_at w.0 w.0.program) (state_at w.0 w.0.program) g).1
unfolding get_rds_ps_group
group-get_rds_ps_group L signed w g =
    let enc = (on_air (ps_group signed) w.0 g).0 in
    elim (Bool-cases ((state_at enc enc.program).ps_csegment == 4)) [
      | inl last ↦ rw last
      | inr before ↦ rw before
    ]

-- Before the last segment no hook runs.
world-get_rds_ps_group :
    (L : Lua) (signed : Bool) (w : World L) (g : RdsGroup) (s' : RdsState)
    → s' ≡ (ps_group signed (data_at w.0 w.0.program) (state_at w.0 w.0.program) g).0
    → w.0.program < length w.0.state
    → s'.ps_csegment ≢ 4
    → (get_rds_ps_group L signed w g).0.0 ≡ put_state w.0 w.0.program s'
unfolding get_rds_ps_group
world-get_rds_ps_group L signed w g s' e h ne =
    let stored : state_at (put_state w.0 w.0.program s') w.0.program ≡ s' =
      state_at-put_state w.0 s' h in
    let before : ((state_at (put_state w.0 w.0.program s') w.0.program).ps_csegment == 4) ≡ false =
      rw stored (ground arith) in
    rw (← e, before)

module _ (L : Lua) (signed : Bool) (d : RdsData) (ps tps : List ℕ) (pi : ℕ) (ta : d.ta < 2)
    (dpty : d.dpty < 2) where
  -- The group of one call.
  group_sent :
      (w : World L) (seg : ℕ)
      → Ready w.0 d seg ps tps
      → seg < 4
      → let g = (get_rds_ps_group L signed w (blank pi)).1 in
        (g.b % 4 ≡ seg) × (g.d ≡ text_block signed (shown d ps tps) (seg * 2))
  unfolding ps_group
  group_sent w seg r h =
      let l = ps_load d (state_at w.0 w.0.program) in
      let at : l.ps_csegment ≡ seg = segment-ps_load d (state_at w.0 w.0.program) ∙ r.segment in
      let sends = ps_send-Sends signed d l pi ta dpty (omega (arith, at)) in
      let text : shown_text d l ≡ shown d ps tps =
        ap₂ (λ p t. if is_set d.ta && is_set (get_or t 0 0) then t else p) r.ps_text r.tps_text in
      rw (group-get_rds_ps_group L signed w (blank pi), r.settings)
        (sends.address ∙ at, sends.chars ∙ ap₂ (λ t k. text_block signed t (k * 2)) text at)

  -- A call before the last segment.
  get_rds_ps_group-Ready :
      (w : World L) (seg : ℕ)
      → Ready w.0 d seg ps tps
      → seg < 3
      → Ready (get_rds_ps_group L signed w (blank pi)).0.0 d (seg + 1) ps tps
  unfolding ps_group
  get_rds_ps_group-Ready w seg r h =
      let enc = w.0 in
      let l = ps_load d (state_at enc enc.program) in
      let at : l.ps_csegment ≡ seg = segment-ps_load d (state_at enc enc.program) ∙ r.segment in
      let sends = ps_send-Sends signed d l pi ta dpty (omega (arith, at)) in
      let s' = (ps_send signed d l (blank pi)).0 in
      let loaded : ps_load d s' ≡ s' = ps_load_later d s' (omega (arith, sends.segment)) in
      let stored : state_at (put_state enc enc.program s') enc.program ≡ s' =
        state_at-put_state enc s' r.in_range in
      let world : (get_rds_ps_group L signed w (blank pi)).0.0 ≡ put_state enc enc.program s' =
        world-get_rds_ps_group L signed w (blank pi) s' (rw r.settings refl) r.in_range
          (omega (arith, sends.segment, at)) in
      rw world (record {
        settings = r.settings;
        segment = ap (λ (s : RdsState). s.ps_csegment) stored ∙ omega (arith, sends.segment, at);
        ps_text =
            ap (λ (s : RdsState). (ps_load d s).ps_text) stored
            ∙ ap (λ (s : RdsState). s.ps_text) loaded
            ∙ sends.ps_kept
            ∙ r.ps_text;
        tps_text =
            ap (λ (s : RdsState). (ps_load d s).tps_text) stored
            ∙ ap (λ (s : RdsState). s.tps_text) loaded
            ∙ sends.tps_kept
            ∙ r.tps_text;
        in_range = omega (arith, r.in_range, length-set enc.state enc.program s');
      })

Ready-first :
    (enc : RdsEncoder)
    → enc.program < length enc.state
    → (state_at enc enc.program).ps_csegment ≡ 0
    → let d = data_at enc enc.program in
      let s = state_at enc enc.program in
      Ready enc d 0
        (if is_set s.ps_update then d.ps else s.ps_text)
        (if is_set s.tps_update then d.tps else s.tps_text)
unfolding ps_load
Ready-first enc range seg =
    let first : ((state_at enc enc.program).ps_csegment == 0) ≡ true = ground arith in
    record {
      settings = refl;
      segment = seg;
      ps_text = rw first;
      tps_text = rw first;
      in_range = range;
    }

-- The groups of `n` calls in a row, each on an empty group.
pub ps_groups : (L : Lua) → Bool → ℕ → ℕ → World L → List RdsGroup
ps_groups L signed pi zero w = []
ps_groups L signed pi (suc n) w =
    let (w', g) = get_rds_ps_group L signed w (blank pi) in g ∷ ps_groups L signed pi n w'

-- The segment addresses and the block D of the groups.
abbrev pub segments_sent : List RdsGroup → List (ℕ × ℕ)
segments_sent = map (λ (g : RdsGroup). (g.b % 4, g.d))

-- The text of the next four groups from segment 0 on: the traffic text if the traffic announcement is
-- on and there is one, else the name; each is the one of the settings if it is marked as new, else the
-- one sent before.
abbrev pub text_to_send : RdsData → RdsState → List ℕ
text_to_send d s =
    let ps = if is_set s.ps_update then d.ps else s.ps_text in
    let tps = if is_set s.tps_update then d.tps else s.tps_text in
    if is_set d.ta && is_set (get_or tps 0 0) then tps else ps

-- The segments with their blocks as the code computes them.
ps_cycle_blocks :
    (L : Lua) (signed : Bool) (w : World L) (pi : ℕ)
    → w.0.program < length w.0.state
    → (state_at w.0 w.0.program).ps_csegment ≡ 0
    → (data_at w.0 w.0.program).ta < 2
    → (data_at w.0 w.0.program).dpty < 2
    → let text = text_to_send (data_at w.0 w.0.program) (state_at w.0 w.0.program) in
      segments_sent (ps_groups L signed pi 4 w)
      ≡ (0, text_block signed text 0)
        ∷ (1, text_block signed text 2)
        ∷ (2, text_block signed text 4)
        ∷ (3, text_block signed text 6)
        ∷ []
unfolding ps_groups
ps_cycle_blocks L signed w pi range seg ta dpty =
    λ i. (pair0 i) ∷ (pair1 i) ∷ (pair2 i) ∷ (pair3 i) ∷ []
  where
    d : RdsData
    d = data_at w.0 w.0.program

    s : RdsState
    s = state_at w.0 w.0.program

    ps : List ℕ
    ps = if is_set s.ps_update then d.ps else s.ps_text

    tps : List ℕ
    tps = if is_set s.tps_update then d.tps else s.tps_text

    next : World L → World L
    next v = (get_rds_ps_group L signed v (blank pi)).0

    sent : World L → ℕ × ℕ
    sent v = let g = (get_rds_ps_group L signed v (blank pi)).1 in (g.b % 4, g.d)

    text_at : ℕ → ℕ × ℕ
    text_at k = (k, text_block signed (shown d ps tps) (k * 2))

    ready0 : Ready w.0 d 0 ps tps
    ready0 = Ready-first w.0 range seg

    ready1 : Ready (next w).0 d 1 ps tps
    ready1 = get_rds_ps_group-Ready L signed d ps tps pi ta dpty w 0 ready0 (omega arith)

    ready2 : Ready (next (next w)).0 d 2 ps tps
    ready2 = get_rds_ps_group-Ready L signed d ps tps pi ta dpty (next w) 1 ready1 (omega arith)

    ready3 : Ready (next (next (next w))).0 d 3 ps tps
    ready3 =
        get_rds_ps_group-Ready L signed d ps tps pi ta dpty (next (next w)) 2 ready2 (omega arith)

    pair_at : (v : World L) (k : ℕ) → Ready v.0 d k ps tps → k < 4 → sent v ≡ text_at k
    pair_at v k r h =
        let (address, chars) = group_sent L signed d ps tps pi ta dpty v k r h in
        ap₂ (λ a b. (a, b)) address chars

    pair0 : sent w ≡ text_at 0
    pair0 = pair_at w 0 ready0 (omega arith)

    pair1 : sent (next w) ≡ text_at 1
    pair1 = pair_at (next w) 1 ready1 (omega arith)

    pair2 : sent (next (next w)) ≡ text_at 2
    pair2 = pair_at (next (next w)) 2 ready2 (omega arith)

    pair3 : sent (next (next (next w))) ≡ text_at 3
    pair3 = pair_at (next (next (next w))) 3 ready3 (omega arith)

-- From segment 0 on, four calls of `get_rds_ps_group` send the segments 0 to 3 in order, and their
-- blocks D hold the characters of one text in pairs: the first character of a pair times 256 plus the
-- second, but 0xff in the place of the first one where `char` is signed and the second one is 0x80 or
-- above. The text is the traffic text if the traffic announcement is on and there is one, else the name;
-- each is the one of the settings if it is marked as new, else the one sent before. The programme is one
-- of the encoder's, its flags have one bit, and the characters of the text are bytes.
pub ps_cycle :
    (L : Lua) (signed : Bool) (w : World L) (pi : ℕ)
    → w.0.program < length w.0.state
    → (state_at w.0 w.0.program).ps_csegment ≡ 0
    → (data_at w.0 w.0.program).ta < 2
    → (data_at w.0 w.0.program).dpty < 2
    → All IsByte (text_to_send (data_at w.0 w.0.program) (state_at w.0 w.0.program))
    → let text = text_to_send (data_at w.0 w.0.program) (state_at w.0 w.0.program) in
      segments_sent (ps_groups L signed pi 4 w)
      ≡ (0, aired signed text 0)
        ∷ (1, aired signed text 2)
        ∷ (2, aired signed text 4)
        ∷ (3, aired signed text 6)
        ∷ []
ps_cycle L signed w pi range seg ta dpty bytes =
    let text = text_to_send (data_at w.0 w.0.program) (state_at w.0 w.0.program) in
    ps_cycle_blocks L signed w pi range seg ta dpty ∙ λ i.
    (0, text_block-aired signed text 0 bytes i)
    ∷ (1, text_block-aired signed text 2 bytes i)
    ∷ (2, text_block-aired signed text 4 bytes i)
    ∷ (3, text_block-aired signed text 6 bytes i)
    ∷ []
