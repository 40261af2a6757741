-- ===== src/Groups/RtCycle.antt =====
-- The radiotext: what the groups of one transmission carry, at the encoder.
use rds.Common.{
  ℕ, zero, suc, ◌+◌, ◌*◌, ◌/◌, ◌%◌, ◌^◌, ◌≤◌, ◌<◌, List, [], ◌∷◌, map, Bool, true, false,
}
use rds.Common.{◌≡◌, ◌≢◌, refl, ap, ap₂, ◌∙◌, arith, length, ◌&&◌}
use rds.Common.{Bool-cases, inl, inr, length-set}
use rds.Common.{zero-bit_or, bit_or_sum}
use rds.Model.{RdsData, RdsState, RdsEncoder, RdsGroup, data_at, state_at, put_state}
use rds.Lua.{Lua, World}
use package.rds.Groups.{is_set, text_block, on_air}
use rds.Common.{All}
use package.rds.Groups.Ps.{blank, IsByte, aired, text_block-aired}
use package.rds.Groups.PsCycle.{state_at-put_state}
use package.rds.Groups.Text.{rt_load, rt_send, rt_group, rt_done, get_rds_rt_group}

-- A group of the radiotext: its address with the A/B flag, and its two text blocks.
pub record RtSegment : Type 0 where
  pub ab : ℕ
  pub address : ℕ
  pub first : ℕ
  pub second : ℕ

-- What a receiver reads in a radiotext group.
abbrev pub rt_segment : RdsGroup → RtSegment
rt_segment g = record { ab = g.b / 16 % 2; address = g.b % 16; first = g.c; second = g.d }

-- The segments from `k` on, `n` of them, each with four characters of the text in two blocks.
abbrev pub rt_segments_from : Bool → List ℕ → ℕ → ℕ → ℕ → List RtSegment
rt_segments_from signed text ab zero k = []
rt_segments_from signed text ab (suc n) k =
    record {
      ab = ab;
      address = k;
      first = aired signed text (k * 4);
      second = aired signed text (k * 4 + 2);
    }
    ∷ rt_segments_from signed text ab n (k + 1)

-- The groups of `n` calls in a row, each on an empty group.
pub rt_groups : (L : Lua) → Bool → ℕ → ℕ → World L → List RdsGroup
rt_groups L signed pi zero w = []
rt_groups L signed pi (suc n) w =
    let (w', g) = get_rds_rt_group L signed w (blank pi) in g ∷ rt_groups L signed pi n w'

-- One group of a state that has taken over its text.
rt_send_lem :
    (signed : Bool) (s : RdsState) (pi : ℕ)
    → s.rt_ab < 2
    → s.rt_state < 16
    → rt_segment (rt_send signed s (blank pi)).1 ≡ record {
      ab = s.rt_ab;
      address = s.rt_state;
      first = text_block signed s.rt_text (s.rt_state * 4);
      second = text_block signed s.rt_text (s.rt_state * 4 + 2);
    }
unfolding rt_send
rt_send_lem signed s pi ab at = ground (
  arith,
  zero-bit_or (2 * 2 ^ 12),
  bit_or_sum 12 2 (2 * 2 ^ 12) (s.rt_ab * 2 ^ 4),
  bit_or_sum 4 (512 + s.rt_ab) (2 * 2 ^ 12 + s.rt_ab * 2 ^ 4) s.rt_state,
)

rt_load_again :
    (d : RdsData) (s s' : RdsState) → s'.rt_update ≡ (rt_load d s).rt_update → rt_load d s' ≡ s'
unfolding rt_load
rt_load_again d s s' e = elim (Bool-cases (is_set s.rt_update && is_set d.rt_enabled)) [
  | inl new ↦
      let off : (is_set s'.rt_update && is_set d.rt_enabled) ≡ false = ground arith in rw off
  | inr old ↦
      let off : (is_set s'.rt_update && is_set d.rt_enabled) ≡ false = ground arith in rw off
]

-- The group of a call is made before the hook.
group-get_rds_rt_group :
    (L : Lua) (signed : Bool) (w : World L) (g : RdsGroup)
    → (get_rds_rt_group L signed w g).1
      ≡ (rt_group signed (data_at w.0 w.0.program) (state_at w.0 w.0.program) g).1
unfolding get_rds_rt_group
group-get_rds_rt_group L signed w g =
    let enc = (on_air (rt_group signed) w.0 g).0 in
    elim (Bool-cases (rt_done (state_at enc enc.program))) [
      | inl last ↦ rw last
      | inr before ↦ rw before
    ]

-- Before the last segment no hook runs.
world-get_rds_rt_group :
    (L : Lua) (signed : Bool) (w : World L) (g : RdsGroup) (s' : RdsState)
    → s' ≡ (rt_group signed (data_at w.0 w.0.program) (state_at w.0 w.0.program) g).0
    → w.0.program < length w.0.state
    → rt_done s' ≡ false
    → (get_rds_rt_group L signed w g).0.0 ≡ put_state w.0 w.0.program s'
unfolding get_rds_rt_group
world-get_rds_rt_group L signed w g s' e h more =
    let before : rt_done (state_at (put_state w.0 w.0.program s') w.0.program) ≡ false =
      ap rt_done (state_at-put_state w.0 s' h) ∙ more in
    rw (← e, before)

-- The encoder is about to send segment `k` of `n` of a text.
record Ready (enc : RdsEncoder) (d : RdsData) (k n ab : ℕ) (text : List ℕ) : Type 0 where
  settings : data_at enc enc.program ≡ d
  address : (rt_load d (state_at enc enc.program)).rt_state ≡ k
  segments : (rt_load d (state_at enc enc.program)).rt_segments ≡ n
  flag : (rt_load d (state_at enc enc.program)).rt_ab ≡ ab
  rt_text : (rt_load d (state_at enc enc.program)).rt_text ≡ text
  in_range : enc.program < length enc.state

Ready-first :
    (enc : RdsEncoder)
    → enc.program < length enc.state
    → (state_at enc enc.program).rt_update ≢ 0
    → (data_at enc enc.program).rt_enabled ≢ 0
    → let d = data_at enc enc.program in
      let s = state_at enc enc.program in Ready enc d 0 s.rt_segments s.rt_ab d.rt
unfolding rt_load
Ready-first enc range update enabled =
    let d = data_at enc enc.program in
    let s = state_at enc enc.program in
    let new : (is_set s.rt_update && is_set d.rt_enabled) ≡ true = ground arith in
    record {
      settings = refl;
      address = rw new;
      segments = rw new;
      flag = rw new;
      rt_text = rw new;
      in_range = range;
    }

module _ (L : Lua) (signed : Bool) (d : RdsData) (n ab : ℕ) (text : List ℕ) (pi : ℕ)
    (ab_fits : ab < 2) (n_fits : n ≤ 16) (bytes : All IsByte text) where
  segment_sent :
      (w : World L) (k : ℕ)
      → Ready w.0 d k n ab text
      → k < n
      → rt_segment (get_rds_rt_group L signed w (blank pi)).1 ≡ record {
        ab = ab;
        address = k;
        first = aired signed text (k * 4);
        second = aired signed text (k * 4 + 2);
      }
  unfolding rt_group
  segment_sent w k r h =
      let l = rt_load d (state_at w.0 w.0.program) in
      rw (group-get_rds_rt_group L signed w (blank pi), r.settings)
        (rt_send_lem signed l pi (omega (arith, r.flag)) (omega (arith, r.address))
          ∙ (λ i. record {
            ab = r.flag i;
            address = r.address i;
            first = text_block signed (r.rt_text i) (r.address i * 4);
            second = text_block signed (r.rt_text i) (r.address i * 4 + 2);
          })
          ∙ λ i. record {
            ab = ab;
            address = k;
            first = text_block-aired signed text (k * 4) bytes i;
            second = text_block-aired signed text (k * 4 + 2) bytes i;
          })

  get_rds_rt_group-Ready :
      (w : World L) (k : ℕ)
      → Ready w.0 d k n ab text
      → k + 1 < n
      → Ready (get_rds_rt_group L signed w (blank pi)).0.0 d (k + 1) n ab text
  unfolding rt_group rt_send
  get_rds_rt_group-Ready w k r h =
      let enc = w.0 in
      let l = rt_load d (state_at enc enc.program) in
      let s' = (rt_send signed l (blank pi)).0 in
      let next : s'.rt_state ≡ k + 1 = omega (arith, r.address) in
      let loaded : rt_load d s' ≡ s' = rt_load_again d (state_at enc enc.program) s' refl in
      let stored : rt_load d (state_at (put_state enc enc.program s') enc.program) ≡ s' =
        ap (rt_load d) (state_at-put_state enc s' r.in_range) ∙ loaded in
      let more : rt_done s' ≡ false = unfold rt_done in ground (arith, next, r.segments) in
      let world : (get_rds_rt_group L signed w (blank pi)).0.0 ≡ put_state enc enc.program s' =
        world-get_rds_rt_group L signed w (blank pi) s' (rw r.settings refl) r.in_range more in
      rw world (record {
        settings = r.settings;
        address = ap (λ (s : RdsState). s.rt_state) stored ∙ next;
        segments = ap (λ (s : RdsState). s.rt_segments) stored ∙ r.segments;
        flag = ap (λ (s : RdsState). s.rt_ab) stored ∙ r.flag;
        rt_text = ap (λ (s : RdsState). s.rt_text) stored ∙ r.rt_text;
        in_range = omega (arith, r.in_range, length-set enc.state enc.program s');
      })

  rt_groups-Ready :
      (m k : ℕ) (w : World L)
      → Ready w.0 d k n ab text
      → k + m ≡ n
      → map rt_segment (rt_groups L signed pi m w) ≡ rt_segments_from signed text ab m k
  unfolding rt_groups
  rt_groups-Ready zero k w r e = refl
  rt_groups-Ready (suc zero) k w r e = ap (λ x. x ∷ []) (segment_sent w k r (omega arith))
  rt_groups-Ready (suc (suc m)) k w r e = ap₂ ◌∷◌ (segment_sent w k r (omega arith)) (
      rt_groups-Ready (suc m) (k + 1) (get_rds_rt_group L signed w (blank pi)).0
        (get_rds_rt_group-Ready w k r (omega arith)) (omega arith))

-- When a new text is due (its flag is set and radiotext is on), the calls of `get_rds_rt_group` for
-- the number of segments that the state holds, which is at most 16, send each segment of the new
-- text once and in order, with its address, the A/B flag and four characters in two blocks: the first
-- character of a pair times 256 plus the second, but 0xff in the place of the first one where `char` is
-- signed and the second one is 0x80 or above. This is so in the middle of an old text too. The programme
-- is one of the encoder's, the flag has one bit, and the characters of the text are bytes.
pub rt_cycle :
    (L : Lua) (signed : Bool) (w : World L) (pi : ℕ)
    → w.0.program < length w.0.state
    → (state_at w.0 w.0.program).rt_update ≢ 0
    → (data_at w.0 w.0.program).rt_enabled ≢ 0
    → (state_at w.0 w.0.program).rt_ab < 2
    → (state_at w.0 w.0.program).rt_segments ≤ 16
    → All IsByte (data_at w.0 w.0.program).rt
    → let d = data_at w.0 w.0.program in
      let s = state_at w.0 w.0.program in
      map rt_segment (rt_groups L signed pi s.rt_segments w)
      ≡ rt_segments_from signed d.rt s.rt_ab s.rt_segments 0
rt_cycle L signed w pi range update enabled ab fits bytes =
    let d = data_at w.0 w.0.program in
    let s = state_at w.0 w.0.program in
    rt_groups-Ready L signed d s.rt_segments s.rt_ab d.rt pi ab fits bytes s.rt_segments 0 w
      (Ready-first w.0 range update enabled) (omega arith)
