-- ===== src/System/Runs.antt =====
-- From a reset on, however many groups are sent: the transmission stays inside the texts.
use rds.Common.{ℕ, ◌≤◌, refl, arith, List, [], ◌∷◌, Bool, ◌==◌, Bool-cases, inl, inr}
use rds.Common.{get_or, replicate}
use rds.Model.{RdsData, RdsState, RdsEon, RdsEncoder, zero_data, zero_state, data_at, put_data}
use rds.Setters.{rt_setter, ps_setter, tps_setter, lps_setter, ptyn_setter, copy_chars, is_line_end}
use rds.Setters.{text_segments}
use rds.Setters.Sizes.{text_segments-le}
use rds.Lua.{Lua, World}
use rds.Lua.Keeps.{HooksKeep}
use rds.Groups.Clock.{Tm}
use rds.Reset.{fresh_state, clear_ta, reset_rds_state}
use rds.Sequence.{get_rds_group}
use rds.Api.Valid.{IsEncoder, All-set, data_at-IsSettings, put_data-IsEncoder}
use rds.Api.Start.{clear_ta-IsSettings, fresh_state-IsState}
use package.rds.System.InText.{AtMost, InText, counters}
use package.rds.System.Bounds.{OnText, put-OnText, get_rds_group-OnText}

lps_setter-InText :
    (d : RdsData) (s : RdsState) (src : List ℕ) → InText 3 15 s → InText 3 15 (lps_setter d s src).1
unfolding lps_setter
lps_setter-InText d s src h =
    let copied = copy_chars is_line_end 32 (replicate 32 0x20) 0 src in
    let count = text_segments 16 32 copied.0 in
    elim (Bool-cases (get_or src 0 0 == 0)) [
      | inl empty ↦ rw empty (record { counters = h.counters; texts = h.texts })
      | inr text ↦ rw text (record {
        counters =
            All-set AtMost (counters 3 15 s) 3 (count, 8) h.counters
              (omega (arith, text_segments-le 16 32 copied.0));
        texts = h.texts;
      })
    ]

fresh_state-InText : (utc : Tm) (d : RdsData) → InText 3 15 (fresh_state utc d)
unfolding fresh_state rt_setter ps_setter tps_setter ptyn_setter
fresh_state-InText utc d =
    let z : 0 ≤ 0 = omega arith in
    let (d1, s1) = rt_setter zero_data (record zero_state { ptyn_ab = 1 }) d.rt in
    let (d2, s2) = ps_setter d1 s1 d.ps in
    let (d3, s3) = tps_setter d2 s2 d.tps in
    let start : InText 3 15 s3 = record {
      counters = (
        omega arith,
        (
          omega arith,
          (omega arith, (omega arith, (omega arith, (omega arith, (omega arith, tt))))),
        ),
      );
      texts = (refl, (refl, (refl, (refl, (refl, tt)))));
    } in
    let h = lps_setter-InText d3 s3 d.lps start in record { counters = h.counters; texts = h.texts }

reset_rds_state-OnText :
    (utc : Tm) (enc : RdsEncoder)
    → IsEncoder enc
    → OnText 3 15 (reset_rds_state utc enc enc.program)
unfolding reset_rds_state
reset_rds_state-OnText utc enc v =
    let d = data_at enc enc.program in
    put-OnText 3 15 (put_data enc enc.program (clear_ta d)) (fresh_state utc d)
      (put_data-IsEncoder enc enc.program _ v
        (clear_ta-IsSettings d (data_at-IsSettings enc enc.program v)))
      (fresh_state-IsState utc d) (fresh_state-InText utc d)

module _ (L : Lua) (signed : Bool) (stray : RdsEon) where
  -- Groups at their times, each for a stream.
  pub groups_sent : List (Tm × ℕ) → World L → World L
  groups_sent [] w = w
  groups_sent ((utc, stream) ∷ rest) w =
      groups_sent rest (get_rds_group L signed stray utc stream w).0

  groups_sent-OnText :
      (groups : List (Tm × ℕ)) (w : World L)
      → ((a b : ℕ) → HooksKeep L (OnText a b))
      → OnText 3 15 w.0
      → OnText 3 15 (groups_sent groups w).0
  unfolding groups_sent
  groups_sent-OnText [] w h v = v
  groups_sent-OnText ((utc, stream) ∷ rest) w h v =
      groups_sent-OnText rest _ h (get_rds_group-OnText L signed stray utc stream w h v)

  -- After a reset of the programme on the air, however many groups are sent, for any streams and at any
  -- times, the transmission stays inside its texts: the next PS group reads one of the four segments of
  -- a name of eight characters, the next radiotext group one of sixteen in 64 characters, the next group
  -- of the long name one of eight in 32, and that of the programme type name one of two in eight. The
  -- settings and buffers of the encoder fit before, and the hooks keep both for the programme that they
  -- leave on the air, also where they find a counter behind its last segment.
  pub reset_rds_state-stays_OnText :
      (utc : Tm) (enc : RdsEncoder) (i : L.Interp) (groups : List (Tm × ℕ))
      → ((a b : ℕ) → HooksKeep L (OnText a b))
      → IsEncoder enc
      → OnText 3 15 (groups_sent groups (reset_rds_state utc enc enc.program, i)).0
  reset_rds_state-stays_OnText utc enc i groups h v =
      groups_sent-OnText groups _ h (reset_rds_state-OnText utc enc v)
