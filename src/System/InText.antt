-- ===== src/System/InText.antt =====
-- Where the transmission of a programme stands in its texts: the functions of src/rds_groups.c read them
-- inside their arrays.
use rds.Common.{ℕ, zero, suc, ◌+◌, ◌%◌, ◌^◌, ◌≤◌, ◌≡◌, arith, List, [], ◌∷◌, Bool, ◌==◌, ◌&&◌, leb}
use rds.Common.{if◌then◌else◌, Bool-cases, inl, inr, length, All, set}
use rds.Model.{RdsData, RdsState, RdsEon, RdsGroup}
use rds.Groups.{is_set, ps_load, ps_send, ps_group, get_rds_fasttuning_group, get_rds_ecc_group}
use rds.Groups.{get_rds_slcdata_group}
use rds.Groups.Text.{rt_load, rt_send, rt_group, lps_load, lps_send, get_rds_lps_group}
use rds.Groups.Text.{ptyn_load, ptyn_send, get_rds_ptyn_group}
use rds.Groups.Eon.{next_network, eon_variant, eon_round, eon_loop, get_rds_eon_group}
use rds.Sequence.{slow_labelling_group}
use rds.Api.Valid.{IsSettings, IsSized, All-set}

-- A counter and the largest value that it may have.
abbrev pub AtMost : ℕ × ℕ → Type 0
AtMost (n, m) = n ≤ m

-- The counters, with the bounds of the two that stand behind their text when a hook is called.
abbrev pub counters : ℕ → ℕ → RdsState → List (ℕ × ℕ)
counters a b t =
    (t.ps_csegment, a)
    ∷ (t.rt_state, b)
    ∷ (t.lps_state, 7)
    ∷ (t.lps_segments, 8)
    ∷ (t.ptyn_state, 1)
    ∷ (t.fasttuning_state, 3)
    ∷ (t.eon_state, 6)
    ∷ []

abbrev pub texts : RdsState → List (ℕ × ℕ)
texts t =
    (length t.ps_text, 8)
    ∷ (length t.tps_text, 8)
    ∷ (length t.rt_text, 64)
    ∷ (length t.ptyn_text, 8)
    ∷ (length t.lps_text, 32)
    ∷ []

pub record InText (a b : ℕ) (t : RdsState) : Type 0 where
  pub counters : All AtMost (counters a b t)
  pub texts : All IsSized (texts t)

InText-if :
    (a b : ℕ) (c : Bool) (t u : RdsState)
    → InText a b t
    → InText a b u
    → InText a b (if c then t else u)
InText-if a b c t u p q = elim (Bool-cases c) [ inl y ↦ rw y p | inr n ↦ rw n q ]

chosen-IsSized :
    (c : Bool) (xs ys : List ℕ) (n : ℕ)
    → length xs ≡ n
    → length ys ≡ n
    → length (if c then xs else ys) ≡ n
chosen-IsSized c xs ys n p q = elim (Bool-cases c) [ inl y ↦ rw y p | inr n ↦ rw n q ]

-- The texts are taken over from settings whose arrays have the same sizes.
module _ (d : RdsData) (v : IsSettings d) (s : RdsState) (h : InText 3 15 s) where
  ps_load-InText : InText 3 15 (ps_load d s)
  unfolding ps_load
  ps_load-InText =
      let (ps, (rt, (tps, _))) = v.sizes in
      let (old_ps, (old_tps, rest)) = h.texts in
      InText-if 3 15 (s.ps_csegment == 0) _ s
        (record {
          counters = h.counters;
          texts = (
            chosen-IsSized (is_set s.ps_update) d.ps s.ps_text 8 ps old_ps,
            (chosen-IsSized (is_set s.tps_update) d.tps s.tps_text 8 tps old_tps, rest),
          );
        })
        h

  rt_load-InText : InText 3 15 (rt_load d s)
  unfolding rt_load
  rt_load-InText =
      let (ps, (rt, _)) = v.sizes in
      InText-if 3 15 (is_set s.rt_update && is_set d.rt_enabled) _ s
        (record {
          counters = All-set AtMost (counters 3 15 s) 1 (0, 15) h.counters (omega arith);
          texts = All-set IsSized (texts s) 2 (length d.rt, 64) h.texts rt;
        })
        h

  lps_load-InText : InText 3 15 (lps_load d s)
  unfolding lps_load
  lps_load-InText =
      let (_, (_, (_, (_, (lps, _))))) = v.sizes in
      InText-if 3 15 (s.lps_state == 0 && is_set s.lps_update) _ s
        (record {
          counters = h.counters;
          texts = All-set IsSized (texts s) 4 (length d.lps, 32) h.texts lps;
        })
        h

  ptyn_load-InText : InText 3 15 (ptyn_load d s)
  unfolding ptyn_load
  ptyn_load-InText =
      let (_, (_, (_, (ptyn, _)))) = v.sizes in
      InText-if 3 15 (s.ptyn_state == 0 && is_set s.ptyn_update) _ s
        (record {
          counters = h.counters;
          texts = All-set IsSized (texts s) 3 (length d.ptyn, 8) h.texts ptyn;
        })
        h

-- A group moves one counter on.
module _ (signed : Bool) (d : RdsData) (s : RdsState) (g : RdsGroup) (h : InText 3 15 s) where
  -- The same texts, with the counter at position `i` of another value.
  moved : (i m n : ℕ) → n ≤ m → All AtMost (set (counters 3 15 s) i (n, m))
  moved i m n le = All-set AtMost (counters 3 15 s) i (n, m) h.counters le

  ps_send-InText : InText 4 15 (ps_send signed d s g).0
  unfolding ps_send
  ps_send-InText =
      let (seg, _) = h.counters in
      let next = moved 0 4 ((s.ps_csegment + 1) % 2 ^ 3) (omega (arith, seg)) in
      elim (Bool-cases (is_set d.af.num_afs)) [
        | inl listed ↦ rw listed (record { counters = next; texts = h.texts })
        | inr none ↦ rw none (record { counters = next; texts = h.texts })
      ]

  rt_send-InText : InText 3 16 (rt_send signed s g).0
  unfolding rt_send
  rt_send-InText =
      let (_, (at, _)) = h.counters in
      record {
        counters = moved 1 16 ((s.rt_state + 1) % 2 ^ 5) (omega (arith, at));
        texts = h.texts;
      }

  lps_send-InText : InText 3 15 (lps_send signed s g).0
  unfolding lps_send
  lps_send-InText =
      let (_, (_, (at, (count, _)))) = h.counters in
      let next = (s.lps_state + 1) % 2 ^ 4 in
      record {
        counters =
            moved 2 7 (if leb s.lps_segments next then 0 else next) (ground (arith, at, count));
        texts = h.texts;
      }

  ptyn_send-InText : InText 3 15 (ptyn_send signed s g).0
  unfolding ptyn_send
  ptyn_send-InText =
      let next = (s.ptyn_state + 1) % 2 ^ 1 in
      record {
        counters = moved 4 1 (if next == 2 then 0 else next) (ground arith);
        texts = h.texts;
      }

  pub get_rds_fasttuning_group-InText : InText 3 15 (get_rds_fasttuning_group d s g).0
  unfolding get_rds_fasttuning_group
  get_rds_fasttuning_group-InText =
      let (_, (_, (_, (_, (_, (at, _)))))) = h.counters in
      let next = (s.fasttuning_state + 1) % 2 ^ 3 in
      record {
        counters = moved 5 3 (if next == 4 then 0 else next) (ground (arith, at));
        texts = h.texts;
      }

  pub slow_labelling_group-InText : InText 3 15 (slow_labelling_group d s g).0
  unfolding slow_labelling_group get_rds_slcdata_group get_rds_ecc_group
  slow_labelling_group-InText = elim (Bool-cases (s.data_ecc == 0 && is_set d.slc_data)) [
    | inl labelled ↦ rw labelled (record { counters = h.counters; texts = h.texts })
    | inr code ↦ rw code (record { counters = h.counters; texts = h.texts })
  ]

  -- One variant of the information on another network.
  Pair-if :
      (c : Bool) (t u : RdsState × RdsGroup)
      → InText 3 15 t.0
      → InText 3 15 u.0
      → InText 3 15 (if c then t else u).0
  Pair-if c t u p q = elim (Bool-cases c) [ inl y ↦ rw y p | inr n ↦ rw n q ]

  eon_round-InText : (eon : RdsEon) → InText 3 15 (eon_round signed d eon s g).0
  unfolding eon_round eon_variant
  eon_round-InText eon = Pair-if (leb s.eon_state 3) _ _ h (
      Pair-if (s.eon_state == 4) _ _ (record { counters = h.counters; texts = h.texts })
        (Pair-if (s.eon_state == 5) _ _ h (Pair-if (s.eon_state == 6) _ _ h h)))

module _ (signed : Bool) (d : RdsData) (v : IsSettings d) (s : RdsState) (g : RdsGroup)
    (h : InText 3 15 s) where
  pub ps_group-InText : InText 4 15 (ps_group signed d s g).0
  unfolding ps_group
  ps_group-InText = ps_send-InText signed d (ps_load d s) g (ps_load-InText d v s h)

  pub rt_group-InText : InText 3 16 (rt_group signed d s g).0
  unfolding rt_group
  rt_group-InText = rt_send-InText signed d (rt_load d s) g (rt_load-InText d v s h)

  pub get_rds_lps_group-InText : InText 3 15 (get_rds_lps_group signed d s g).0
  unfolding get_rds_lps_group
  get_rds_lps_group-InText = lps_send-InText signed d (lps_load d s) g (lps_load-InText d v s h)

  pub get_rds_ptyn_group-InText : InText 3 15 (get_rds_ptyn_group signed d s g).0
  unfolding get_rds_ptyn_group
  get_rds_ptyn_group-InText = ptyn_send-InText signed d (ptyn_load d s) g (ptyn_load-InText d v s h)

eon_loop-InText :
    (fuel : ℕ) (signed : Bool) (stray : RdsEon) (d : RdsData) (eon : RdsEon) (s : RdsState)
    (g : RdsGroup)
    → InText 3 15 s
    → InText 3 15 (eon_loop fuel signed stray d eon s g).0
unfolding eon_loop
eon_loop-InText zero signed stray d eon s g h = h
eon_loop-InText (suc fuel) signed stray d eon s g h =
    let (s', g') = eon_round signed d eon s g in
    let (index, eon') = next_network stray d 4 ((s'.eon_index + 1) % 2 ^ 3) eon in
    let h' : InText 3 15 s' = eon_round-InText signed d s g h eon in
    let (_, (_, (_, (_, (_, (_, (at, _))))))) = h'.counters in
    let to : (n : ℕ) → n ≤ 6 → All AtMost (set (counters 3 15 s') 6 (n, 6)) =
      λ n le. All-set AtMost (counters 3 15 s') 6 (n, 6) h'.counters le in
    elim (Bool-cases (s'.eon_state == 6)) [
      | inl last ↦
          rw (eon_loop, last)
            (eon_loop-InText fuel signed stray d eon'
              (record s' { eon_index = index; eon_state = 0 }) g'
              (record { counters = to 0 (omega arith); texts = h'.texts }))
      | inr before ↦
          rw (eon_loop, before)
            (record { counters = to ((s'.eon_state + 1) % 2 ^ 4) (ground arith); texts = h'.texts })
    ]

pub get_rds_eon_group-InText :
    (stray : RdsEon) (signed : Bool) (d : RdsData) (s : RdsState) (g : RdsGroup)
    → InText 3 15 s
    → InText 3 15 (get_rds_eon_group stray signed d s g).0
unfolding get_rds_eon_group
get_rds_eon_group-InText stray signed d s g h = eon_loop-InText 2 signed stray d _ s g h
