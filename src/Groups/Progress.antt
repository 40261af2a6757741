-- ===== src/Groups/Progress.antt =====
-- What the functions of src/rds_groups.c leave alone in the state: the buffers, the place in the group
-- sequence and what the setters and scripts write. The marks of new texts are at most taken away.
use rds.Common.{
  ℕ, zero, suc, ◌+◌, ◌%◌, ◌^◌, ◌≤◌, ◌≡◌, refl, ap, ◌∙◌, arith, List, Bool, Bool-cases, inl, inr,
}
use rds.Common.{◌==◌, ◌&&◌, if◌then◌else◌, leb}
use rds.Model.{RdsData, RdsState, RdsEon, RdsGroup}
use package.rds.Groups.{is_set, ps_load, ps_send, ps_group, get_rds_fasttuning_group}
use package.rds.Groups.{get_rds_ecc_group, get_rds_slcdata_group}
use package.rds.Groups.Text.{rt_load, rt_send, rt_group, lps_load, lps_send, get_rds_lps_group}
use package.rds.Groups.Text.{ptyn_load, ptyn_send, get_rds_ptyn_group}
use package.rds.Groups.Eon.{next_network, eon_variant, eon_round, eon_loop, get_rds_eon_group}

-- The marks of new texts, and the fields that no generator writes.
abbrev pub marks : RdsState → ℕ × ℕ × ℕ × ℕ × ℕ
marks s = (s.ps_update, s.tps_update, s.rt_update, s.ptyn_update, s.lps_update)

abbrev pub Kept : Type 0
Kept = ℕ × ℕ × ℕ × ℕ × ℕ × List ℕ × List ℕ

abbrev pub kept : RdsState → Kept
kept s = (
  s.rt_ab, s.rt_segments, s.lps_segments, s.eon_linkage, s.grp_seq_idx, s.custom_group,
  s.custom_group2,
)

pub record Progress (s s' : RdsState) : Type 0 where
  pub ps_update : s'.ps_update ≤ s.ps_update
  pub tps_update : s'.tps_update ≤ s.tps_update
  pub rt_update : s'.rt_update ≤ s.rt_update
  pub ptyn_update : s'.ptyn_update ≤ s.ptyn_update
  pub lps_update : s'.lps_update ≤ s.lps_update
  pub rest : kept s' ≡ kept s

-- Only fields of the transmission itself are written.
pub Progress-same : (s s' : RdsState) → (marks s' ≡ marks s) × (kept s' ≡ kept s) → Progress s s'
Progress-same s s' (m, k) = record {
  ps_update = omega (arith, ap (λ (q : ℕ × ℕ × ℕ × ℕ × ℕ). q.0) m);
  tps_update = omega (arith, ap (λ (q : ℕ × ℕ × ℕ × ℕ × ℕ). q.1) m);
  rt_update = omega (arith, ap (λ (q : ℕ × ℕ × ℕ × ℕ × ℕ). q.2) m);
  ptyn_update = omega (arith, ap (λ (q : ℕ × ℕ × ℕ × ℕ × ℕ). q.3) m);
  lps_update = omega (arith, ap (λ (q : ℕ × ℕ × ℕ × ℕ × ℕ). q.4) m);
  rest = k;
}

pub Progress-refl : (s : RdsState) → Progress s s
Progress-refl s = Progress-same s s (refl, refl)

pub Progress-trans : (s t u : RdsState) → Progress s t → Progress t u → Progress s u
Progress-trans s t u p q = record {
  ps_update = omega (arith, p.ps_update, q.ps_update);
  tps_update = omega (arith, p.tps_update, q.tps_update);
  rt_update = omega (arith, p.rt_update, q.rt_update);
  ptyn_update = omega (arith, p.ptyn_update, q.ptyn_update);
  lps_update = omega (arith, p.lps_update, q.lps_update);
  rest = q.rest ∙ p.rest;
}

Progress-if :
    (c : Bool) (s t u : RdsState) → Progress s t → Progress s u → Progress s (if c then t else u)
Progress-if c s t u p q = elim (Bool-cases c) [ inl y ↦ rw y p | inr n ↦ rw n q ]

abbrev Pair-if :
    (c : Bool) (s : RdsState) (t u : RdsState × RdsGroup)
    → Progress s t.0
    → Progress s u.0
    → Progress s (if c then t else u).0
Pair-if c s t u p q = elim (Bool-cases c) [ inl y ↦ rw y p | inr n ↦ rw n q ]

ps_load-Progress : (d : RdsData) (s : RdsState) → Progress s (ps_load d s)
unfolding ps_load
ps_load-Progress d s =
    Progress-if (s.ps_csegment == 0) s _ s
      (record {
        ps_update = omega arith;
        tps_update = omega arith;
        rt_update = omega arith;
        ptyn_update = omega arith;
        lps_update = omega arith;
        rest = refl;
      })
      (Progress-refl s)

module _ (signed : Bool) (d : RdsData) (s : RdsState) (g : RdsGroup) where
  ps_send-Progress : Progress s (ps_send signed d s g).0
  unfolding ps_send
  ps_send-Progress =
      Pair-if (is_set d.af.num_afs) s _ _ (Progress-same s _ (refl, refl))
        (Progress-same s _ (refl, refl))

  pub get_rds_fasttuning_group-Progress : Progress s (get_rds_fasttuning_group d s g).0
  unfolding get_rds_fasttuning_group
  get_rds_fasttuning_group-Progress = Progress-same s _ (refl, refl)

  pub get_rds_ecc_group-Progress : Progress s (get_rds_ecc_group d s g).0
  unfolding get_rds_ecc_group
  get_rds_ecc_group-Progress = Progress-refl s

  pub get_rds_slcdata_group-Progress : Progress s (get_rds_slcdata_group d s g).0
  unfolding get_rds_slcdata_group
  get_rds_slcdata_group-Progress = Progress-refl s

  rt_load-Progress : Progress s (rt_load d s)
  unfolding rt_load
  rt_load-Progress =
      Progress-if (is_set s.rt_update && is_set d.rt_enabled) s _ s
        (record {
          ps_update = omega arith;
          tps_update = omega arith;
          rt_update = omega arith;
          ptyn_update = omega arith;
          lps_update = omega arith;
          rest = refl;
        })
        (Progress-refl s)

  lps_load-Progress : Progress s (lps_load d s)
  unfolding lps_load
  lps_load-Progress =
      Progress-if (s.lps_state == 0 && is_set s.lps_update) s _ s
        (record {
          ps_update = omega arith;
          tps_update = omega arith;
          rt_update = omega arith;
          ptyn_update = omega arith;
          lps_update = omega arith;
          rest = refl;
        })
        (Progress-refl s)

  ptyn_load-Progress : Progress s (ptyn_load d s)
  unfolding ptyn_load
  ptyn_load-Progress =
      Progress-if (s.ptyn_state == 0 && is_set s.ptyn_update) s _ s
        (record {
          ps_update = omega arith;
          tps_update = omega arith;
          rt_update = omega arith;
          ptyn_update = omega arith;
          lps_update = omega arith;
          rest = refl;
        })
        (Progress-refl s)

  rt_send-Progress : Progress s (rt_send signed s g).0
  unfolding rt_send
  rt_send-Progress = Progress-same s _ (refl, refl)

  lps_send-Progress : Progress s (lps_send signed s g).0
  unfolding lps_send
  lps_send-Progress = Progress-same s _ (refl, refl)

  ptyn_send-Progress : Progress s (ptyn_send signed s g).0
  unfolding ptyn_send
  ptyn_send-Progress = Progress-same s _ (refl, refl)

  pub eon_round-Progress : (eon : RdsEon) → Progress s (eon_round signed d eon s g).0
  unfolding eon_round eon_variant
  eon_round-Progress eon = Pair-if (leb s.eon_state 3) s _ _ (Progress-refl s) (
      Pair-if (s.eon_state == 4) s _ _ (Progress-same s _ (refl, refl)) (
        Pair-if (s.eon_state == 5) s _ _ (Progress-refl s)
          (Pair-if (s.eon_state == 6) s _ _ (Progress-refl s) (Progress-refl s))))

-- The groups, with the taking over of a new text.
module _ (signed : Bool) (d : RdsData) (s : RdsState) (g : RdsGroup) where
  pub ps_group-Progress : Progress s (ps_group signed d s g).0
  unfolding ps_group
  ps_group-Progress =
      Progress-trans s _ _ (ps_load-Progress d s) (ps_send-Progress signed d (ps_load d s) g)

  pub rt_group-Progress : Progress s (rt_group signed d s g).0
  unfolding rt_group
  rt_group-Progress =
      Progress-trans s _ _ (rt_load-Progress signed d s g)
        (rt_send-Progress signed d (rt_load d s) g)

  pub get_rds_lps_group-Progress : Progress s (get_rds_lps_group signed d s g).0
  unfolding get_rds_lps_group
  get_rds_lps_group-Progress =
      Progress-trans s _ _ (lps_load-Progress signed d s g)
        (lps_send-Progress signed d (lps_load d s) g)

  pub get_rds_ptyn_group-Progress : Progress s (get_rds_ptyn_group signed d s g).0
  unfolding get_rds_ptyn_group
  get_rds_ptyn_group-Progress =
      Progress-trans s _ _ (ptyn_load-Progress signed d s g)
        (ptyn_send-Progress signed d (ptyn_load d s) g)

-- The loop over the other networks, whatever its fuel.
eon_loop-Progress :
    (fuel : ℕ) (signed : Bool) (stray : RdsEon) (d : RdsData) (eon : RdsEon) (s : RdsState)
    (g : RdsGroup)
    → Progress s (eon_loop fuel signed stray d eon s g).0
unfolding eon_loop
eon_loop-Progress zero signed stray d eon s g = Progress-refl s
eon_loop-Progress (suc fuel) signed stray d eon s g =
    let (s', g') = eon_round signed d eon s g in
    let (index, eon') = next_network stray d 4 ((s'.eon_index + 1) % 2 ^ 3) eon in
    let next : RdsState = record s' { eon_index = index; eon_state = 0 } in
    let round = eon_round-Progress signed d s g eon in
    Pair-if (s'.eon_state == 6) s _ _
      (Progress-trans s next _ (Progress-trans s s' next round (Progress-same s' next (refl, refl)))
        (eon_loop-Progress fuel signed stray d eon' next g'))
      (Progress-trans s s' _ round (Progress-same s' _ (refl, refl)))

pub get_rds_eon_group-Progress :
    (stray : RdsEon) (signed : Bool) (d : RdsData) (s : RdsState) (g : RdsGroup)
    → Progress s (get_rds_eon_group stray signed d s g).0
unfolding get_rds_eon_group
get_rds_eon_group-Progress stray signed d s g = eon_loop-Progress 2 signed stray d _ s g
