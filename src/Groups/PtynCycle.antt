-- ===== src/Groups/PtynCycle.antt =====
-- The programme type name: what its two groups carry.
use rds.Common.{ℕ, ◌+◌, ◌*◌, ◌%◌, ◌^◌, ◌<◌, zero, suc, List, Bool, true, false, inl, inr}
use rds.Common.{◌≡◌, refl, ap, ◌∙◌, arith, ◌==◌, if◌then◌else◌, Bool-cases}
use rds.Common.{bit_or, bit_xor, bit_or_sum, bit_or_middle, zero-bit_or}
use rds.Model.{RdsData, RdsState, RdsGroup}
use package.rds.Groups.{is_set, text_block}
use package.rds.Groups.Ps.{blank}
use package.rds.Groups.Text.{ptyn_load, ptyn_send, get_rds_ptyn_group}

-- The group of the segment `k` of a name, with the A/B flag.
abbrev pub ptyn_segment : Bool → ℕ → List ℕ → ℕ → ℕ → RdsGroup
ptyn_segment signed pi text ab k = record {
  a = pi;
  b = 10 * 4096 + ab * 16 + k;
  c = text_block signed text (k * 4);
  d = text_block signed text (k * 4 + 2);
  is_type_b = 0;
}

ptyn_send_lem :
    (signed : Bool) (s : RdsState) (pi : ℕ)
    → s.ptyn_state < 2
    → s.ptyn_ab < 2
    → ptyn_send signed s (blank pi) ≡ (
      record s { ptyn_state = (s.ptyn_state + 1) % 2 },
      ptyn_segment signed pi s.ptyn_text s.ptyn_ab s.ptyn_state,
    )
unfolding ptyn_send
ptyn_send_lem signed s pi at ab =
    let k = s.ptyn_state in
    let word : bit_or (bit_or 0 (bit_or (10 * 2 ^ 12) k)) (s.ptyn_ab * 2 ^ 4)
        ≡ 10 * 4096 + s.ptyn_ab * 16 + k =
      omega (
        arith,
        zero-bit_or (bit_or (10 * 2 ^ 12) k),
        bit_or_sum 12 10 (10 * 2 ^ 12) k refl (omega arith),
        ap (λ (x : ℕ). bit_or x (s.ptyn_ab * 2 ^ 4)) {x = bit_or 0 (bit_or (10 * 2 ^ 12) k)}
            {y = 10 * 256 * 2 ^ 4 + k}
            (omega (
              arith,
              zero-bit_or (bit_or (10 * 2 ^ 12) k),
              bit_or_sum 12 10 (10 * 2 ^ 12) k refl (omega arith),
            )),
        bit_or_middle 4 10 k s.ptyn_ab 256 (omega arith)
            (bit_or_sum 8 10 (10 * 256) s.ptyn_ab refl (omega arith)),
      ) in
    let next : ((k + 1) % 2 == 2) ≡ false = ground arith in rw (word, next) refl

toggled : (ab : ℕ) → ab < 2 → bit_xor ab 1 ≡ (ab + 1) % 2
toggled zero h = refl
toggled (suc zero) h = refl
toggled (suc (suc ab)) h = absurd (omega arith)

-- The name and the flag that are sent from segment 0 on.
abbrev ptyn_text : RdsData → RdsState → List ℕ
ptyn_text d s = if is_set s.ptyn_update then d.ptyn else s.ptyn_text

abbrev ptyn_flag : RdsState → ℕ
ptyn_flag s = if is_set s.ptyn_update then (s.ptyn_ab + 1) % 2 else s.ptyn_ab

abbrev sending : RdsData → RdsState → ℕ → RdsState
sending d s k = record s {
  ptyn_state = k;
  ptyn_text = ptyn_text d s;
  ptyn_ab = ptyn_flag s;
  ptyn_update = 0;
}

ptyn_load_lem :
    (d : RdsData) (s : RdsState) → s.ptyn_state ≡ 0 → s.ptyn_ab < 2 → ptyn_load d s ≡ sending d s 0
unfolding ptyn_load
ptyn_load_lem d s first ab =
    let at : (s.ptyn_state == 0) ≡ true = ground arith in
    elim (Bool-cases (is_set s.ptyn_update)) [
      | inl new ↦
          rw (at, new)
            (λ i. record s {
              ptyn_state = first i;
              ptyn_text = d.ptyn;
              ptyn_ab = toggled s.ptyn_ab ab i;
              ptyn_update = 0;
            })
      | inr old ↦
          let none : s.ptyn_update ≡ 0 = ground arith in
          rw (at, old) (λ i. record s { ptyn_state = first i; ptyn_update = none i })
    ]

ptyn_flag-lt : (s : RdsState) → s.ptyn_ab < 2 → ptyn_flag s < 2
ptyn_flag-lt s h = ground arith

module _ (signed : Bool) (d : RdsData) (s : RdsState) (pi : ℕ) (ab : s.ptyn_ab < 2) where
  first_sent :
      s.ptyn_state ≡ 0
      → get_rds_ptyn_group signed d s (blank pi)
        ≡ (sending d s 1, ptyn_segment signed pi (ptyn_text d s) (ptyn_flag s) 0)
  unfolding get_rds_ptyn_group
  first_sent first =
      ap (λ x. ptyn_send signed x (blank pi)) (ptyn_load_lem d s first ab)
      ∙ ptyn_send_lem signed (sending d s 0) pi (omega arith) (ptyn_flag-lt s ab)

  second_sent :
      get_rds_ptyn_group signed d (sending d s 1) (blank pi)
      ≡ (sending d s 0, ptyn_segment signed pi (ptyn_text d s) (ptyn_flag s) 1)
  unfolding get_rds_ptyn_group ptyn_load
  second_sent = ptyn_send_lem signed (sending d s 1) pi (omega arith) (ptyn_flag-lt s ab)

-- From segment 0 on, two calls of `get_rds_ptyn_group` send both segments of one name, with one A/B
-- flag: those of the settings, with the flag toggled, if the name is marked as new, else those sent
-- before. Then the state is at segment 0 again, and keeps the flag.
pub ptyn_cycle :
    (signed : Bool) (d : RdsData) (s : RdsState) (pi : ℕ)
    → s.ptyn_state ≡ 0
    → s.ptyn_ab < 2
    → let text = if is_set s.ptyn_update then d.ptyn else s.ptyn_text in
      let ab = if is_set s.ptyn_update then (s.ptyn_ab + 1) % 2 else s.ptyn_ab in
      let (s1, g1) = get_rds_ptyn_group signed d s (blank pi) in
      let (s2, g2) = get_rds_ptyn_group signed d s1 (blank pi) in
      (g1 ≡ ptyn_segment signed pi text ab 0)
      × (g2 ≡ ptyn_segment signed pi text ab 1)
      × (s2.ptyn_state ≡ 0)
      × (s2.ptyn_ab ≡ ab)
      × (s2.ptyn_text ≡ text)
ptyn_cycle signed d s pi first ab =
    rw (first_sent signed d s pi ab first, second_sent signed d s pi ab)
      (refl, refl, refl, refl, refl)
