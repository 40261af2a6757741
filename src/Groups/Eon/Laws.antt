-- ===== src/Groups/Eon/Laws.antt =====
-- What the groups about other networks carry, variant by variant.
use rds.Common.{ℕ, suc, ◌+◌, ◌*◌, ◌%◌, ◌^◌, ◌≤◌, ◌<◌, Bool, false}
use rds.Common.{◌≡◌, ◌≢◌, refl, ap, arith, ◌==◌, leb, if◌then◌else◌}
use rds.Common.{get_or, bit_or, zero-bit_or, bit_or_sum}
use rds.Model.{RdsData, RdsState, RdsEon, RdsGroup}
use rds.Af.{get_next_af_eon}
use package.rds.Groups.{is_set, text_block}
use package.rds.Groups.Ps.{blank}
use package.rds.Groups.Eon.{eon_at, eon_round, eon_loop, get_rds_eon_group}

-- The variant code and block C that belong to the state of the transmission: four blocks of the
-- name, the frequencies, the programme type with the announcement flag, the linkage word.
abbrev pub variant_code : ℕ → ℕ
variant_code state = if leb state 4 then state else if state == 5 then 13 else 15

unfoldable pub variant_block : Bool → RdsData → RdsEon → RdsState → ℕ
variant_block signed d eon s =
    if leb s.eon_state 3
    then text_block signed eon.ps (s.eon_state * 2)
    else if s.eon_state == 4
    then (get_next_af_eon d.af.num_afs eon.af (get_or s.eon_states s.eon_index 0)).0
    else if s.eon_state == 5
    then (let word = eon.pty * 2 ^ 11 % 2 ^ 16 in
        if is_set eon.tp then bit_or word eon.ta else word)
    else eon.word

-- One round ORs the variant code into block B and sets block C and block D.
eon_round_lem :
    (signed : Bool) (d : RdsData) (eon : RdsEon) (s : RdsState) (g : RdsGroup)
    → s.eon_state ≤ 6
    → let r = eon_round signed d eon s g in
      (r.1.b
        ≡ bit_or (bit_or (bit_or g.b (14 * 2 ^ 12)) (eon.tp * 2 ^ 4)) (variant_code s.eon_state))
      × (r.1.c ≡ variant_block signed d eon s)
      × (r.1.d ≡ eon.pi)
      × (r.0.eon_state ≡ s.eon_state)
      × (r.0.eon_index ≡ s.eon_index)
unfolding eon_round variant_block
eon_round_lem signed d eon s g h = ground arith

eon_loop_done :
    (fuel : ℕ) (signed : Bool) (stray : RdsEon) (d : RdsData) (eon : RdsEon) (s : RdsState)
    (g : RdsGroup)
    → (eon_round signed d eon s g).0.eon_state ≢ 6
    → eon_loop (suc fuel) signed stray d eon s g ≡ (
        let (s', g') = eon_round signed d eon s g in
        (record s' { eon_state = (s'.eon_state + 1) % 2 ^ 4 }, g'))
unfolding eon_loop
eon_loop_done fuel signed stray d eon s g ne =
    let other : ((eon_round signed d eon s g).0.eon_state == 6) ≡ false = ground arith in rw other

variant_code-lt : (state : ℕ) → variant_code state < 16
variant_code-lt state = ground arith

-- In the states 0 to 5 the group carries the variant of the state: block B has group type 14, the
-- flag of the other network and the variant code, block C what belongs to it, block D the other
-- network's PI; the state moves on by one and the network stays.
pub eon_group_variant :
    (stray : RdsEon) (signed : Bool) (d : RdsData) (s : RdsState) (pi : ℕ)
    → s.eon_state ≤ 5
    → (eon_at stray d s.eon_index).tp < 2
    → let eon = eon_at stray d s.eon_index in
      let r = get_rds_eon_group stray signed d s (blank pi) in
      (r.1.b ≡ 14 * 4096 + eon.tp * 16 + variant_code s.eon_state)
      × (r.1.c ≡ variant_block signed d eon s)
      × (r.1.d ≡ eon.pi)
      × (r.0.eon_state ≡ s.eon_state + 1)
      × (r.0.eon_index ≡ s.eon_index)
unfolding get_rds_eon_group
eon_group_variant stray signed d s pi h tp =
    let eon = eon_at stray d s.eon_index in
    let (b, c, pi', state, index) = eon_round_lem signed d eon s (blank pi) (omega arith) in
    let code = variant_code s.eon_state in
    rw (eon_loop_done 1 signed stray d eon s (blank pi) (omega (arith, state))) (
      omega (
        arith,
        b,
        zero-bit_or (14 * 2 ^ 12),
        ap (λ (t : ℕ). bit_or (bit_or t (eon.tp * 2 ^ 4)) code) (zero-bit_or (14 * 2 ^ 12)),
        ap (λ (t : ℕ). bit_or t code)
            (bit_or_sum 12 14 (14 * 2 ^ 12) (eon.tp * 2 ^ 4) refl (omega arith)),
        bit_or_sum 4 (3584 + eon.tp) (14 * 2 ^ 12 + eon.tp * 2 ^ 4) code (omega arith)
            (variant_code-lt s.eon_state),
      ),
      c,
      pi',
      omega (arith, state),
      index,
    )
