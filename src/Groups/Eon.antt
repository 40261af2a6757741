-- ===== src/Groups/Eon.antt =====
-- `get_rds_eon_group` of src/rds_groups.c: the variants of the information on other networks.
pub mod Laws
use rds.Common.{ℕ, zero, suc, ◌+◌, ◌*◌, ◌%◌, ◌^◌, Bool, ◌==◌, if◌then◌else◌, ltb, leb}
use rds.Common.{get_or, set, bit_or}
use rds.Model.{RdsData, RdsState, RdsEon, RdsGroup, eons}
use rds.Af.{get_next_af_eon}
use package.rds.Groups.{is_set, text_block}

-- `enc->data[enc->program].eon[i]`. The index reaches 4, one past the array: what the machine reads
-- there is the parameter `stray`.
unfoldable pub eon_at : RdsEon → RdsData → ℕ → RdsEon
eon_at stray d i = if ltb i eons then get_or d.eon i stray else stray

-- The block C and the low bits of block B of the variant `s.eon_state`, with the new state.
unfoldable pub eon_variant : Bool → RdsData → RdsEon → RdsState → RdsGroup → RdsState × RdsGroup
eon_variant signed d eon s g =
    let variant = s.eon_state in
    let af_state = get_or s.eon_states s.eon_index 0 in
    let (af_block, af_state') = get_next_af_eon d.af.num_afs eon.af af_state in
    if leb variant 3
    then (s, record g { c = text_block signed eon.ps (variant * 2); b = bit_or g.b variant })
    else if variant == 4
    then (
      record s { eon_states = set s.eon_states s.eon_index af_state' },
      record g { c = af_block; b = bit_or g.b variant },
    )
    else if variant == 5
    then (
      s,
      record g {
        c =
            let word = eon.pty * 2 ^ 11 % 2 ^ 16 in
            if is_set eon.tp then bit_or word eon.ta else word;
        b = bit_or g.b 13;
      },
    )
    else if variant == 6
    then (s, record g { c = eon.word; b = bit_or g.b 15 })
    else (s, g)

-- `while (i < 4 && !eon[eon_index].enabled) { ... }` with `4 - i` rounds left: the new index, and
-- the network that the loop has read last.
unfoldable pub next_network : RdsEon → RdsData → ℕ → ℕ → RdsEon → ℕ × RdsEon
unfolding eon_at
next_network stray d zero index eon = (index, eon)
next_network stray d (suc left) index eon =
    let up = (index + 1) % 2 ^ 3 in
    let index' = if leb eons up then 0 else up in
    let rest = next_network stray d left index' (eon_at stray d index') in
    if is_set (eon_at stray d index).enabled then (index, eon) else rest

-- One round of `while (1)`, up to the `break`, on the network `eon`.
unfoldable pub eon_round : Bool → RdsData → RdsEon → RdsState → RdsGroup → RdsState × RdsGroup
unfolding eon_variant
eon_round signed d eon s g =
    let b1 = bit_or (bit_or g.b (14 * 2 ^ 12)) (eon.tp * 2 ^ 4) in
    let (s', g') = eon_variant signed d eon s (record g { b = b1 }) in
    (s', record g' { d = eon.pi })

-- The loop: after variant 6 the next network is chosen and a second round made, with the variant 0,
-- in the same group. `fuel` is the number of rounds; two are enough.
unfoldable pub eon_loop :
    ℕ → Bool → RdsEon → RdsData → RdsEon → RdsState → RdsGroup → RdsState × RdsGroup
eon_loop zero signed stray d eon s g = (s, g)
eon_loop (suc fuel) signed stray d eon s g =
    let (s', g') = eon_round signed d eon s g in
    let (index, eon') = next_network stray d 4 ((s'.eon_index + 1) % 2 ^ 3) eon in
    let again =
      eon_loop fuel signed stray d eon' (record s' { eon_index = index; eon_state = 0 }) g' in
    if s'.eon_state == 6 then again else (record s' { eon_state = (s'.eon_state + 1) % 2 ^ 4 }, g')

unfoldable pub get_rds_eon_group :
    RdsEon → Bool → RdsData → RdsState → RdsGroup → RdsState × RdsGroup
unfolding eon_loop
get_rds_eon_group stray signed d s g = eon_loop 2 signed stray d (eon_at stray d s.eon_index) s g
