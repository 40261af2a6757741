-- ===== src/Groups.antt =====
-- src/rds_groups.c: one function for each kind of group. Each works on the settings and the state
-- of the programme on the air; `on_air` lifts it to the encoder.
pub mod Ps
pub mod PsCycle
pub mod RtCycle
pub mod Text
pub mod PtynCycle
pub mod Eon
pub mod Clock
pub mod Custom
pub mod Progress
use rds.Common.{ℕ, ◌+◌, ◌*◌, ◌%◌, ◌^◌, List, Bool, true, false, ◌==◌, if◌then◌else◌}
use rds.Common.{leb, not, ◌&&◌, ◌||◌, get_or, bit_or, bit_xor}
use rds.Model.{RdsData, RdsState, RdsEncoder, RdsGroup, data_at, state_at, put_state}
use rds.Model.Char.{char_pair}
use rds.Lua.{Lua, World, lua_call_tfunction, ps_transmission, rt_transmission}
use rds.Af.{get_next_af}

-- `x != 0`
abbrev pub is_set : ℕ → Bool
is_set x = not (x == 0)

-- The block at the characters `i` and `i + 1` of a text.
unfoldable pub text_block : Bool → List ℕ → ℕ → ℕ
unfolding char_pair
text_block signed text i = char_pair signed (get_or text i 0) (get_or text (i + 1) 0)

-- An operation of the programme on the air that makes a group.
abbrev pub on_air :
    (RdsData → RdsState → RdsGroup → RdsState × RdsGroup)
    → RdsEncoder
    → RdsGroup
    → RdsEncoder × RdsGroup
on_air f enc g =
    let (s, g') = f (data_at enc enc.program) (state_at enc enc.program) g in
    (put_state enc enc.program s, g')

-- The first half of `get_rds_ps_group`: new texts are taken over before segment 0.
unfoldable pub ps_load : RdsData → RdsState → RdsState
ps_load d s =
    if s.ps_csegment == 0
    then record s {
      ps_text = if is_set s.ps_update then d.ps else s.ps_text;
      ps_update = 0;
      tps_text = if is_set s.tps_update then d.tps else s.tps_text;
      tps_update = 0;
    }
    else s

-- The rest of it, up to the hook: the group, and the segment counter, which has three bits.
unfoldable pub ps_send : Bool → RdsData → RdsState → RdsGroup → RdsState × RdsGroup
ps_send signed d s g =
    let seg = s.ps_csegment in
    let b1 = bit_or g.b (d.ta * 2 ^ 4) in
    let b2 = if seg == 0 then bit_or b1 (d.dpty * 2 ^ 2) else b1 in
    let b3 = bit_or b2 seg in
    let (c, af_state) = get_next_af d.af s.af_state in
    let traffic = is_set d.ta && is_set (get_or s.tps_text 0 0) in
    let block = text_block signed (if traffic then s.tps_text else s.ps_text) (seg * 2) in
    let s' = record s { ps_csegment = (seg + 1) % 2 ^ 3 } in
    if is_set d.af.num_afs
    then (record s' { af_state = af_state }, record g { b = b3; c = c; d = block })
    else (s', record g { b = bit_or b3 (1 * 2 ^ 11); d = block; is_type_b = 1 })

unfoldable pub ps_group : Bool → RdsData → RdsState → RdsGroup → RdsState × RdsGroup
ps_group signed d s g = ps_send signed d (ps_load d s) g

module _ (L : Lua) where
  -- After segment 3 the hook runs, and then the counter of the programme that is now on the air
  -- is reset.
  unfoldable pub get_rds_ps_group : Bool → World L → RdsGroup → World L × RdsGroup
  get_rds_ps_group signed w g =
      let (enc, g') = on_air (ps_group signed) w.0 g in
      let hooked = lua_call_tfunction L ps_transmission (enc, w.1) in
      let p = hooked.0.program in
      let s = state_at hooked.0 p in
      if (state_at enc enc.program).ps_csegment == 4
      then ((put_state hooked.0 p (record s { ps_csegment = 0 }), hooked.1), g')
      else ((enc, w.1), g')

-- `get_rds_fasttuning_group`
unfoldable pub get_rds_fasttuning_group : RdsData → RdsState → RdsGroup → RdsState × RdsGroup
get_rds_fasttuning_group d s g =
    let b1 = bit_or (bit_or g.b (15 * 2 ^ 12)) (1 * 2 ^ 11) in
    let b2 = bit_or b1 (d.ta * 2 ^ 4) in
    let b3 = if s.fasttuning_state == 0 then bit_or b2 (d.dpty * 2 ^ 2) else b2 in
    let b4 = bit_or b3 s.fasttuning_state in
    let next = (s.fasttuning_state + 1) % 2 ^ 3 in
    (
      record s { fasttuning_state = if next == 4 then 0 else next },
      record g { b = b4; d = b4; is_type_b = 1 },
    )

-- `get_rds_ecc_group`
unfoldable pub get_rds_ecc_group : RdsData → RdsState → RdsGroup → RdsState × RdsGroup
get_rds_ecc_group d s g =
    (s, record g { b = bit_or g.b (1 * 2 ^ 12); c = bit_or (s.eon_linkage * 2 ^ 15) d.ecc })

-- `get_rds_slcdata_group`
unfoldable pub get_rds_slcdata_group : RdsData → RdsState → RdsGroup → RdsState × RdsGroup
get_rds_slcdata_group d s g = (
  s,
  record g {
    b = bit_or g.b (1 * 2 ^ 12);
    c = bit_or (bit_or (s.eon_linkage * 2 ^ 15) 0x6000) d.slc_data;
  },
)
