-- ===== src/Groups/Text.antt =====
-- The groups that carry a longer text: radiotext, long programme name, programme type name.
use rds.Common.{◌+◌, ◌*◌, ◌%◌, ◌^◌, Bool, ◌==◌, if◌then◌else◌}
use rds.Common.{leb, ◌&&◌, ◌||◌, bit_or, bit_xor}
use rds.Model.{RdsData, RdsState, RdsGroup, state_at, put_state}
use rds.Lua.{Lua, World, lua_call_tfunction, rt_transmission}
use package.rds.Groups.{is_set, text_block, on_air}

-- `get_rds_rt_group` up to the hook: a new text starts at segment 0, also in the middle of the old.
unfoldable pub rt_load : RdsData → RdsState → RdsState
rt_load d s =
    if is_set s.rt_update && is_set d.rt_enabled
    then record s { rt_text = d.rt; rt_update = 0; rt_state = 0 }
    else s

unfoldable pub rt_send : Bool → RdsState → RdsGroup → RdsState × RdsGroup
rt_send signed s g =
    let b1 = bit_or g.b (2 * 2 ^ 12) in
    let b2 = bit_or b1 (s.rt_ab * 2 ^ 4) in
    (
      record s { rt_state = (s.rt_state + 1) % 2 ^ 5 },
      record g {
        b = bit_or b2 s.rt_state;
        c = text_block signed s.rt_text (s.rt_state * 4);
        d = text_block signed s.rt_text (s.rt_state * 4 + 2);
      },
    )

unfoldable pub rt_group : Bool → RdsData → RdsState → RdsGroup → RdsState × RdsGroup
rt_group signed d s g = rt_send signed (rt_load d s) g

-- All segments of the text are sent.
unfoldable pub rt_done : RdsState → Bool
rt_done s = leb s.rt_segments s.rt_state || leb 16 s.rt_state

module _ (L : Lua) where
  unfoldable pub get_rds_rt_group : Bool → World L → RdsGroup → World L × RdsGroup
  get_rds_rt_group signed w g =
      let (enc, g') = on_air (rt_group signed) w.0 g in
      let hooked = lua_call_tfunction L rt_transmission (enc, w.1) in
      let p = hooked.0.program in
      let s = state_at hooked.0 p in
      if rt_done (state_at enc enc.program)
      then ((put_state hooked.0 p (record s { rt_state = 0 }), hooked.1), g')
      else ((enc, w.1), g')

-- `get_rds_lps_group`
unfoldable pub lps_load : RdsData → RdsState → RdsState
lps_load d s =
    if s.lps_state == 0 && is_set s.lps_update
    then record s { lps_text = d.lps; lps_update = 0 }
    else s

unfoldable pub lps_send : Bool → RdsState → RdsGroup → RdsState × RdsGroup
lps_send signed s g =
    let next = (s.lps_state + 1) % 2 ^ 4 in
    (
      record s { lps_state = if leb s.lps_segments next then 0 else next },
      record g {
        b = bit_or g.b (bit_or (15 * 2 ^ 12) s.lps_state);
        c = text_block signed s.lps_text (s.lps_state * 4);
        d = text_block signed s.lps_text (s.lps_state * 4 + 2);
      },
    )

unfoldable pub get_rds_lps_group : Bool → RdsData → RdsState → RdsGroup → RdsState × RdsGroup
get_rds_lps_group signed d s g = lps_send signed (lps_load d s) g

-- `get_rds_ptyn_group`. A new text toggles the A/B flag; the segment counter has one bit.
unfoldable pub ptyn_load : RdsData → RdsState → RdsState
ptyn_load d s =
    if s.ptyn_state == 0 && is_set s.ptyn_update
    then record s { ptyn_text = d.ptyn; ptyn_ab = bit_xor s.ptyn_ab 1; ptyn_update = 0 }
    else s

unfoldable pub ptyn_send : Bool → RdsState → RdsGroup → RdsState × RdsGroup
ptyn_send signed s g =
    let b1 = bit_or g.b (bit_or (10 * 2 ^ 12) s.ptyn_state) in
    let next = (s.ptyn_state + 1) % 2 ^ 1 in
    (
      record s { ptyn_state = if next == 2 then 0 else next },
      record g {
        b = bit_or b1 (s.ptyn_ab * 2 ^ 4);
        c = text_block signed s.ptyn_text (s.ptyn_state * 4);
        d = text_block signed s.ptyn_text (s.ptyn_state * 4 + 2);
      },
    )

unfoldable pub get_rds_ptyn_group : Bool → RdsData → RdsState → RdsGroup → RdsState × RdsGroup
get_rds_ptyn_group signed d s g = ptyn_send signed (ptyn_load d s) g
