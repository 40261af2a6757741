-- ===== src/Tests/Switch.antt =====
-- A hook that puts another programme on the air, and two other networks in a row.
use rds.Common.{◌≡◌, refl, [], ◌∷◌, some, false}
use rds.Model.{RdsEncoder, RdsData, zero_data, zero_state, zero_eon, state_at}
use rds.Lua.{Lua, lua_call_tfunction, lua_call_tfunction_nolock, call_entries}
use rds.Groups.{get_rds_ps_group, ps_group, ps_load, ps_send, text_block}
use rds.Groups.Eon.{eon_at, next_network, get_rds_eon_group, eon_loop, eon_round, eon_variant}
use rds.Groups.Ps.{blank}
use package.rds.Tests.Groups.{silent, name}

-- Each hook puts programme 1 on the air.
abbrev switching : Lua
switching = record silent {
  hook_table = λ _ _. some tt;
  raw_len = λ _ _. 1;
  raw_get = λ _ _ _. some tt;
  pcall = λ _ (enc, i). (record enc { program = 1 }, i);
}

abbrev at_last : RdsEncoder
at_last = record {
  settings = record zero_data { ps = name } ∷ zero_data ∷ [];
  state = record zero_state { ps_text = name; ps_csegment = 3 } ∷ zero_state ∷ [];
  program = 0;
  streams = 1;
}

-- The counter of the old programme stays behind the last segment.
counter_left :
    let (w, g) = get_rds_ps_group switching false (at_last, tt) (blank 7) in
    (w.0.program ≡ 1) × ((state_at w.0 0).ps_csegment ≡ 4) × (g.d ≡ 0x2020)
unfolding get_rds_ps_group ps_group ps_load ps_send text_block lua_call_tfunction
    lua_call_tfunction_nolock call_entries
counter_left = (refl, refl, refl)

abbrev neighbours : RdsData
neighbours = record zero_data {
  eon =
      record zero_eon { pi = 0x3001; enabled = 1; ps = name }
      ∷ record zero_eon { pi = 0x3002; enabled = 1 }
      ∷ zero_eon
      ∷ zero_eon
      ∷ [];
}

-- The second network is next, but the first one's name is sent again, and the second one starts at
-- segment 1.
first_segment_skipped :
    let (s, g) =
      get_rds_eon_group zero_eon false neighbours (record zero_state { eon_state = 6 }) (blank 0) in
    (s.eon_index ≡ 1) × (s.eon_state ≡ 1) × (g.d ≡ 0x3001) × (g.c ≡ 0x5244)
unfolding get_rds_eon_group eon_loop eon_round eon_variant eon_at next_network text_block
first_segment_skipped = (refl, refl, refl, refl)
