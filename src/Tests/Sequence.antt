-- ===== src/Tests/Sequence.antt =====
-- Groups of the sequence, on stream 0 and repeated on another stream.
use rds.Common.{◌≡◌, refl, [], ◌∷◌, arith, false, some}
use rds.Model.{RdsEncoder, RdsGroup, zero_data, zero_state, zero_eon}
use rds.Lua.{Lua, lua_call_tfunction, lua_call_tfunction_nolock}
use rds.Lua.{boolean, other}
use rds.Groups.{text_block, get_rds_ps_group, ps_group, ps_load, ps_send}
use rds.Groups.Custom.{get_rds_custom_groups}
use rds.Groups.Clock.{Tm}
use rds.Sequence.{get_rds_group, clock_hooks, stream0_group, finish_group, get_rds_sequence_group}
use rds.Sequence.{check_rds_good_group}
use rds.Sequence.Laws.{Finished, get_rds_group-Finished}
use package.rds.Tests.Groups.{silent}

-- Half past noon, second 7.
abbrev pub noon : Tm
noon = record {
  sec = 7;
  min = 30;
  hour = 12;
  mday = 1;
  mon = 0;
  year = 125;
  west = false;
  gmtoff = 0;
}

-- The programme type 10, and TP, on the air with the name "RDS".
abbrev ready : RdsEncoder
ready = record {
  settings =
      record zero_data { pi = 0x3000; ps = 0x52 ∷ 0x44 ∷ 0x53 ∷ 0x20 ∷ []; pty = 10; tp = 1 } ∷ [];
  state = record zero_state { ps_update = 1; last_second = 7; last_minute = 30 } ∷ [];
  program = 0;
  streams = 2;
}

ready_group :
    let g = (get_rds_group silent false zero_eon noon 0 (ready, tt)).1 in
    (g.a ≡ 0x3000) × (g.b ≡ 0x0d40) × (g.c ≡ 0x3000) × (g.d ≡ 0x5244) × (g.is_type_b ≡ 1)
unfolding get_rds_group clock_hooks stream0_group finish_group get_rds_sequence_group
    get_rds_ps_group ps_group ps_load ps_send text_block lua_call_tfunction
    lua_call_tfunction_nolock get_rds_custom_groups check_rds_good_group
ready_group = (refl, refl, refl, refl, refl)

get_rds_group-Finished_example :
    let (w', g) = get_rds_group silent false zero_eon noon 0 (ready, tt) in Finished w'.0 g
unfolding get_rds_group clock_hooks stream0_group finish_group get_rds_sequence_group
    get_rds_ps_group ps_group ps_load ps_send lua_call_tfunction lua_call_tfunction_nolock
    get_rds_custom_groups check_rds_good_group
get_rds_group-Finished_example =
    get_rds_group-Finished silent false zero_eon noon (ready, tt) (omega arith)

-- An interpreter in use by another thread, whose RDS2 hook answers that it has no group.
abbrev busy : Lua
busy = record silent {
  try_lock = λ _. false;
  rds2_function = λ _. some tt;
  pcall_rds2 = λ _ _ w. (some (boolean false, other, other, other, other), w);
}

abbrev sent : RdsEncoder
sent = record ready {
  state =
      record zero_state {
        last_second = 7;
        last_minute = 30;
        last_stream0_group = 0x0d40 ∷ 0x3000 ∷ 0x5244 ∷ [];
        last_stream0_group_type_b = 1;
      }
      ∷ [];
}

abbrev first : RdsGroup
first = record { a = 0x3000; b = 0x0d40; c = 0x3000; d = 0x5244; is_type_b = 1 }
