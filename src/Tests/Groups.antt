-- ===== src/Tests/Groups.antt =====
-- Groups of a programme, with no hooks.
use rds.Common.{ℕ, ◌≡◌, refl, List, [], ◌∷◌, arith, false, true, none}
use rds.Model.{RdsEncoder, zero_data, zero_state}
use rds.Lua.{Lua}
use rds.Common.{map}
use rds.Model.{zero_eon, RdsData, RdsState}
use rds.Groups.{text_block}
use rds.Common.{All}
use rds.Groups.Ps.{blank, IsByte}
use rds.Groups.PsCycle.{segments_sent, ps_groups, ps_cycle}
use rds.Groups.RtCycle.{rt_segment, rt_groups, rt_cycle}
use rds.Groups.Text.{get_rds_ptyn_group}
use rds.Groups.PtynCycle.{ptyn_cycle}
use rds.Groups.Eon.{eon_at, get_rds_eon_group}
use rds.Groups.Eon.Laws.{variant_block, eon_group_variant}

-- An interpreter without hooks.
abbrev pub silent : Lua
silent = record {
  Interp = Unit {0};
  Table = Unit {0};
  Fn = Unit {0};
  try_lock = λ _. true;
  hook_table = λ _ _. none;
  group_table = λ _. none;
  raw_len = λ _ _. 0;
  raw_get = λ _ _ _. none;
  rds2_function = λ _. none;
  pcall = λ _ w. w;
  pcall_group = λ _ _ w. (none, w);
  pcall_rds2 = λ _ _ w. (none, w);
}

-- "RDS 95  "
abbrev pub name : List ℕ
name = 0x52 ∷ 0x44 ∷ 0x53 ∷ 0x20 ∷ 0x39 ∷ 0x35 ∷ 0x20 ∷ 0x20 ∷ []

abbrev pub named : RdsEncoder
named = record {
  settings = record zero_data { ps = name } ∷ [];
  state = record zero_state { ps_update = 1 } ∷ [];
  program = 0;
  streams = 1;
}

pub name-IsByte : All IsByte name
name-IsByte = (
  omega arith,
  (
    omega arith,
    (omega arith, (omega arith, (omega arith, (omega arith, (omega arith, (omega arith, tt)))))),
  ),
)

ps_cycle_example :
    segments_sent (ps_groups silent false 0 4 (named, tt))
    ≡ (0, 0x5244) ∷ (1, 0x5320) ∷ (2, 0x3935) ∷ (3, 0x2020) ∷ []
unfolding text_block
ps_cycle_example =
    ps_cycle silent false (named, tt) 0 (omega arith) refl (omega arith) (omega arith) name-IsByte

-- "HELLO" and its end, in two segments.
abbrev pub worded : RdsEncoder
worded = record {
  settings =
      record zero_data {
        rt = 0x48 ∷ 0x45 ∷ 0x4c ∷ 0x4c ∷ 0x4f ∷ 0x0d ∷ 0x20 ∷ 0x20 ∷ [];
        rt_enabled = 1;
      }
      ∷ [];
  state = record zero_state { rt_update = 1; rt_ab = 1; rt_segments = 2; rt_state = 1 } ∷ [];
  program = 0;
  streams = 1;
}

pub worded-IsByte : All IsByte (0x48 ∷ 0x45 ∷ 0x4c ∷ 0x4c ∷ 0x4f ∷ 0x0d ∷ 0x20 ∷ 0x20 ∷ [])
worded-IsByte = (
  omega arith,
  (
    omega arith,
    (omega arith, (omega arith, (omega arith, (omega arith, (omega arith, (omega arith, tt)))))),
  ),
)

rt_cycle_example :
    map rt_segment (rt_groups silent false 0 2 (worded, tt))
    ≡ record { ab = 1; address = 0; first = 0x4845; second = 0x4c4c }
      ∷ record { ab = 1; address = 1; first = 0x4f0d; second = 0x2020 }
      ∷ []
unfolding text_block
rt_cycle_example =
    rt_cycle silent false (worded, tt) 0 (omega arith) (omega arith) (omega arith) (omega arith)
      (omega arith) worded-IsByte

-- Two other networks.
abbrev networks : RdsData
networks = record zero_data {
  eon =
      record zero_eon { pi = 0x3001; enabled = 1; tp = 1; ps = name; word = 0x1234; pty = 3 }
      ∷ zero_eon
      ∷ record zero_eon { pi = 0x3002; enabled = 1; ps = name }
      ∷ zero_eon
      ∷ [];
}

eon_group_variant_example :
    let r =
      get_rds_eon_group zero_eon false networks (record zero_state { eon_state = 5 }) (blank 0) in
    (r.1.b ≡ 0xe01d)
    × (r.1.c ≡ 0x1800)
    × (r.1.d ≡ 0x3001)
    × (r.0.eon_state ≡ 6)
    × (r.0.eon_index ≡ 0)
unfolding eon_at variant_block
eon_group_variant_example =
    eon_group_variant zero_eon false networks (record zero_state { eon_state = 5 }) 0 (omega arith)
      (omega arith)

ptyn_cycle_example :
    let d : RdsData = record zero_data { ptyn = name } in
    let s : RdsState = record zero_state { ptyn_update = 1; ptyn_ab = 1 } in
    let (s1, g1) = get_rds_ptyn_group false d s (blank 7) in
    let (s2, g2) = get_rds_ptyn_group false d s1 (blank 7) in
    (g1 ≡ record { a = 7; b = 0xa000; c = 0x5244; d = 0x5320; is_type_b = 0 })
    × (g2 ≡ record { a = 7; b = 0xa001; c = 0x3935; d = 0x2020; is_type_b = 0 })
    × (s2.ptyn_state ≡ 0)
    × (s2.ptyn_ab ≡ 0)
    × (s2.ptyn_text ≡ name)
unfolding text_block
ptyn_cycle_example =
    ptyn_cycle false (record zero_data { ptyn = name })
      (record zero_state { ptyn_update = 1; ptyn_ab = 1 }) 7 refl (omega arith)
