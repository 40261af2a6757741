-- ===== src/Tests/Cycle.antt =====
-- A sequence of two entries, of which the second one has nothing to send.
use rds.Common.{ℕ, ◌+◌, ◌≡◌, ◌≤◌, refl, arith, [], ◌∷◌, false}
use rds.Model.{RdsData, RdsEncoder, zero_data, zero_state, zero_eon}
use rds.Lua.Keeps.{HooksKeep}
use rds.Groups.Ps.{blank}
use rds.Sequence.{stream0_group}
use rds.Sequence.Cycle.{AtEntry, stream0_steps, entry_group, stream0_group_cycle, entry_served}
use package.rds.Tests.Groups.{silent, name}

-- PS and radiotext, stored with the length 1.
abbrev two_kinds : RdsData
two_kinds = record zero_data { ps = name; grp_sqc_len = 1; grp_sqc = 0 ∷ 4 ∷ [] }

abbrev airing : RdsEncoder
airing = record { settings = two_kinds ∷ []; state = zero_state ∷ []; program = 0; streams = 1 }

airing-AtEntry : AtEntry 0 two_kinds 0 airing
airing-AtEntry = record {
  programme = refl;
  in_range = omega arith;
  settings = refl;
  index = refl;
  buffer = omega arith;
}

silent-HooksKeep : (k : ℕ) → HooksKeep silent (AtEntry 0 two_kinds k)
silent-HooksKeep k = record {
  pcall = λ f w p. p;
  pcall_group = λ f grp w p. p;
  pcall_rds2 = λ f stream w p. p;
}

stream0_group_cycle_example :
    let w' = stream0_steps silent false zero_eon (blank 7) 5 (airing, tt) in
    stream0_group silent false zero_eon w' (blank 7)
    ≡ entry_group silent false zero_eon two_kinds 1 w' (blank 7)
stream0_group_cycle_example =
    stream0_group_cycle silent false zero_eon 0 two_kinds silent-HooksKeep 5 (airing, tt) (blank 7)
      (omega arith) airing-AtEntry

entry_served_example :
    (m : ℕ) × (m ≤ 1)
    × (let w' = stream0_steps silent false zero_eon (blank 7) (6 + m) (airing, tt) in
        stream0_group silent false zero_eon w' (blank 7)
        ≡ entry_group silent false zero_eon two_kinds 1 w' (blank 7))
entry_served_example =
    entry_served silent false zero_eon 0 two_kinds silent-HooksKeep 6 1 (airing, tt) (blank 7)
      (omega arith) (omega arith) airing-AtEntry
