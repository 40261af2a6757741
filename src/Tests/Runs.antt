-- ===== src/Tests/Runs.antt =====
-- Three groups after a reset, with a script that puts two streams on the air in every hook.
use rds.Common.{refl, ℕ, arith, [], ◌∷◌, true, some, none}
use rds.Model.{RdsEncoder, zero_eon, zero_encoder}
use rds.Lua.{Lua, World}
use rds.Reset.{reset_rds_state, set_rds_defaults}
use rds.Api.Start.{set_rds_defaults-IsEncoder, zero_encoder-IsEncoder}
use rds.System.Bounds.{OnText}
use rds.Common.{List, ◌≡◌}
use rds.Lua.Keeps.{HooksKeep}
use rds.Ipc.{IpcClient}
use rds.Tcp.{would_block}
use rds.Main.{no_net}
use rds.Rds95.{ascii_round}
use rds.Rds95.Modulator.{send_round}
use rds.Rds95.Rounds.{FewStreams, rounds_end, HasStreams, all_sent, all_printed, streams_in_order}
use rds.System.Runs.{groups_sent, reset_rds_state-stays_OnText}
use package.rds.Tests.Groups.{silent}
use package.rds.Tests.Sequence.{noon}

abbrev widened : World silent → World silent
widened (enc, i) = (record enc { streams = 2 }, i)

widened-OnText : (a b : ℕ) (w : World silent) → OnText a b w.0 → OnText a b (widened w).0
widened-OnText a b (enc, i) v = record {
  encoder = record {
    programmes = v.encoder.programmes;
    settings = v.encoder.settings;
    states = v.encoder.states;
    state = v.encoder.state;
    program = v.encoder.program;
    streams = omega arith;
  };
  on_air = v.on_air;
}

abbrev widening : Lua
widening = record silent {
  hook_table = λ _ _. some tt;
  group_table = λ _. some tt;
  raw_len = λ _ _. 2;
  raw_get = λ _ _ _. some tt;
  rds2_function = λ _. some tt;
  pcall = λ _ w. widened w;
  pcall_group = λ _ _ w. (none, widened w);
  pcall_rds2 = λ _ _ w. (none, widened w);
}

abbrev fresh : RdsEncoder
fresh = set_rds_defaults noon zero_encoder 0

reset_rds_state-stays_OnText_example :
    OnText 3 15
      (groups_sent widening true zero_eon
        ((noon, 0) ∷ (noon, 1) ∷ (noon, 0) ∷ [])
        (reset_rds_state noon fresh fresh.program, tt)).0
reset_rds_state-stays_OnText_example =
    reset_rds_state-stays_OnText widening true zero_eon noon fresh tt
      ((noon, 0) ∷ (noon, 1) ∷ (noon, 0) ∷ [])
      (λ a b. record {
        pcall = λ f w v. widened-OnText a b w v;
        pcall_group = λ f grp w v. widened-OnText a b w v;
        pcall_rds2 = λ f stream w v. widened-OnText a b w v;
      })
      (set_rds_defaults-IsEncoder noon zero_encoder 0 zero_encoder-IsEncoder)

-- The loops over the streams, which the script makes two.
widening-HooksKeep : HooksKeep widening FewStreams
widening-HooksKeep = record {
  pcall = λ f w few. omega arith;
  pcall_group = λ f grp w few. omega arith;
  pcall_rds2 = λ f stream w few. omega arith;
}

rounds_end_run :
    let w : World widening = (fresh, tt) in
    let client : IpcClient = record { connected = true; prev_output = 0 ∷ 0 ∷ 0 ∷ 0 ∷ [] } in
    let io : ℕ → ℕ × List ℕ = λ _. (15, 112 ∷ 0 ∷ []) in
    (send_round widening true zero_eon 13 noon io 0 (w, client)
      ≡ send_round widening true zero_eon 8 noon io 0 (w, client))
    × (ascii_round widening true zero_eon 13 noon (λ _. would_block) 0 (w, no_net)
        ≡ ascii_round widening true zero_eon 8 noon (λ _. would_block) 0 (w, no_net))
unfolding set_rds_defaults reset_rds_state
rounds_end_run =
    rounds_end widening true zero_eon widening-HooksKeep 5 noon (λ _. (15, 112 ∷ 0 ∷ []))
      (λ _. would_block) (fresh, tt) (record { connected = true; prev_output = 0 ∷ 0 ∷ 0 ∷ 0 ∷ [] })
      no_net (omega arith)

-- With two streams that the script leaves.
widening-keeps_two : HooksKeep widening (HasStreams 2)
widening-keeps_two = record {
  pcall = λ f w has. refl;
  pcall_group = λ f grp w has. refl;
  pcall_rds2 = λ f stream w has. refl;
}

streams_in_order_example :
    let w : World widening = widened (fresh, tt) in
    let client : IpcClient = record { connected = true; prev_output = 0 ∷ 0 ∷ 0 ∷ 0 ∷ [] } in
    let io : ℕ → ℕ × List ℕ = λ _. (15, 112 ∷ 0 ∷ []) in
    (send_round widening true zero_eon 8 noon io 0 (w, client)
      ≡ all_sent widening true zero_eon 2 noon io 0 (w, client))
    × (ascii_round widening true zero_eon 8 noon (λ _. would_block) 0 (w, no_net)
        ≡ all_printed widening true zero_eon 2 noon (λ _. would_block) 0 (w, no_net))
streams_in_order_example =
    streams_in_order widening true zero_eon 2 widening-keeps_two noon (λ _. (15, 112 ∷ 0 ∷ []))
      (λ _. would_block) (widened (fresh, tt))
      (record { connected = true; prev_output = 0 ∷ 0 ∷ 0 ∷ 0 ∷ [] }) no_net (omega arith) refl
