-- ===== src/Rds95/Modulator.antt =====
-- The loop of src/rds95.c that sends groups to the modulator.
use rds.Common.{ℕ, Bool, zero, suc, ◌+◌, ◌==◌, List, Option, none, some, if◌then◌else◌, ltb}
use rds.Model.{RdsEon}
use rds.Lua.{Lua, World}
use rds.Groups.Clock.{Tm}
use rds.Sequence.{get_rds_group}
use rds.Ipc.{IpcClient, ipc_send_bits, streams_message}

module _ (L : Lua) (signed : Bool) (stray : RdsEon) where
  -- One group for a stream to the modulator; nothing is made without a connection. `io` is what `send`
  -- and `recv` answer.
  unfoldable pub send_stream : Tm → ℕ × List ℕ → ℕ → World L × IpcClient → World L × IpcClient
  send_stream utc io stream (w, client) =
      let (w', g) = get_rds_group L signed stray utc stream w in
      let (client', outcome) = ipc_send_bits client stream g io.0 io.1 in
      if client.connected then (w', client') else (w, client)

  -- The loop over the streams, with `left` rounds left.
  unfoldable pub send_round :
      ℕ → Tm → (ℕ → ℕ × List ℕ) → ℕ → World L × IpcClient → World L × IpcClient
  unfolding send_stream
  send_round zero utc io i st = st
  send_round (suc left) utc io i st =
      let rest = send_round left utc io (i + 1) (send_stream utc (io i) i st) in
      if ltb i st.0.0.streams then rest else st

  -- The body of the loop of the modulator mode: the number of streams that has been announced, and the
  -- message that announces another one, if it has changed.
  unfoldable pub modulator_round :
      Tm
      → (ℕ → ℕ × List ℕ)
      → (World L × IpcClient) × ℕ
      → ((World L × IpcClient) × ℕ) × Option (List ℕ)
  unfolding send_round
  modulator_round utc io (st, sent_num) =
      let st' = send_round 8 utc io 0 st in
      let streams = st'.0.0.streams in
      if streams == sent_num
      then ((st', sent_num), none)
      else ((st', streams), some (streams_message streams))
