-- ===== src/Tests/Ipc.antt =====
-- Messages to the modulator.
use rds.Common.{ℕ, ◌-◌, ◌<◌, ◌≡◌, refl, List, [], ◌∷◌, ◌==◌, if◌then◌else◌, arith, true, false}
use rds.Common.{length, get_or, replicate, bit_xor}
use rds.Ipc.{IpcClient, bits_message, ipc_send_streams}
use rds.Ipc.{not_connected, short_send, disconnected, desync, answered}
use rds.Ipc.Laws.{bit_of, bits_message_lem}

abbrev idle : IpcClient
idle = record { connected = true; prev_output = 1 ∷ 0 ∷ 0 ∷ 0 ∷ [] }

abbrev raw : List ℕ
raw = 1 ∷ 1 ∷ 0 ∷ replicate 101 1

bits_message_lem_example :
    let (client', message) = bits_message idle 0 raw in
    (bytes : List ℕ) × (message ≡ 112 ∷ 0 ∷ bytes)
    × (length bytes ≡ 13)
    × ((k : ℕ)
        → k < 104
        → bit_xor (bit_of bytes k) (if k == 0 then 1 else bit_of bytes (k - 1)) ≡ get_or raw k 0)
    × (get_or client'.prev_output 0 0 ≡ bit_of bytes 103)
bits_message_lem_example =
    bits_message_lem idle 0 raw (omega arith) refl (omega arith) (omega arith)

streams_outcomes :
    (ipc_send_streams idle 2 (112 ∷ 0 ∷ []) ≡ answered 0)
    × (ipc_send_streams idle 1 [] ≡ short_send)
    × (ipc_send_streams idle 2 (112 ∷ []) ≡ disconnected)
    × (ipc_send_streams idle 2 (7 ∷ 0 ∷ []) ≡ desync)
    × (ipc_send_streams (record idle { connected = false }) 2 [] ≡ not_connected)
unfolding ipc_send_streams
streams_outcomes = (refl, refl, refl, refl, refl)
