-- ===== src/Ipc.antt =====
-- src/ipc_client.c: what is sent to the modulator for each group, and how its answer is read. The
-- calls on the socket are not modelled: a send gives the number of bytes it took, and the answer is the list of
-- bytes that arrive before the connection ends.
pub mod Laws
use rds.Common.{ℕ, zero, suc, ◌+◌, ◌*◌, ◌/◌, ◌%◌, ◌^◌, List, [], ◌∷◌, ◌++◌, Bool, ◌==◌}
use rds.Common.{
  if◌then◌else◌, not, length, get_or, set, replicate, bit_or, bit_xor, true, false, Option, none,
  some,
}
use rds.Model.{RdsGroup, bits_per_group}
use rds.Groups.{is_set}
use rds.Checkword.{add_checkwords}

-- The loop of `ipc_send_bits` from bit `i` on: the differential step, and the packing of the result
-- into bytes, highest digit first. The result is the last bit sent and the bytes.
pub encode_bits : List ℕ → ℕ → ℕ → List ℕ → ℕ × List ℕ
encode_bits [] i prev packed = (prev, packed)
encode_bits (raw ∷ bits) i prev packed =
    let cur = bit_xor prev raw in
    let byte = bit_or (get_or packed (i / 8) 0) (0x80 / 2 ^ (i % 8)) in
    encode_bits bits (i + 1) cur (if is_set cur then set packed (i / 8) byte else packed)

-- The client keeps the last bit of each stream, and its file descriptor, which is negative when
-- there is no connection.
pub record IpcClient : Type 0 where
  pub connected : Bool
  pub prev_output : List ℕ

-- How a call ended: not connected, a short send, no answer, an answer of another kind, or done,
-- with the second byte of the answer, which is only reported.
pub data Outcome : Type 0 where
  not_connected short_send disconnected desync : Outcome
  answered : ℕ → Outcome

-- `recv_all(fd, resp, 2)` and the checks behind it.
pub read_answer : List ℕ → Outcome
read_answer [] = disconnected
read_answer (x ∷ []) = disconnected
read_answer (kind ∷ status ∷ rest) = if kind == 112 then answered status else desync

-- The message of `ipc_send_streams`.
pub streams_message : ℕ → List ℕ
streams_message streams = 113 ∷ streams ∷ []

-- `sent` is the result of `send`.
unfoldable pub ipc_send_streams : IpcClient → ℕ → List ℕ → Outcome
unfolding read_answer
ipc_send_streams client sent answer =
    if not client.connected
    then not_connected
    else if not (sent == 2)
    then short_send
    else read_answer answer

-- The message of `ipc_send_bits` for the bits of a group, and the client with the new last bit.
pub bits_message : IpcClient → ℕ → List ℕ → IpcClient × List ℕ
unfolding encode_bits
bits_message client stream raw_bits =
    let start = get_or client.prev_output stream 0 in
    let (prev, packed) = encode_bits raw_bits 0 start (replicate 13 0) in
    (record client { prev_output = set client.prev_output stream prev }, 112 ∷ stream ∷ packed)

-- `ipc_send_bits` on the group that `get_rds_group` has made. The last bit is stored before the
-- message is sent.
pub ipc_send_bits : IpcClient → ℕ → RdsGroup → ℕ → List ℕ → IpcClient × Outcome
unfolding bits_message read_answer
ipc_send_bits client stream g sent answer =
    let (client', message) = bits_message client stream (add_checkwords g) in
    if not client.connected
    then (client, not_connected)
    else (client', if not (sent == 15) then short_send else read_answer answer)

-- `ipc_connect`, with the answers of `socket` and `connect`; `false` is -1.
unfoldable pub ipc_connect : Bool → Bool → IpcClient → Bool × IpcClient
ipc_connect created accepted client =
    if not created
    then (false, record client { connected = false })
    else if not accepted
    then (false, record client { connected = false })
    else (true, record { connected = true; prev_output = replicate 4 0 })

unfoldable pub ipc_close : IpcClient → IpcClient
ipc_close client = record client { connected = false }
