-- ===== src/Tests/Checkword.antt =====
-- The checkwords of a group of type A.
use rds.Common.{◌≡◌, ◌≢◌, [], ◌∷◌, arith}
use rds.Model.{RdsGroup}
use rds.Checkword.{add_checkwords, block_bits}
use rds.Checkword.Register.{remainder, word_b}
use rds.Checkword.Laws.{receive, receive-add_checkwords}
use rds.Checkword.Burst.{flip_bits, burst, burst_detected}

abbrev clock : RdsGroup
clock = record { a = 0xffff; b = 0x4401; c = 0xd7e0; d = 0x1234; is_type_b = 0 }

receive-add_checkwords_example :
    receive 4 (add_checkwords clock)
    ≡ (0xffff, 0x0fc) ∷ (0x4401, 0x198) ∷ (0xd7e0, 0x168) ∷ (0x1234, 0x1b4) ∷ []
receive-add_checkwords_example = receive-add_checkwords clock (omega arith)

-- Three wrong bits, from the sixth on.
burst_detected_example :
    remainder 0 (flip_bits (block_bits 0x4401 0x198) (burst 5 (0 ∷ 1 ∷ []) 18)) ≢ 0x198
burst_detected_example =
    burst_detected 0x4401 5 18 (0 ∷ 1 ∷ []) word_b (omega arith) (omega arith) (omega arith)
