-- ===== src/Checkword.antt =====
-- src/rds.c, `add_checkwords`: a group as 104 bits, each block followed by its checkword.
pub mod Register
pub mod Laws
pub mod Burst
use rds.Common.{ℕ, zero, suc, ◌+◌, ◌-◌, ◌*◌, ◌/◌, ◌%◌, ◌^◌, List, [], ◌∷◌, ◌++◌, ◌==◌}
use rds.Common.{if◌then◌else◌, get_or, bit_and, bit_xor}
use rds.Model.{RdsGroup, group_length, block_size, poly_deg}
use rds.Groups.{is_set}

-- POLY
abbrev pub poly : ℕ
poly = 0x1b9

-- `offset_words_typea`, `offset_words_typeb`
abbrev pub offset_words_typea : List ℕ
offset_words_typea = 0x0fc ∷ 0x198 ∷ 0x168 ∷ 0x1b4 ∷ []

abbrev pub offset_words_typeb : List ℕ
offset_words_typeb = 0x0fc ∷ 0x198 ∷ 0x350 ∷ 0x1b4 ∷ []

-- `get_block_from_group`
unfoldable pub get_block_from_group : RdsGroup → ℕ → ℕ
get_block_from_group g zero = g.a
get_block_from_group g (suc zero) = g.b
get_block_from_group g (suc (suc zero)) = g.c
get_block_from_group g (suc (suc (suc zero))) = g.d
get_block_from_group g (suc (suc (suc (suc n)))) = 0

-- `(block & (0x8000 >> j)) != 0`
unfoldable pub data_bit : ℕ → ℕ → ℕ
data_bit block j = if is_set (bit_and block (0x8000 / 2 ^ j)) then 1 else 0

-- The register after one more bit: `block_crc` has 16 bits, of which the lowest ten matter.
unfoldable pub crc_step : ℕ → ℕ → ℕ
crc_step crc bit =
    let msb = bit_and (crc / 2 ^ (poly_deg - 1)) 1 in
    let shifted = crc * 2 % 2 ^ 16 in
    if is_set (bit_xor msb bit) then bit_xor shifted poly else shifted

-- The first inner loop with `left` rounds left: the bits written and the register.
pub data_bits : ℕ → ℕ → ℕ → ℕ → List ℕ × ℕ
unfolding data_bit crc_step
data_bits zero j block crc = ([], crc)
data_bits (suc left) j block crc =
    let bit = data_bit block j in
    let (bits, crc') = data_bits left (j + 1) block (crc_step crc bit) in (bit ∷ bits, crc')

-- The second inner loop: the checkword, highest digit first.
pub check_bits : ℕ → ℕ → ℕ → List ℕ
check_bits zero j word = []
check_bits (suc left) j word =
    bit_and (word / 2 ^ (poly_deg - 1 - j)) 1 ∷ check_bits left (j + 1) word

-- One round of the outer loop.
pub block_bits : ℕ → ℕ → List ℕ
unfolding data_bits check_bits
block_bits block offset =
    let (bits, crc) = data_bits block_size 0 block 0 in
    bits ++ check_bits poly_deg 0 (bit_xor crc offset)

pub blocks_bits : ℕ → ℕ → List ℕ → RdsGroup → List ℕ
blocks_bits zero i offsets g = []
blocks_bits (suc left) i offsets g =
    block_bits (get_block_from_group g i) (get_or offsets i 0) ++ blocks_bits left (i + 1) offsets g

pub add_checkwords : RdsGroup → List ℕ
unfolding blocks_bits get_block_from_group
add_checkwords g =
    blocks_bits group_length 0
      (if is_set g.is_type_b then offset_words_typeb else offset_words_typea) g
