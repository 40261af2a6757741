-- ===== src/Crc.antt =====
-- `crc16_ccitt` of src/lib.c, the checksum of the encoder file.
pub mod Laws
pub mod Detect
use rds.Common.{ℕ, ◌+◌, ◌*◌, ◌/◌, ◌%◌, ◌^◌, List, [], ◌∷◌, Bool, bit_or, bit_and, bit_xor, take}
use rds.Model.Char.{promote}

-- The body of the loop. A shift to the left is cut to 16 digits where its result is assigned.
pub crc_byte : Bool → ℕ → ℕ → ℕ
crc_byte signed crc c =
    let crc1 = bit_or (crc / 2 ^ 8) (crc * 2 ^ 8 % 2 ^ 16) in
    let crc2 = bit_xor crc1 (promote signed c) in
    let crc3 = bit_xor crc2 (bit_and crc2 0xff / 2 ^ 4) in
    let crc4 = bit_xor crc3 (crc3 * 2 ^ 8 * 2 ^ 4 % 2 ^ 16) in
    bit_xor crc4 (bit_and crc4 0xff * 2 ^ 4 * 2 ^ 1)

pub crc_bytes : Bool → ℕ → List ℕ → ℕ
crc_bytes signed crc [] = crc
crc_bytes signed crc (c ∷ cs) = crc_bytes signed (crc_byte signed crc c) cs

-- `len` has 16 bits, so a longer text is cut.
unfoldable pub crc16_ccitt : Bool → List ℕ → ℕ → ℕ
unfolding crc_bytes crc_byte
crc16_ccitt signed chars len = bit_xor (crc_bytes signed 0xffff (take (len % 2 ^ 16) chars)) 0xffff
