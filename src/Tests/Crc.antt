-- ===== src/Tests/Crc.antt =====
-- The checksum on the digits 1 to 9, and on a character from 0x80 on.
use rds.Common.{ℕ, ◌≡◌, ◌≢◌, refl, List, [], ◌∷◌, arith, true, false, inl, bit_xor}
use rds.Crc.{crc16_ccitt}
use rds.Crc.Laws.{ccitt, crc16_ccitt-eq-ccitt}
use rds.Crc.Detect.{crc16_ccitt_detects}

abbrev digits : List ℕ
digits = 0x31 ∷ 0x32 ∷ 0x33 ∷ 0x34 ∷ 0x35 ∷ 0x36 ∷ 0x37 ∷ 0x38 ∷ 0x39 ∷ []

digits_sum : crc16_ccitt true digits 9 ≡ 0xd64e
unfolding crc16_ccitt
digits_sum = refl

-- With signed characters the sum of a byte from 0x80 on is another one.
high_sum : crc16_ccitt true (0x80 ∷ []) 1 ≡ 0x7087
unfolding crc16_ccitt
high_sum = refl

high_sum_unsigned : crc16_ccitt false (0x80 ∷ []) 1 ≡ 0x8f87
unfolding crc16_ccitt
high_sum_unsigned = refl

crc16_ccitt-eq-ccitt_example :
    crc16_ccitt false (0x52 ∷ 0x80 ∷ []) 2 ≡ bit_xor (ccitt 0xffff (0x52 ∷ 0x80 ∷ [])) 0xffff
crc16_ccitt-eq-ccitt_example =
    crc16_ccitt-eq-ccitt false (0x52 ∷ 0x80 ∷ []) (omega arith)
      ((omega arith, inl refl), ((omega arith, inl refl), tt))

crc16_ccitt_detects_example :
    crc16_ccitt true (0x52 ∷ 0x80 ∷ 0x44 ∷ []) 3 ≢ crc16_ccitt true (0x52 ∷ 0x00 ∷ 0x44 ∷ []) 3
crc16_ccitt_detects_example =
    crc16_ccitt_detects true (0x52 ∷ []) (0x44 ∷ []) 0x80 0x00 (omega arith) (omega arith)
      (omega arith) (omega arith)
