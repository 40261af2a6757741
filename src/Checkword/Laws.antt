-- ===== src/Checkword/Laws.antt =====
-- What a receiver gets out of the bits of `add_checkwords`.
use rds.Common.{ℕ, zero, suc, ◌+◌, ◌*◌, ◌/◌, ◌^◌, ◌≤◌, ◌<◌, List, [], ◌∷◌, ◌++◌}
use native.Mathlib.Nat.{one-le-pow}
use rds.Common.{◌≡◌, refl, ap, ap₂, ◌∙◌, arith}
use rds.Common.{if◌then◌else◌, bit_xor, bit, bit-lt, bit_and-two_pow, length, take, drop}
use rds.Common.{Bool, true, false, length-append, take-append_left, take-append, drop-append}
use rds.Model.{RdsGroup}
use rds.Groups.{is_set}
use rds.Checkword.{data_bit, data_bits, check_bits, block_bits, blocks_bits, add_checkwords}
use rds.Checkword.{offset_words_typea, offset_words_typeb, get_block_from_group}
use rds.Checkword.Register.{
  remainder, remainder-append, shifted, IsOffset, word_a, word_b, word_c, word_c', word_d,
}
use rds.Checkword.Register.{remainder-check_bits, data_bits-shifted}

-- The number that digits stand for, the highest first, behind the digits of `acc`.
abbrev pub number : ℕ → List ℕ → ℕ
number acc [] = acc
number acc (b ∷ bs) = number (acc * 2 + b) bs

-- A receiver in step takes 26 bits for each block: the word is their first sixteen, and the
-- remainder by the generator names the offset, and so the place of the block in the group.
abbrev pub receive : ℕ → List ℕ → List (ℕ × ℕ)
receive zero bits = []
receive (suc n) bits =
    (number 0 (take 16 bits), remainder 0 (take 26 bits)) ∷ receive n (drop 26 bits)

length-data_bits : (left j block crc : ℕ) → length (data_bits left j block crc).0 ≡ left
unfolding data_bits
length-data_bits zero j block crc = refl
length-data_bits (suc left) j block crc = ap suc (length-data_bits left (j + 1) block _)

length-check_bits : (left j word : ℕ) → length (check_bits left j word) ≡ left
unfolding check_bits
length-check_bits zero j word = refl
length-check_bits (suc left) j word = ap suc (length-check_bits left (j + 1) word)

pub length-block_bits : (block offset : ℕ) → length (block_bits block offset) ≡ 26
unfolding block_bits
length-block_bits block offset =
    let (bits, crc) = data_bits 16 0 block 0 in
    omega (
      arith,
      length-append bits (check_bits 10 0 (bit_xor crc offset)),
      length-data_bits 16 0 block 0,
      length-check_bits 10 0 (bit_xor crc offset),
    )

-- Division leaves the offset word of a block.
pub remainder-block_bits :
    {offset : ℕ} (block : ℕ) → IsOffset offset → remainder 0 (block_bits block offset) ≡ offset
unfolding block_bits shifted
remainder-block_bits {offset} block o =
    let (bits, crc) = data_bits 16 0 block 0 in
    let (lt, e) = data_bits-shifted 16 0 block 0 0 (omega arith) refl in
    remainder-append 0 bits (check_bits 10 0 (bit_xor crc offset))
    ∙ remainder-check_bits (remainder 0 bits) crc o lt e

digit_test : (b p : ℕ) → b < 2 → 1 ≤ p → (if is_set (b * p) then 1 else 0) ≡ b
digit_test zero p h k = ground arith
digit_test (suc zero) p h k = ground arith
digit_test (suc (suc b)) p h k = absurd (omega arith)

data_bit-eq-bit : (k j block : ℕ) → 0x8000 / 2 ^ j ≡ 2 ^ k → data_bit block j ≡ bit k block
unfolding data_bit
data_bit-eq-bit k j block e =
    rw (e, bit_and-two_pow k block)
      (digit_test (bit k block) (2 ^ k) (bit-lt k block) (one-le-pow k 2 (omega arith)))

number-data_bits : (block : ℕ) → block < 2 ^ 16 → number 0 (data_bits 16 0 block 0).0 ≡ block
unfolding data_bits
number-data_bits block h = omega (
  arith,
  data_bit-eq-bit 15 0 block refl,
  data_bit-eq-bit 14 1 block refl,
  data_bit-eq-bit 13 2 block refl,
  data_bit-eq-bit 12 3 block refl,
  data_bit-eq-bit 11 4 block refl,
  data_bit-eq-bit 10 5 block refl,
  data_bit-eq-bit 9 6 block refl,
  data_bit-eq-bit 8 7 block refl,
  data_bit-eq-bit 7 8 block refl,
  data_bit-eq-bit 6 9 block refl,
  data_bit-eq-bit 5 10 block refl,
  data_bit-eq-bit 4 11 block refl,
  data_bit-eq-bit 3 12 block refl,
  data_bit-eq-bit 2 13 block refl,
  data_bit-eq-bit 1 14 block refl,
  data_bit-eq-bit 0 15 block refl,
)

-- The first sixteen bits of a block are its word.
pub number-block_bits :
    (block offset : ℕ) → block < 2 ^ 16 → number 0 (take 16 (block_bits block offset)) ≡ block
unfolding block_bits
number-block_bits block offset h =
    let (bits, crc) = data_bits 16 0 block 0 in
    ap (number 0)
      (take-append 16 bits (check_bits 10 0 (bit_xor crc offset)) (length-data_bits 16 0 block 0))
    ∙ number-data_bits block h

-- A block of 26 bits in front of others is received by itself.
receive-append :
    (n : ℕ) (xs ys : List ℕ)
    → length xs ≡ 26
    → receive (suc n) (xs ++ ys) ≡ (number 0 (take 16 xs), remainder 0 xs) ∷ receive n ys
receive-append n xs ys e =
    rw (take-append_left 16 xs ys (omega arith), take-append 26 xs ys e, drop-append 26 xs ys e)

receive-block :
    {offset : ℕ} (n block : ℕ) (ys : List ℕ)
    → IsOffset offset
    → block < 2 ^ 16
    → receive (suc n) (block_bits block offset ++ ys) ≡ (block, offset) ∷ receive n ys
receive-block {offset} n block ys o h =
    receive-append n (block_bits block offset) ys (length-block_bits block offset)
    ∙ ap₂ (λ a b. (a, b) ∷ receive n ys) (number-block_bits block offset h)
        (remainder-block_bits block o)

-- The four blocks have 16 bits each.
pub record IsGroup (g : RdsGroup) : Type 0 where
  pub a_fits : g.a < 2 ^ 16
  pub b_fits : g.b < 2 ^ 16
  pub c_fits : g.c < 2 ^ 16
  pub d_fits : g.d < 2 ^ 16

receive-blocks_bits :
    (g : RdsGroup) (b : Bool)
    → IsGroup g
    → receive 4 (blocks_bits 4 0 (if b then offset_words_typeb else offset_words_typea) g)
      ≡ (g.a, 0x0fc) ∷ (g.b, 0x198) ∷ (g.c, if b then 0x350 else 0x168) ∷ (g.d, 0x1b4) ∷ []
unfolding blocks_bits get_block_from_group
receive-blocks_bits g false v =
    receive-block 3 g.a _ word_a v.a_fits
    ∙ ap (λ t. (g.a, 0x0fc) ∷ t)
        (receive-block 2 g.b _ word_b v.b_fits
          ∙ ap (λ t. (g.b, 0x198) ∷ t)
              (receive-block 1 g.c _ word_c v.c_fits
                ∙ ap (λ t. (g.c, 0x168) ∷ t) (receive-block 0 g.d [] word_d v.d_fits)))
receive-blocks_bits g true v =
    receive-block 3 g.a _ word_a v.a_fits
    ∙ ap (λ t. (g.a, 0x0fc) ∷ t)
        (receive-block 2 g.b _ word_b v.b_fits
          ∙ ap (λ t. (g.b, 0x198) ∷ t)
              (receive-block 1 g.c _ word_c' v.c_fits
                ∙ ap (λ t. (g.c, 0x350) ∷ t) (receive-block 0 g.d [] word_d v.d_fits)))

-- From the 104 bits of a group whose blocks have 16 bits, a receiver reads the four blocks, each
-- with the remainder that names its place: the offset words A, B, C or C' for a group of type A
-- or B, and D.
pub receive-add_checkwords :
    (g : RdsGroup)
    → IsGroup g
    → receive 4 (add_checkwords g)
      ≡ (g.a, 0x0fc)
        ∷ (g.b, 0x198)
        ∷ (g.c, if is_set g.is_type_b then 0x350 else 0x168)
        ∷ (g.d, 0x1b4)
        ∷ []
unfolding add_checkwords
receive-add_checkwords g v = receive-blocks_bits g (is_set g.is_type_b) v
