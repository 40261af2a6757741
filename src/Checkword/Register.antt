-- ===== src/Checkword/Register.antt =====
-- The receiver's side: division by the generator polynomial, and how the shift register of
-- `add_checkwords` relates to it.
use rds.Common.{ℕ, zero, suc, ◌+◌, ◌*◌, ◌/◌, ◌%◌, ◌^◌, ◌<◌, List, [], ◌∷◌, ◌++◌, ◌==◌}
use rds.Common.{◌≡◌, refl, ◌&&◌, true, arith, all_below, all_below_sound}
use rds.Common.{if◌then◌else◌, leb, ltb, bit_xor}
use rds.Common.{Bool, bit_and-one, bit_xor-mod_1024, bit}
use rds.Checkword.{poly, crc_step, check_bits, data_bits, data_bit}

-- x^10 + x^8 + x^7 + x^5 + x^4 + x^3 + 1
abbrev pub generator : ℕ
generator = 0x5b9

-- One step of long division: the next digit is brought down, and the generator is taken off.
unfoldable pub divide_step : ℕ → ℕ → ℕ
divide_step r b = let t = r * 2 + b in if leb (2 ^ 10) t then bit_xor t generator else t

-- The remainder of a polynomial, given by its coefficients from the highest on.
abbrev pub remainder : ℕ → List ℕ → ℕ
remainder r [] = r
remainder r (b ∷ bs) = remainder (divide_step r b) bs

pub remainder-append :
    (r : ℕ) (xs ys : List ℕ) → remainder r (xs ++ ys) ≡ remainder (remainder r xs) ys
remainder-append r [] ys = refl
remainder-append r (x ∷ xs) ys = remainder-append (divide_step r x) xs ys

-- `r * x^10`, divided: what the shift register holds when the remainder so far is `r`.
unfoldable pub shifted : ℕ → ℕ
unfolding divide_step
shifted r = remainder r (0 ∷ 0 ∷ 0 ∷ 0 ∷ 0 ∷ 0 ∷ 0 ∷ 0 ∷ 0 ∷ 0 ∷ [])

-- The register step on ten bits.
unfoldable pub step10 : ℕ → ℕ → ℕ
unfolding crc_step
step10 crc bit = crc_step crc bit % 2 ^ 10

step_table :
    all_below 1024 (λ r.
      (step10 (shifted r) 0 == shifted (divide_step r 0))
      && (step10 (shifted r) 1 == shifted (divide_step r 1)))
    ≡ true
unfolding all_below step10 shifted divide_step
step_table = refl

check_table : ℕ → Bool
check_table offset =
    all_below 1024 (λ r. remainder r (check_bits 10 0 (bit_xor (shifted r) offset)) == offset)

-- The five offset words.
pub data IsOffset : ℕ → Type 0 where
  word_a : IsOffset 0x0fc
  word_b : IsOffset 0x198
  word_c : IsOffset 0x168
  word_c' : IsOffset 0x350
  word_d : IsOffset 0x1b4

IsOffset-lt : {offset : ℕ} → IsOffset offset → offset < 1024
IsOffset-lt word_a = omega arith
IsOffset-lt word_b = omega arith
IsOffset-lt word_c = omega arith
IsOffset-lt word_c' = omega arith
IsOffset-lt word_d = omega arith

data_bit-lt : (block j : ℕ) → data_bit block j < 2
unfolding data_bit
data_bit-lt block j = ground arith

check_tables : {offset : ℕ} → IsOffset offset → check_table offset ≡ true
unfolding check_table all_below shifted divide_step check_bits
check_tables word_a = refl
check_tables word_b = refl
check_tables word_c = refl
check_tables word_c' = refl
check_tables word_d = refl

-- The register has sixteen bits, and only the lowest ten matter.
crc_step-mod : (crc bit : ℕ) → crc_step crc bit % 1024 ≡ step10 (crc % 1024) bit
unfolding step10 crc_step
crc_step-mod crc bit = ground (
  arith,
  bit_and-one (crc / 512),
  bit_and-one (crc % 1024 / 512),
  bit_xor-mod_1024 (crc * 2 % 2 ^ 16) poly (omega arith),
  bit_xor-mod_1024 (crc % 1024 * 2 % 2 ^ 16) poly (omega arith),
)

range_table : all_below 1024 (λ r. ltb (divide_step r 0) 1024 && ltb (divide_step r 1) 1024) ≡ true
unfolding all_below divide_step
range_table = refl

pub divide_step-lt : (r b : ℕ) → r < 1024 → b < 2 → divide_step r b < 1024
divide_step-lt r zero h k = ground (arith, all_below_sound 1024 r _ range_table h)
divide_step-lt r (suc zero) h k = ground (arith, all_below_sound 1024 r _ range_table h)
divide_step-lt r (suc (suc b)) h k = absurd (omega arith)

-- One bit keeps the register at the shifted remainder.
pub crc_step-shifted :
    (r crc b : ℕ)
    → r < 1024
    → b < 2
    → crc % 1024 ≡ shifted r
    → crc_step crc b % 1024 ≡ shifted (divide_step r b)
crc_step-shifted r crc zero h k e =
    rw (crc_step-mod, e) (ground (arith, all_below_sound 1024 r _ step_table h))
crc_step-shifted r crc (suc zero) h k e =
    rw (crc_step-mod, e) (ground (arith, all_below_sound 1024 r _ step_table h))
crc_step-shifted r crc (suc (suc b)) h k e = absurd (omega arith)

check_bits-mod : (word : ℕ) → check_bits 10 0 word ≡ check_bits 10 0 (word % 1024)
unfolding check_bits
check_bits-mod word = simp bit_and-one (ground arith)

-- The checkword of a register takes the remainder to the offset word.
pub remainder-check_bits :
    {offset : ℕ} (r crc : ℕ)
    → IsOffset offset
    → r < 1024
    → crc % 1024 ≡ shifted r
    → remainder r (check_bits 10 0 (bit_xor crc offset)) ≡ offset
unfolding check_table
remainder-check_bits {offset} r crc o h e =
    rw (check_bits-mod, bit_xor-mod_1024 crc offset (IsOffset-lt o), e)
      (ground (arith, all_below_sound 1024 r _ (check_tables o) h))

-- Both sides agree on all the bits of a block.
pub data_bits-shifted :
    (left j block r crc : ℕ)
    → r < 1024
    → crc % 1024 ≡ shifted r
    → let (bits, crc') = data_bits left j block crc in
      (remainder r bits < 1024) × (crc' % 1024 ≡ shifted (remainder r bits))
unfolding data_bits
data_bits-shifted zero j block r crc h e = (h, e)
data_bits-shifted (suc left) j block r crc h e =
    let b = data_bit block j in
    data_bits-shifted left (j + 1) block (divide_step r b) (crc_step crc b)
      (divide_step-lt r b h (data_bit-lt block j))
      (crc_step-shifted r crc b h (data_bit-lt block j) e)
