-- ===== src/Checkword/Burst.antt =====
-- Why the checkword is there: division by the generator is linear, so a burst of errors changes
-- the remainder.
use rds.Common.{ℕ, zero, suc, ◌+◌, ◌-◌, ◌*◌, ◌/◌, ◌^◌, ◌≤◌, ◌<◌, List, [], ◌∷◌, ◌++◌, ◌==◌}
use native.Mathlib.Nat.{pow-suc, one-le-pow}
use rds.Common.{
  ◌≡◌, ◌≢◌, refl, sym, ap, ap₂, ◌∙◌, arith, true, length-append, length-replicate, all_below,
  all_below_sound, replicate,
}
use rds.Common.{if◌then◌else◌, leb, ltb, length, bit_xor, bit, bit-bit_xor, bit_xor_digit}
use rds.Common.{bit_xor-zero, bit_xor_comm, bit_xor_assoc, bit_xor_self, bit_xor-lt}
use rds.Common.{◌||◌}
use rds.Common.{bit_and-one}
use rds.Checkword.Laws.{length-block_bits, remainder-block_bits}
use rds.Checkword.{data_bit, data_bits, check_bits, block_bits, crc_step}
use rds.Checkword.Register.{IsOffset}
use rds.Checkword.Register.{remainder, remainder-append, divide_step, divide_step-lt, generator}

-- A list of digits 0 and 1.
abbrev pub IsBits : List ℕ → Type 0
IsBits [] = Unit {0}
IsBits (b ∷ bs) = (b < 2) × IsBits bs

-- A word with the digits flipped where the error pattern has a 1.
abbrev pub flip_bits : List ℕ → List ℕ → List ℕ
flip_bits [] es = []
flip_bits (x ∷ xs) [] = x ∷ xs
flip_bits (x ∷ xs) (e ∷ es) = bit_xor x e ∷ flip_bits xs es

-- The generator is taken off exactly when the register has its highest digit.
taken : ℕ → ℕ
taken r = if leb 512 r then generator else 0

divide_step-taken : (r b : ℕ) → b < 2 → divide_step r b ≡ bit_xor (r * 2 + b) (taken r)
unfolding divide_step taken
divide_step-taken r b h = ground (arith, bit_xor-zero (r * 2 + b))

high_digit : (r : ℕ) → r < 1024 → bit 9 r ≡ (if leb 512 r then 1 else 0)
high_digit r h = ground arith

taken-bit_xor : (r s : ℕ) → r < 1024 → s < 1024 → taken (bit_xor r s) ≡ bit_xor (taken r) (taken s)
unfolding taken
taken-bit_xor r s h k = ground (
  arith,
  bit-bit_xor 9 r s,
  high_digit r h,
  high_digit s k,
  high_digit (bit_xor r s) (bit_xor-lt 10 r s h k),
)

bit_xor_swap :
    (a b c d : ℕ) → bit_xor (bit_xor a b) (bit_xor c d) ≡ bit_xor (bit_xor a c) (bit_xor b d)
bit_xor_swap a b c d =
    bit_xor_assoc a b (bit_xor c d)
    ∙ ap (bit_xor a)
        (sym (bit_xor_assoc b c d) ∙ ap (λ t. bit_xor t d) (bit_xor_comm b c) ∙ bit_xor_assoc c b d)
    ∙ sym (bit_xor_assoc a c (bit_xor b d))

bit_xor-bits-lt : (b c : ℕ) → b < 2 → c < 2 → bit_xor b c < 2
bit_xor-bits-lt b c h k = bit_xor-lt 1 b c h k

append_digit :
    (r s b c : ℕ) → b < 2 → c < 2 → bit_xor r s * 2 + bit_xor b c ≡ bit_xor (r * 2 + b) (s * 2 + c)
append_digit r s b c h k = omega (
  arith,
  bit_xor_digit (r * 2 + b) (s * 2 + c),
  bit_xor_digit b c,
  ap₂ bit_xor {x = (r * 2 + b) / 2} {y = r} {u = (s * 2 + c) / 2} {v = s} (omega arith)
      (omega arith),
  ap₂ bit_xor {x = b / 2} {y = 0} {u = c / 2} {v = 0} (omega arith) (omega arith),
)

divide_step-bit_xor :
    (r s b c : ℕ)
    → r < 1024
    → s < 1024
    → b < 2
    → c < 2
    → divide_step (bit_xor r s) (bit_xor b c) ≡ bit_xor (divide_step r b) (divide_step s c)
divide_step-bit_xor r s b c hr hs hb hc =
    rw
      (
        divide_step-taken (bit_xor r s) (bit_xor b c) (bit_xor-bits-lt b c hb hc),
        divide_step-taken r b hb,
        divide_step-taken s c hc,
        append_digit r s b c hb hc,
        taken-bit_xor r s hr hs,
      )
      (bit_xor_swap (r * 2 + b) (s * 2 + c) (taken r) (taken s))

-- The remainder of a word with errors is the remainder of the word, changed by that of the errors.
pub remainder-flip_bits :
    (xs es : List ℕ) (r s : ℕ)
    → r < 1024
    → s < 1024
    → length xs ≡ length es
    → IsBits xs
    → IsBits es
    → remainder (bit_xor r s) (flip_bits xs es) ≡ bit_xor (remainder r xs) (remainder s es)
remainder-flip_bits [] [] r s hr hs e bx be = refl
remainder-flip_bits [] (c ∷ es) r s hr hs e bx be = absurd (omega arith)
remainder-flip_bits (b ∷ xs) [] r s hr hs e bx be = absurd (omega arith)
remainder-flip_bits (b ∷ xs) (c ∷ es) r s hr hs e bx be =
    ap (λ t. remainder t (flip_bits xs es)) (divide_step-bit_xor r s b c hr hs bx.0 be.0)
    ∙ remainder-flip_bits xs es (divide_step r b) (divide_step s c) (divide_step-lt r b hr bx.0)
        (divide_step-lt s c hs be.0) (omega arith) bx.1 be.1

append_room : (r c p : ℕ) → c < 2 → (r + 1) * (2 * p) ≤ 1024 → (r * 2 + c + 1) * p ≤ 1024
append_room r zero p h fits = omega arith
append_room r (suc zero) p h fits = omega arith
append_room r (suc (suc c)) p h fits = absurd (omega arith)

room_lt : (t p : ℕ) → 1 ≤ p → (t + 1) * p ≤ 1024 → t < 1024
room_lt t p h fits = grind arith

divide_step-small : (r c : ℕ) → r * 2 + c < 1024 → divide_step r c ≡ r * 2 + c
unfolding divide_step
divide_step-small r c h = ground arith

-- Before the highest digit is reached, division only appends digits.
remainder_pos :
    (es : List ℕ) (r : ℕ)
    → 0 < r
    → (r + 1) * 2 ^ length es ≤ 1024
    → IsBits es
    → (0 < remainder r es) × (remainder r es < 1024)
remainder_pos [] r pos fits b = (pos, omega arith)
remainder_pos (c ∷ es) r pos fits b =
    let n = length es in
    let room : (r * 2 + c + 1) * 2 ^ n ≤ 1024 =
      append_room r c (2 ^ n) b.0 (omega (arith, ap (λ (t : ℕ). (r + 1) * t) (pow-suc 2 n))) in
    let small : r * 2 + c < 1024 =
      room_lt (r * 2 + c) (2 ^ n) (one-le-pow n 2 (omega arith)) room in
    rw (divide_step-small r c small) (remainder_pos es (r * 2 + c) (omega arith) room b.1)

zero_table : all_below 1024 (λ r. r == 0 || ltb 0 (divide_step r 0)) ≡ true
unfolding all_below divide_step
zero_table = refl

divide_step-zero-pos : (r : ℕ) → 0 < r → r < 1024 → 0 < divide_step r 0
divide_step-zero-pos r pos h = ground (arith, all_below_sound 1024 r _ zero_table h)

remainder-zeros_pos : (j r : ℕ) → 0 < r → r < 1024 → 0 < remainder r (replicate j 0)
remainder-zeros_pos zero r pos h = pos
remainder-zeros_pos (suc j) r pos h =
    remainder-zeros_pos j (divide_step r 0) (divide_step-zero-pos r pos h)
      (divide_step-lt r 0 h (omega arith))

remainder-zeros : (i : ℕ) (ys : List ℕ) → remainder 0 (replicate i 0 ++ ys) ≡ remainder 0 ys
unfolding divide_step
remainder-zeros zero ys = refl
remainder-zeros (suc i) ys = remainder-zeros i ys

-- A burst: errors within ten digits, from the first error on, with `i` good digits before it.
abbrev pub burst : ℕ → List ℕ → ℕ → List ℕ
burst i es j = replicate i 0 ++ (1 ∷ es ++ replicate j 0)

small_powers : all_below 10 (λ n. leb (2 * 2 ^ n) 1024) ≡ true
unfolding all_below
small_powers = refl

remainder-burst_pos :
    (i j : ℕ) (es : List ℕ) → length es ≤ 9 → IsBits es → 0 < remainder 0 (burst i es j)
remainder-burst_pos i j es le b =
    let fits : 2 * 2 ^ length es ≤ 1024 =
      ground (arith, all_below_sound 10 (length es) _ small_powers) in
    let (pos, lt) = remainder_pos es 1 (omega arith) fits b in
    rw (remainder-zeros i, remainder-append (divide_step 0 1) es (replicate j 0))
      (unfold divide_step in remainder-zeros_pos j (remainder 1 es) pos lt)

IsBits-append : (xs ys : List ℕ) → IsBits xs → IsBits ys → IsBits (xs ++ ys)
IsBits-append [] ys h k = k
IsBits-append (x ∷ xs) ys h k = (h.0, IsBits-append xs ys h.1 k)

IsBits-zeros : (n : ℕ) → IsBits (replicate n 0)
IsBits-zeros zero = tt
IsBits-zeros (suc n) = (omega arith, IsBits-zeros n)

data_bit-lt : (block j : ℕ) → data_bit block j < 2
unfolding data_bit
data_bit-lt block j = ground arith

IsBits-data_bits : (left j block crc : ℕ) → IsBits (data_bits left j block crc).0
unfolding data_bits
IsBits-data_bits zero j block crc = tt
IsBits-data_bits (suc left) j block crc =
    (data_bit-lt block j, IsBits-data_bits left (j + 1) block (crc_step crc (data_bit block j)))

IsBits-check_bits : (left j word : ℕ) → IsBits (check_bits left j word)
unfolding check_bits
IsBits-check_bits zero j word = tt
IsBits-check_bits (suc left) j word =
    (omega (arith, bit_and-one (word / 2 ^ (10 - 1 - j))), IsBits-check_bits left (j + 1) word)

pub IsBits-block_bits : (block offset : ℕ) → IsBits (block_bits block offset)
unfolding block_bits
IsBits-block_bits block offset =
    let (bits, crc) = data_bits 16 0 block 0 in
    IsBits-append bits (check_bits 10 0 (bit_xor crc offset)) (IsBits-data_bits 16 0 block 0)
      (IsBits-check_bits 10 0 (bit_xor crc offset))

bit_xor-cancel : (a x : ℕ) → bit_xor a x ≡ a → x ≡ 0
bit_xor-cancel a x e =
    sym (bit_xor_comm 0 x ∙ bit_xor-zero x)
    ∙ ap (λ t. bit_xor t x) (sym (bit_xor_self a))
    ∙ bit_xor_assoc a a x
    ∙ ap (bit_xor a) e
    ∙ bit_xor_self a

length-burst : (i j : ℕ) (es : List ℕ) → length (burst i es j) ≡ i + (1 + length es + j)
length-burst i j es =
    let before : length {A = ℕ} (replicate i 0) ≡ i = length-replicate i 0 in
    let behind : length {A = ℕ} (replicate j 0) ≡ j = length-replicate j 0 in
    omega (
      arith,
      length-append (replicate i 0) (1 ∷ es ++ replicate j 0),
      length-append (1 ∷ es) (replicate j 0),
    )

-- A receiver notices every burst of errors in a block that is at most ten bits long, wherever it
-- begins: the remainder is no longer the offset word. (`es` are the digits of the error pattern
-- behind its first error, `i` and `j` the numbers of good bits on its two sides.)
pub burst_detected :
    {offset : ℕ} (block i j : ℕ) (es : List ℕ)
    → IsOffset offset
    → length es ≤ 9
    → IsBits es
    → i + length es + j ≡ 25
    → remainder 0 (flip_bits (block_bits block offset) (burst i es j)) ≢ offset
burst_detected {offset} block i j es o short b fits same =
    let sent = block_bits block offset in
    let errors = burst i es j in
    let changed : remainder 0 (flip_bits sent errors)
        ≡ bit_xor (remainder 0 sent) (remainder 0 errors) =
      remainder-flip_bits sent errors 0 0 (omega arith) (omega arith)
        (omega (arith, length-block_bits block offset, length-burst i j es))
        (IsBits-block_bits block offset)
        (IsBits-append (replicate i 0) (1 ∷ es ++ replicate j 0) (IsBits-zeros i)
          (omega arith, IsBits-append es (replicate j 0) b (IsBits-zeros j))) in
    let none_left : remainder 0 errors ≡ 0 = bit_xor-cancel offset (remainder 0 errors) (
      ap (λ t. bit_xor t (remainder 0 errors)) (sym (remainder-block_bits block o))
      ∙ sym changed
      ∙ same) in
    absurd (omega (arith, none_left, remainder-burst_pos i j es short b))
