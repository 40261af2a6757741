-- ===== src/Crc/Laws.antt =====
-- The checksum is the CRC of the polynomial x^16 + x^12 + x^5 + 1, and finds every wrong byte.
use rds.Common.{
  ℕ, zero, suc, ◌+◌, ◌-◌, ◌*◌, ◌/◌, ◌%◌, ◌^◌, ◌<◌, ◌≤◌, List, [], ◌∷◌, ◌==◌, Bool, true, false,
}
use rds.Common.{◌≡◌, ◌⊎◌, refl, sym, ap, ap₂, ◌∙◌, ◌&&◌, arith, all_below, all_below_sound, ==_iff}
use rds.Common.{
  if◌then◌else◌, leb, ltb, length, take, All, take_all, bit_and, bit_or, bit_xor, Bool-cases, inl,
  inr,
}
use rds.Common.{
  bit_xor_pair, bit_and_mask, bit_xor_low, add-eq-bit_xor, bit_or_sum_right, bit_xor_assoc,
  bit_xor_comm, bit_xor_self, bit_xor_right_comm, bit_xor_double, mul-two_pow_suc, le-mul-two_pow,
  bit_xor-zero, bit_xor-lt,
}
use rds.Model.Char.{promote}
use rds.Crc.{crc_byte, crc_bytes, crc16_ccitt}

-- What the loop adds for the byte `x` that leaves the register.
unfoldable pub folded : ℕ → ℕ
folded x = let y = bit_xor x (x / 16) in bit_xor (bit_xor y (y % 16 * 4096)) (y * 32)

-- What the sign of a character does to the high byte.
abbrev pub sign_byte : Bool → ℕ → ℕ
sign_byte signed c = if signed && ltb 127 c then 0xff else 0

-- The rest of a round, behind each assignment.
after_mask : ℕ → ℕ
after_mask crc4 = bit_xor crc4 (bit_and crc4 0xff * 2 ^ 4 * 2 ^ 1)

after_low : ℕ → ℕ
after_low crc3 = after_mask (bit_xor crc3 (crc3 * 2 ^ 8 * 2 ^ 4 % 2 ^ 16))

after_sign : ℕ → ℕ
after_sign crc2 = after_low (bit_xor crc2 (bit_and crc2 0xff / 2 ^ 4))

low_digits : (q r : ℕ) → r < 256 → bit_and (q * 256 + r) 0xff ≡ r
low_digits q r h = bit_and_mask 8 q r 0xff h refl

after_mask-sum :
    (q y : ℕ)
    → y < 256
    → after_mask (bit_xor (q * 256 + y) (y % 16 * 4096))
      ≡ bit_xor (q * 256) (bit_xor (bit_xor y (y % 16 * 4096)) (y * 32))
unfolding after_mask
after_mask-sum q y h =
    let z = y % 16 * 16 in
    let split : bit_xor (q * 256 + y) (y % 16 * 4096) ≡ bit_xor q z * 256 + y =
      ap (bit_xor (q * 256 + y)) {x = y % 16 * 4096} {y = z * 2 ^ 8 + 0} (omega arith)
      ∙ bit_xor_pair 8 q y z 0 h (omega arith)
      ∙ ap (λ t. bit_xor q z * 256 + t) (bit_xor-zero y) in
    let mask : bit_and (bit_xor (q * 256 + y) (y % 16 * 4096)) 0xff ≡ y =
      ap (λ t. bit_and t 0xff) split ∙ low_digits (bit_xor q z) y h in
    let w = y % 16 * 4096 in
    let apart : bit_xor (q * 256 + y) w ≡ bit_xor (q * 256) (bit_xor y w) =
      ap (λ t. bit_xor t w) (add-eq-bit_xor 8 q y h) ∙ bit_xor_assoc (q * 256) y w in
    ap₂ bit_xor {u = bit_and (bit_xor (q * 256 + y) w) 0xff * 2 ^ 4 * 2 ^ 1} {v = y * 32} apart
      (omega (arith, mask))
    ∙ bit_xor_assoc (q * 256) (bit_xor y w) (y * 32)

after_low-sum :
    (q y : ℕ)
    → y < 256
    → after_low (q * 256 + y) ≡ bit_xor (q * 256) (bit_xor (bit_xor y (y % 16 * 4096)) (y * 32))
unfolding after_low
after_low-sum q y h =
    ap (λ t. after_mask (bit_xor (q * 256 + y) t)) {x = (q * 256 + y) * 2 ^ 8 * 2 ^ 4 % 2 ^ 16}
      {y = y % 16 * 4096} (omega arith)
    ∙ after_mask-sum q y h

after_sign-sum : (q x : ℕ) → x < 256 → after_sign (q * 256 + x) ≡ bit_xor (q * 256) (folded x)
unfolding after_sign folded
after_sign-sum q x h =
    let mask = low_digits q x h in
    let y = bit_xor x (x / 16) in
    ap after_low (
      ap (bit_xor (q * 256 + x)) {x = bit_and (q * 256 + x) 0xff / 2 ^ 4} {y = x / 16}
        (omega (arith, mask))
      ∙ bit_xor_low 8 q x (x / 16) h (omega arith))
    ∙ after_low-sum q y (bit_xor-lt 8 x (x / 16) h (omega arith))

-- The two bytes change places, and the character goes into the low one.
swapped :
    (signed : Bool) (hi lo c : ℕ)
    → hi < 256
    → lo < 256
    → c < 256
    → bit_xor
        (bit_or ((hi * 256 + lo) / 2 ^ 8) ((hi * 256 + lo) * 2 ^ 8 % 2 ^ 16))
        (promote signed c)
      ≡ bit_xor lo (sign_byte signed c) * 256 + bit_xor hi c
swapped signed hi lo c h l k =
    let turned : bit_or ((hi * 256 + lo) / 2 ^ 8) ((hi * 256 + lo) * 2 ^ 8 % 2 ^ 16)
        ≡ lo * 2 ^ 8 + hi =
      ap₂ bit_or {x = (hi * 256 + lo) / 2 ^ 8} {y = hi} {u = (hi * 256 + lo) * 2 ^ 8 % 2 ^ 16}
        {v = lo * 2 ^ 8} (omega arith) (omega arith)
      ∙ omega (arith, bit_or_sum_right 8 lo (lo * 2 ^ 8) hi refl h) in
    let char : promote signed c ≡ sign_byte signed c * 2 ^ 8 + c = ground arith in
    ap₂ bit_xor turned char ∙ bit_xor_pair 8 lo hi (sign_byte signed c) c h k

-- One round, for the register `hi * 256 + lo`.
crc_byte-folded :
    (signed : Bool) (hi lo c : ℕ)
    → hi < 256
    → lo < 256
    → c < 256
    → crc_byte signed (hi * 256 + lo) c
      ≡ bit_xor (bit_xor lo (sign_byte signed c) * 256) (folded (bit_xor hi c))
unfolding crc_byte after_sign after_low after_mask
crc_byte-folded signed hi lo c h l k =
    ap after_sign (swapped signed hi lo c h l k)
    ∙ after_sign-sum (bit_xor lo (sign_byte signed c)) (bit_xor hi c) (bit_xor-lt 8 hi c h k)

-- The polynomial division, one digit at a time: x^16 + x^12 + x^5 + 1.
pub ccitt_step : ℕ → ℕ
ccitt_step crc = if leb (2 ^ 16) (crc * 2) then bit_xor (crc * 2) 0x11021 else crc * 2

abbrev pub ccitt_steps : ℕ → ℕ → ℕ
ccitt_steps zero crc = crc
ccitt_steps (suc n) crc = ccitt_steps n (ccitt_step crc)

-- The CRC of a text: each character goes into the highest eight digits.
abbrev pub ccitt : ℕ → List ℕ → ℕ
ccitt crc [] = crc
ccitt crc (c ∷ cs) = ccitt (ccitt_steps 8 (bit_xor crc (c * 256))) cs

folded_table : all_below 256 (λ x. ccitt_steps 8 (x * 256) == folded x) ≡ true
unfolding all_below folded ccitt_step
folded_table = refl

range_table : all_below 256 (λ x. ltb (folded x) 65536) ≡ true
unfolding all_below folded
range_table = refl

-- A number with room above it goes through a step as its double.
ccitt_step-bit_xor :
    (a b : ℕ) → a < 65536 → b < 32768 → ccitt_step (bit_xor a b) ≡ bit_xor (ccitt_step a) (b * 2)
unfolding ccitt_step
ccitt_step-bit_xor a b h k =
    let low_part = bit_xor-lt 15 (a % 32768) b (omega arith) k in
    let whole : bit_xor a b ≡ a / 32768 * 32768 + bit_xor (a % 32768) b =
      ap (λ t. bit_xor t b) {x = a} {y = a / 32768 * 2 ^ 15 + a % 32768} (omega arith)
      ∙ bit_xor_low 15 (a / 32768) (a % 32768) b (omega arith) k in
    let top : leb (2 ^ 16) (bit_xor a b * 2) ≡ leb (2 ^ 16) (a * 2) = ground arith in
    elim (Bool-cases (leb (2 ^ 16) (a * 2))) [
      | inl high ↦
          rw (top, high)
            (ap (λ t. bit_xor t 0x11021) (sym (bit_xor_double a b))
              ∙ bit_xor_right_comm (a * 2) (b * 2) 0x11021)
      | inr low ↦ rw (top, low) (sym (bit_xor_double a b))
    ]

ccitt_step-lt : (a : ℕ) → a < 65536 → ccitt_step a < 65536
unfolding ccitt_step
ccitt_step-lt a h = elim (Bool-cases (leb (2 ^ 16) (a * 2))) [
  | inl high ↦
      let r = a * 2 - 65536 in
      let big : 65536 ≤ a * 2 = ground arith in
      let cut : bit_xor (a * 2) 0x11021 ≡ bit_xor r 0x1021 =
        ap₂ bit_xor {x = a * 2} {y = 1 * 2 ^ 16 + r} {u = 0x11021} {v = 1 * 2 ^ 16 + 0x1021}
          (omega arith) (omega arith)
        ∙ bit_xor_pair 16 1 r 1 0x1021 (omega arith) (omega arith)
        ∙ omega (arith, bit_xor_self 1) in
      rw high (omega (arith, cut, bit_xor-lt 16 r 0x1021 (omega arith) (omega arith)))
  | inr low ↦ let small : a * 2 < 65536 = ground arith in rw low small
]

ccitt_steps-bit_xor :
    (n a b : ℕ)
    → a < 65536
    → b * 2 ^ n < 65536
    → ccitt_steps n (bit_xor a b) ≡ bit_xor (ccitt_steps n a) (b * 2 ^ n)
ccitt_steps-bit_xor zero a b h k = ap (bit_xor a) {x = b} {y = b * 1} (omega arith)
ccitt_steps-bit_xor (suc n) a b h k =
    let fits : b * 2 ^ n < 32768 = omega (arith, mul-two_pow_suc b n) in
    let next : b * 2 * 2 ^ n ≡ b * 2 ^ suc n = omega (
      arith,
      mul-two_pow_suc b n,
      ap (λ (t : ℕ). t * 2 ^ n) {x = b * 2} {y = b + b} (omega arith),
    ) in
    ap (ccitt_steps n) (ccitt_step-bit_xor a b h (omega (arith, le-mul-two_pow n b)))
    ∙ ccitt_steps-bit_xor n (ccitt_step a) (b * 2) (ccitt_step-lt a h) (omega (arith, next))
    ∙ ap (bit_xor (ccitt_steps n (ccitt_step a))) next

-- A character that C promotes to itself.
abbrev pub IsPlain : Bool → ℕ → Type 0
IsPlain signed c = (c < 256) × ((signed ≡ false) ⊎ (c < 128))

split_bytes : (crc : ℕ) → crc / 256 * 256 + crc % 256 ≡ crc
split_bytes crc = omega arith

pub crc_byte_split :
    (signed : Bool) (crc c : ℕ)
    → crc < 65536
    → c < 256
    → crc_byte signed crc c
      ≡ bit_xor (bit_xor (crc % 256) (sign_byte signed c) * 256) (folded (bit_xor (crc / 256) c))
crc_byte_split signed crc c h k =
    ap (λ t. crc_byte signed t c) (sym (split_bytes crc))
    ∙ crc_byte-folded signed (crc / 256) (crc % 256) c (omega arith) (omega arith) k

pub folded-lt : (x : ℕ) → x < 256 → folded x < 65536
folded-lt x h = ground (arith, all_below_sound 256 x _ range_table h)

sign_byte-lt : (signed : Bool) (c : ℕ) → sign_byte signed c < 256
sign_byte-lt signed c = ground arith

pub crc_byte-lt :
    (signed : Bool) (crc c : ℕ) → crc < 65536 → c < 256 → crc_byte signed crc c < 65536
crc_byte-lt signed crc c h k =
    let x = bit_xor (crc / 256) c in
    let q = bit_xor (crc % 256) (sign_byte signed c) in
    let fits =
      bit_xor-lt 8 (crc % 256) (sign_byte signed c) (omega arith) (sign_byte-lt signed c) in
    omega (
      arith,
      crc_byte_split signed crc c h k,
      bit_xor-lt 16 (q * 256) (folded x) (omega (arith, fits))
          (folded-lt x (bit_xor-lt 8 (crc / 256) c (omega arith) k)),
    )

crc_byte-ccitt :
    (signed : Bool) (crc c : ℕ)
    → crc < 65536
    → IsPlain signed c
    → crc_byte signed crc c ≡ ccitt_steps 8 (bit_xor crc (c * 256))
crc_byte-ccitt signed crc c h (k, plain) =
    let hi = crc / 256 in
    let lo = crc % 256 in
    let x = bit_xor hi c in
    let small = bit_xor-lt 8 hi c (omega arith) k in
    let unsigned : sign_byte signed c ≡ 0 = ground arith in
    let table : ccitt_steps 8 (x * 256) ≡ folded x =
      (==_iff _ _).0 (all_below_sound 256 x _ folded_table small) in
    let input : bit_xor crc (c * 256) ≡ bit_xor (x * 256) lo =
      ap₂ bit_xor {x = crc} {y = hi * 2 ^ 8 + lo} {u = c * 256} {v = c * 2 ^ 8 + 0} (omega arith)
        (omega arith)
      ∙ bit_xor_pair 8 hi lo c 0 (omega arith) (omega arith)
      ∙ ap (λ t. x * 256 + t) (bit_xor-zero lo)
      ∙ add-eq-bit_xor 8 x lo (omega arith) in
    crc_byte_split signed crc c h k
    ∙ ap (λ t. bit_xor (t * 256) (folded x)) (ap (bit_xor lo) unsigned ∙ bit_xor-zero lo)
    ∙ bit_xor_comm (lo * 256) (folded x)
    ∙ sym (
        ap (ccitt_steps 8) input
        ∙ ccitt_steps-bit_xor 8 (x * 256) lo (omega (arith, small)) (omega arith)
        ∙ ap (λ t. bit_xor t (lo * 256)) table)

crc_bytes-ccitt :
    (signed : Bool) (crc : ℕ) (cs : List ℕ)
    → crc < 65536
    → All (IsPlain signed) cs
    → crc_bytes signed crc cs ≡ ccitt crc cs
unfolding crc_bytes
crc_bytes-ccitt signed crc [] h plain = refl
crc_bytes-ccitt signed crc (c ∷ cs) h (p, ps) =
    crc_bytes-ccitt signed (crc_byte signed crc c) cs (crc_byte-lt signed crc c h p.0) ps
    ∙ ap (λ t. ccitt t cs) (crc_byte-ccitt signed crc c h p)

pub whole_text :
    (signed : Bool) (cs : List ℕ)
    → length cs < 65536
    → crc16_ccitt signed cs (length cs) ≡ bit_xor (crc_bytes signed 0xffff cs) 0xffff
unfolding crc16_ccitt
whole_text signed cs h =
    let len : length cs % 2 ^ 16 ≡ length cs = omega (arith, h) in
    ap (λ t. bit_xor (crc_bytes signed 0xffff t) 0xffff)
      (ap (λ n. take n cs) len ∙ take_all (length cs) cs (omega arith))

-- On characters that C promotes to themselves (all of them on a platform with unsigned characters,
-- those below 0x80 on one with signed characters), `crc16_ccitt` is the CRC of the polynomial
-- x^16 + x^12 + x^5 + 1, highest digit first, from 0xffff on and with all digits of the result
-- turned; a text has less than 65536 characters.
pub crc16_ccitt-eq-ccitt :
    (signed : Bool) (cs : List ℕ)
    → length cs < 65536
    → All (IsPlain signed) cs
    → crc16_ccitt signed cs (length cs) ≡ bit_xor (ccitt 0xffff cs) 0xffff
crc16_ccitt-eq-ccitt signed cs h plain =
    whole_text signed cs h
    ∙ ap (λ t. bit_xor t 0xffff) (crc_bytes-ccitt signed 0xffff cs (omega arith) plain)
