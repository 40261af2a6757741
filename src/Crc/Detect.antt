-- ===== src/Crc/Detect.antt =====
-- The checksum finds every single wrong byte, on both kinds of platform.
use rds.Common.{ℕ, ◌+◌, ◌*◌, ◌/◌, ◌%◌, ◌^◌, ◌<◌, List, [], ◌∷◌, ◌++◌, ◌==◌, Bool, true}
use rds.Common.{
  ◌≡◌, ◌≢◌, refl, sym, ap, ap₂, ◌∙◌, arith, all_below, all_below_sound, ==_iff, length, All,
}
use rds.Common.{All-append, length-append}
use rds.Common.{bit_xor, bit_xor_pair, bit_xor_comm, bit_xor_cancel, bit_xor_injective, bit_xor-lt}
use rds.Common.{zero-bit_xor}
use rds.Crc.{crc_byte, crc_bytes, crc16_ccitt}
use rds.Crc.Laws.{folded, sign_byte, crc_byte_split, crc_byte-lt, whole_text}

-- The byte that has been folded into a register, from the register's low byte.
abbrev unfolded : ℕ → ℕ
unfolded z = let y = bit_xor z (z * 32 % 256) in bit_xor y (y / 16)

unfolded_table : all_below 256 (λ x. unfolded (folded x % 256) == x) ≡ true
unfolding all_below folded
unfolded_table = refl

-- The byte that leaves the register, and the byte that is kept.
abbrev leaving : ℕ → ℕ → ℕ
leaving crc c = bit_xor (crc / 256) c

abbrev kept : Bool → ℕ → ℕ → ℕ
kept signed crc c = bit_xor (crc % 256) (sign_byte signed c)

module _ (signed : Bool) (crc c : ℕ) (h : crc < 65536) (k : c < 256) where
  leaving-lt : leaving crc c < 256
  leaving-lt = bit_xor-lt 8 (crc / 256) c (omega arith) k

  low_of_round : crc_byte signed crc c % 256 ≡ folded (leaving crc c) % 256
  low_of_round =
      let f = folded (leaving crc c) in
      let q = kept signed crc c in
      let sum : bit_xor (q * 256) f ≡ bit_xor q (f / 256) * 256 + f % 256 =
        ap₂ bit_xor {x = q * 256} {y = q * 2 ^ 8 + 0} {u = f} {v = f / 256 * 2 ^ 8 + f % 256}
          (omega arith) (omega arith)
        ∙ bit_xor_pair 8 q 0 (f / 256) (f % 256) (omega arith) (omega arith)
        ∙ ap (λ t. bit_xor q (f / 256) * 256 + t) (zero-bit_xor (f % 256)) in
      omega (arith, crc_byte_split signed crc c h k, sum)

  leaving_of_round : leaving crc c ≡ unfolded (crc_byte signed crc c % 256)
  leaving_of_round =
      sym ((==_iff _ _).0 (all_below_sound 256 (leaving crc c) _ unfolded_table leaving-lt))
      ∙ ap unfolded (sym low_of_round)

  kept_of_round : bit_xor (crc_byte signed crc c) (folded (leaving crc c)) ≡ kept signed crc c * 256
  kept_of_round =
      ap (λ t. bit_xor t (folded (leaving crc c))) (crc_byte_split signed crc c h k)
      ∙ bit_xor_cancel (kept signed crc c * 256) (folded (leaving crc c))

-- Another character gives another register.
other_character :
    (signed : Bool) (crc a b : ℕ)
    → crc < 65536
    → a < 256
    → b < 256
    → crc_byte signed crc a ≡ crc_byte signed crc b
    → a ≡ b
other_character signed crc a b h p q e =
    let same : leaving crc a ≡ leaving crc b =
      leaving_of_round signed crc a h p
      ∙ ap (λ t. unfolded (t % 256)) e
      ∙ sym (leaving_of_round signed crc b h q) in
    bit_xor_injective a b (crc / 256)
      (bit_xor_comm a (crc / 256) ∙ same ∙ bit_xor_comm (crc / 256) b)

-- The same character keeps registers apart.
other_register :
    (signed : Bool) (r s c : ℕ)
    → r < 65536
    → s < 65536
    → c < 256
    → crc_byte signed r c ≡ crc_byte signed s c
    → r ≡ s
other_register signed r s c h l k e =
    let same : leaving r c ≡ leaving s c =
      leaving_of_round signed r c h k
      ∙ ap (λ t. unfolded (t % 256)) e
      ∙ sym (leaving_of_round signed s c l k) in
    let high : r / 256 ≡ s / 256 = bit_xor_injective (r / 256) (s / 256) c same in
    let both : kept signed r c * 256 ≡ kept signed s c * 256 =
      sym (kept_of_round signed r c h k)
      ∙ ap₂ (λ t x. bit_xor t (folded x)) e same
      ∙ kept_of_round signed s c l k in
    let low : r % 256 ≡ s % 256 =
      bit_xor_injective (r % 256) (s % 256) (sign_byte signed c) (omega (arith, both)) in
    omega (arith, high, low)

abbrev pub IsByte : ℕ → Type 0
IsByte c = c < 256

crc_bytes_injective :
    (signed : Bool) (r s : ℕ) (cs : List ℕ)
    → r < 65536
    → s < 65536
    → All IsByte cs
    → crc_bytes signed r cs ≡ crc_bytes signed s cs
    → r ≡ s
unfolding crc_bytes
crc_bytes_injective signed r s [] h l bytes e = e
crc_bytes_injective signed r s (c ∷ cs) h l (k, bytes) e = other_register signed r s c h l k (
    crc_bytes_injective signed (crc_byte signed r c) (crc_byte signed s c) cs
      (crc_byte-lt signed r c h k) (crc_byte-lt signed s c l k) bytes e)

crc_bytes-append :
    (signed : Bool) (r : ℕ) (xs ys : List ℕ)
    → crc_bytes signed r (xs ++ ys) ≡ crc_bytes signed (crc_bytes signed r xs) ys
unfolding crc_bytes
crc_bytes-append signed r [] ys = refl
crc_bytes-append signed r (x ∷ xs) ys = crc_bytes-append signed (crc_byte signed r x) xs ys

crc_bytes-lt :
    (signed : Bool) (r : ℕ) (cs : List ℕ)
    → r < 65536
    → All IsByte cs
    → crc_bytes signed r cs < 65536
unfolding crc_bytes
crc_bytes-lt signed r [] h bytes = h
crc_bytes-lt signed r (c ∷ cs) h (k, bytes) =
    crc_bytes-lt signed (crc_byte signed r c) cs (crc_byte-lt signed r c h k) bytes

pub same_byte :
    (signed : Bool) (xs ys : List ℕ) (a b : ℕ)
    → All IsByte (xs ++ a ∷ ys)
    → IsByte b
    → length (xs ++ a ∷ ys) < 65536
    → crc16_ccitt signed (xs ++ a ∷ ys) (length (xs ++ a ∷ ys))
      ≡ crc16_ccitt signed (xs ++ b ∷ ys) (length (xs ++ b ∷ ys))
    → a ≡ b
unfolding crc_bytes
same_byte signed xs ys a b bytes q short e =
    let split = All-append IsByte xs (a ∷ ys) bytes in
    let before = split.0 in
    let p = split.1.0 in
    let after = split.1.1 in
    let short' : length (xs ++ b ∷ ys) < 65536 =
      omega (arith, short, length-append xs (a ∷ ys), length-append xs (b ∷ ys)) in
    let r = crc_bytes signed 0xffff xs in
    let fits = crc_bytes-lt signed 0xffff xs (omega arith) before in
    let sums : crc_bytes signed 0xffff (xs ++ a ∷ ys) ≡ crc_bytes signed 0xffff (xs ++ b ∷ ys) =
      bit_xor_injective _ _ 0xffff (
        sym (whole_text signed (xs ++ a ∷ ys) short)
        ∙ e
        ∙ whole_text signed (xs ++ b ∷ ys) short') in
    other_character signed r a b fits p q (
      crc_bytes_injective signed (crc_byte signed r a) (crc_byte signed r b) ys
        (crc_byte-lt signed r a fits p) (crc_byte-lt signed r b fits q) after
        (sym (crc_bytes-append signed 0xffff xs (a ∷ ys))
          ∙ sums
          ∙ crc_bytes-append signed 0xffff xs (b ∷ ys)))

-- The sums of two texts of bytes, shorter than 65536, that differ in one byte are different, on both
-- kinds of platform.
pub crc16_ccitt_detects :
    (signed : Bool) (xs ys : List ℕ) (a b : ℕ)
    → All IsByte (xs ++ a ∷ ys)
    → IsByte b
    → length (xs ++ a ∷ ys) < 65536
    → a ≢ b
    → crc16_ccitt signed (xs ++ a ∷ ys) (length (xs ++ a ∷ ys))
      ≢ crc16_ccitt signed (xs ++ b ∷ ys) (length (xs ++ b ∷ ys))
crc16_ccitt_detects signed xs ys a b bytes q short ne e =
    ne (same_byte signed xs ys a b bytes q short e)
