-- ===== src/Charset/Laws.antt =====
-- Every character of the repertoire is converted to its code, and the bounds of the buffer.
use rds.Common.{ℕ, zero, suc, ◌+◌, ◌≤◌, ◌<◌, List, [], ◌∷◌, ◌++◌, ◌==◌, if◌then◌else◌, get_or}
use rds.Common.{◌≡◌, ◌≢◌, refl, ap, ◌∙◌, arith, Bool, true, false, ◌&&◌, ◌||◌, not}
use mathlib.Core.List.{append_assoc}
use rds.Common.{
  length, take, length-append, length-take, all_below, all_below_sound, All, Bool-cases, inl, inr,
}
use rds.Charset.{pick, single, after_e2, convert_char, convert_chars, convert_to_rdscharset}
use rds.Charset.{table_c2, table_c3, table_c4, table_c5, table_ce, table_cf}
use rds.Charset.Repertoire.{utf8}

-- The bytes that begin a character of two bytes, with their switches.
abbrev switch_of : ℕ → List (ℕ × ℕ)
switch_of a =
    if a == 0xc2
    then table_c2
    else if a == 0xc3
    then table_c3
    else if a == 0xc5
    then table_c5
    else if a == 0xc4
    then table_c4
    else if a == 0xce
    then table_ce
    else if a == 0xcf
    then table_cf
    else []

abbrev pub is_lead : ℕ → Bool
is_lead a = (a == 0xc2) || (a == 0xc3) || (a == 0xc4) || (a == 0xc5) || (a == 0xce) || (a == 0xcf)

convert_char_one :
    (a : ℕ) (rest : List ℕ)
    → is_lead a ≡ false
    → (a == 0xe2) ≡ false
    → convert_char (a ∷ rest) ≡ (single a, rest)
unfolding convert_char
convert_char_one a rest h k = ground arith

convert_char_two :
    (a b : ℕ) (rest : List ℕ)
    → is_lead a ≡ true
    → convert_char (a ∷ b ∷ rest) ≡ (pick (switch_of a) b, rest)
unfolding convert_char
convert_char_two a b rest h = ground arith

convert_char_three :
    (b c : ℕ) (rest : List ℕ)
    → (b == 0x80) || (b == 0x82) || (b == 0x86) ≡ true
    → convert_char (0xe2 ∷ b ∷ c ∷ rest) ≡ (after_e2 b c, rest)
unfolding convert_char
convert_char_three b c rest h = ground arith

-- Is the character with these bytes converted to the code?
is_read : ℕ → List ℕ → Bool
is_read code (a ∷ []) = not (is_lead a) && not (a == 0xe2) && not (a == 0) && (single a == code)
is_read code (a ∷ b ∷ []) = is_lead a && (pick (switch_of a) b == code)
is_read code (a ∷ b ∷ c ∷ []) =
    (a == 0xe2) && ((b == 0x80) || (b == 0x82) || (b == 0x86)) && (after_e2 b c == code)
is_read code _ = false

is_read_sound :
    (code : ℕ) (bytes rest : List ℕ)
    → is_read code bytes ≡ true
    → (convert_char (bytes ++ rest) ≡ (code, rest)) × (get_or (bytes ++ rest) 0 0 ≢ 0)
unfolding is_read
is_read_sound code [] rest h = cc
is_read_sound code (a ∷ []) rest h = (ground (arith, convert_char_one a rest), ground arith)
is_read_sound code (a ∷ b ∷ []) rest h = (ground (arith, convert_char_two a b rest), ground arith)
is_read_sound code (a ∷ b ∷ c ∷ []) rest h =
    let lead : a ≡ 0xe2 = ground arith in
    (rw lead (ground (arith, convert_char_three b c rest)), ground arith)
is_read_sound code (a ∷ b ∷ c ∷ d ∷ bytes) rest h = cc

-- The codes with a character.
abbrev pub InRepertoire : ℕ → Type 0
InRepertoire code = (code < 256) × (utf8 code ≢ [])

is_empty : List ℕ → Bool
is_empty [] = true
is_empty (c ∷ cs) = false

repertoire_table : all_below 256 (λ code. is_empty (utf8 code) || is_read code (utf8 code)) ≡ true
unfolding all_below is_empty utf8 is_read pick single after_e2
repertoire_table = refl

-- The text of codes, in UTF-8.
abbrev pub utf8_text : List ℕ → List ℕ
utf8_text [] = []
utf8_text (code ∷ codes) = utf8 code ++ utf8_text codes

utf8-is_read : (code : ℕ) → InRepertoire code → is_read code (utf8 code) ≡ true
unfolding is_empty
utf8-is_read code (h, some) =
    let t = all_below_sound 256 code _ repertoire_table h in
    elim (Bool-cases (is_empty (utf8 code))) [
      | inl e ↦ absurd (some (empty_lem (utf8 code) e))
      | inr full ↦ ground (arith, t)
    ]
  where
    empty_lem : (xs : List ℕ) → is_empty xs ≡ true → xs ≡ []
    empty_lem [] e = refl
    empty_lem (x ∷ xs) e = cc

convert_chars-next :
    (left code : ℕ) (bytes rest : List ℕ)
    → is_read code bytes ≡ true
    → convert_chars (suc left) (bytes ++ rest) ≡ code ∷ convert_chars left rest
unfolding convert_chars
convert_chars-next left code bytes rest h =
    let (read, full) = is_read_sound code bytes rest h in
    let more : (get_or (bytes ++ rest) 0 0 == 0) ≡ false = ground arith in rw (more, read) refl

convert_chars-utf8_text :
    (left : ℕ) (codes stray : List ℕ)
    → All InRepertoire codes
    → convert_chars left (utf8_text codes ++ (0 ∷ stray)) ≡ take left codes
unfolding convert_chars
convert_chars-utf8_text zero codes stray h = refl
convert_chars-utf8_text (suc left) [] stray h = refl
convert_chars-utf8_text (suc left) (code ∷ codes) stray h =
    ap (convert_chars (suc left)) (append_assoc (utf8 code) (utf8_text codes) (0 ∷ stray))
    ∙ convert_chars-next left code (utf8 code) (utf8_text codes ++ (0 ∷ stray))
        (utf8-is_read code h.0)
    ∙ ap (◌∷◌ code) (convert_chars-utf8_text left codes stray h.1)

-- From a text of characters of the repertoire in UTF-8, `convert_to_rdscharset` writes their codes, as
-- many as `buffer_size`, and a NUL behind them; what lies behind the text plays no part.
pub convert_to_rdscharset-utf8_text :
    (codes stray : List ℕ) (buffer_size : ℕ)
    → All InRepertoire codes
    → convert_to_rdscharset (utf8_text codes ++ (0 ∷ stray)) buffer_size
      ≡ take buffer_size codes ++ (0 ∷ [])
unfolding convert_to_rdscharset
convert_to_rdscharset-utf8_text codes stray buffer_size h =
    ap (λ t. t ++ (0 ∷ [])) (convert_chars-utf8_text buffer_size codes stray h)

-- A text that fills the buffer is written past its end: with at least `buffer_size` characters of the
-- repertoire, the NUL is the cell number `buffer_size`, one behind the last.
pub convert_to_rdscharset_overflow :
    (codes stray : List ℕ) (buffer_size : ℕ)
    → All InRepertoire codes
    → buffer_size ≤ length codes
    → length (convert_to_rdscharset (utf8_text codes ++ (0 ∷ stray)) buffer_size) ≡ buffer_size + 1
convert_to_rdscharset_overflow codes stray buffer_size h long =
    ap length (convert_to_rdscharset-utf8_text codes stray buffer_size h)
    ∙ omega (arith, length-append (take buffer_size codes) (0 ∷ []), length-take buffer_size codes)

-- No text at all is written further than that.
convert_chars-length : (left : ℕ) (mem : List ℕ) → length (convert_chars left mem) ≤ left
unfolding convert_chars
convert_chars-length zero mem = omega arith
convert_chars-length (suc left) mem = ground (arith, convert_chars-length left (convert_char mem).1)

nul_table : all_below 256 (λ a. not (is_lead a) || (pick (switch_of a) 0 == 0x3f)) ≡ true
unfolding all_below pick
nul_table = refl

-- A text that ends in the first byte of a longer character is read past its end: the NUL is taken
-- for the second byte, a question mark is written, and the characters that follow come from the
-- memory behind the text.
pub convert_chars_past_end :
    (left a : ℕ) (stray : List ℕ)
    → a < 256
    → is_lead a || (a == 0xe2) ≡ true
    → convert_chars (suc left) (a ∷ 0 ∷ stray) ≡ 0x3f ∷ convert_chars left stray
unfolding convert_chars
convert_chars_past_end left a stray h lead = elim (Bool-cases (is_lead a)) [
  | inl two ↦
      let mark : pick (switch_of a) 0 ≡ 0x3f =
        let t = all_below_sound 256 a _ nul_table h in ground arith in
      let more : (a == 0) ≡ false = ground arith in
      rw (more, convert_char_two a 0 stray two, mark) refl
  | inr three ↦
      let e2 : a ≡ 0xe2 = ground arith in
      ap (λ t. convert_chars (suc left) (t ∷ 0 ∷ stray)) e2
      ∙ unfold convert_char in unfold after_e2 in refl
]
