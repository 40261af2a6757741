-- ===== src/Charset.antt =====
-- `convert_to_rdscharset` of src/lib.c: UTF-8 to the characters of RDS. The memory from `str` on is a
-- list, with the NUL and what lies behind it; past its end it reads as 0.
pub mod Repertoire
pub mod Laws
use rds.Common.{ℕ, zero, suc, List, [], ◌∷◌, ◌++◌, ◌==◌, if◌then◌else◌, get_or, drop}

-- The cases of one character, up to the number sign.
abbrev table_low : List (ℕ × ℕ)
table_low =
    (0x0a, 0x0a)
    ∷ (0x0d, 0x0d)
    ∷ (0x1f, 0x1f)
    ∷ (0x20, 0x20)
    ∷ (0x21, 0x21)
    ∷ (0x22, 0x22)
    ∷ (0x23, 0x23)
    ∷ []

-- The nested switches: Latin-1 signs.
abbrev table_c2 : List (ℕ × ℕ)
table_c2 =
    (0xa4, 0x24)
    ∷ (0xa1, 0x8e)
    ∷ (0xaa, 0xa0)
    ∷ (0xa9, 0xa2)
    ∷ (0xa3, 0xaa)
    ∷ (0xba, 0xb0)
    ∷ (0xb9, 0xb1)
    ∷ (0xb2, 0xb2)
    ∷ (0xb3, 0xb3)
    ∷ (0xb1, 0xb4)
    ∷ (0xb5, 0xb8)
    ∷ (0xbf, 0xb9)
    ∷ (0xb0, 0xbb)
    ∷ (0xbc, 0xbc)
    ∷ (0xbd, 0xbd)
    ∷ (0xbe, 0xbe)
    ∷ (0xa7, 0xbf)
    ∷ []

-- The cases of one character, from the percent sign on.
abbrev table_mid : List (ℕ × ℕ)
table_mid =
    (0x25, 0x25)
    ∷ (0x26, 0x26)
    ∷ (0x27, 0x27)
    ∷ (0x28, 0x28)
    ∷ (0x29, 0x29)
    ∷ (0x2a, 0x2a)
    ∷ (0x2b, 0x2b)
    ∷ (0x2c, 0x2c)
    ∷ (0x2d, 0x2d)
    ∷ (0x2e, 0x2e)
    ∷ (0x2f, 0x2f)
    ∷ (0x30, 0x30)
    ∷ (0x31, 0x31)
    ∷ (0x32, 0x32)
    ∷ (0x33, 0x33)
    ∷ (0x34, 0x34)
    ∷ (0x35, 0x35)
    ∷ (0x36, 0x36)
    ∷ (0x37, 0x37)
    ∷ (0x38, 0x38)
    ∷ (0x39, 0x39)
    ∷ (0x3a, 0x3a)
    ∷ (0x3b, 0x3b)
    ∷ (0x3c, 0x3c)
    ∷ (0x3d, 0x3d)
    ∷ (0x3e, 0x3e)
    ∷ (0x3f, 0x3f)
    ∷ (0x40, 0x40)
    ∷ (0x41, 0x41)
    ∷ (0x42, 0x42)
    ∷ (0x43, 0x43)
    ∷ (0x44, 0x44)
    ∷ (0x45, 0x45)
    ∷ (0x46, 0x46)
    ∷ (0x47, 0x47)
    ∷ (0x48, 0x48)
    ∷ (0x49, 0x49)
    ∷ (0x4a, 0x4a)
    ∷ (0x4b, 0x4b)
    ∷ (0x4c, 0x4c)
    ∷ (0x4d, 0x4d)
    ∷ (0x4e, 0x4e)
    ∷ (0x4f, 0x4f)
    ∷ (0x50, 0x50)
    ∷ (0x51, 0x51)
    ∷ (0x52, 0x52)
    ∷ (0x53, 0x53)
    ∷ (0x54, 0x54)
    ∷ (0x55, 0x55)
    ∷ (0x56, 0x56)
    ∷ (0x57, 0x57)
    ∷ (0x58, 0x58)
    ∷ (0x59, 0x59)
    ∷ (0x5a, 0x5a)
    ∷ (0x5b, 0x5b)
    ∷ (0x5c, 0x5c)
    ∷ (0x5d, 0x5d)
    ∷ []

-- General punctuation.
abbrev table_e280 : List (ℕ × ℕ)
table_e280 = (0x95, 0x5e) ∷ (0x96, 0x60) ∷ (0xbe, 0x7e) ∷ (0xb0, 0xa3) ∷ []

-- The euro.
abbrev table_e282 : List (ℕ × ℕ)
table_e282 = (0xac, 0xa9) ∷ []

-- The arrows.
abbrev table_e286 : List (ℕ × ℕ)
table_e286 = (0x90, 0xac) ∷ (0x91, 0xad) ∷ (0x92, 0xae) ∷ (0x93, 0xaf) ∷ []

-- The cases of one character, the rest of ASCII.
abbrev table_high : List (ℕ × ℕ)
table_high =
    (0x5f, 0x5f)
    ∷ (0x61, 0x61)
    ∷ (0x62, 0x62)
    ∷ (0x63, 0x63)
    ∷ (0x64, 0x64)
    ∷ (0x65, 0x65)
    ∷ (0x66, 0x66)
    ∷ (0x67, 0x67)
    ∷ (0x68, 0x68)
    ∷ (0x69, 0x69)
    ∷ (0x6a, 0x6a)
    ∷ (0x6b, 0x6b)
    ∷ (0x6c, 0x6c)
    ∷ (0x6d, 0x6d)
    ∷ (0x6e, 0x6e)
    ∷ (0x6f, 0x6f)
    ∷ (0x70, 0x70)
    ∷ (0x71, 0x71)
    ∷ (0x72, 0x72)
    ∷ (0x73, 0x73)
    ∷ (0x74, 0x74)
    ∷ (0x75, 0x75)
    ∷ (0x76, 0x76)
    ∷ (0x77, 0x77)
    ∷ (0x78, 0x78)
    ∷ (0x79, 0x79)
    ∷ (0x7a, 0x7a)
    ∷ (0x7b, 0x7b)
    ∷ (0x7c, 0x7c)
    ∷ (0x7d, 0x7d)
    ∷ []

-- Latin-1 letters.
abbrev table_c3 : List (ℕ × ℕ)
table_c3 =
    (0xa1, 0x80)
    ∷ (0xa0, 0x81)
    ∷ (0xa9, 0x82)
    ∷ (0xa8, 0x83)
    ∷ (0xad, 0x84)
    ∷ (0xac, 0x85)
    ∷ (0xb3, 0x86)
    ∷ (0xb2, 0x87)
    ∷ (0xba, 0x88)
    ∷ (0xb9, 0x89)
    ∷ (0x91, 0x8a)
    ∷ (0x87, 0x8b)
    ∷ (0x9f, 0x8d)
    ∷ (0xa2, 0x90)
    ∷ (0xa4, 0x91)
    ∷ (0xaa, 0x92)
    ∷ (0xab, 0x93)
    ∷ (0xae, 0x94)
    ∷ (0xaf, 0x95)
    ∷ (0xb4, 0x96)
    ∷ (0xb6, 0x97)
    ∷ (0xbb, 0x98)
    ∷ (0xbc, 0x99)
    ∷ (0xb1, 0x9a)
    ∷ (0xa7, 0x9b)
    ∷ (0xb7, 0xba)
    ∷ (0x81, 0xc0)
    ∷ (0x80, 0xc1)
    ∷ (0x89, 0xc2)
    ∷ (0x88, 0xc3)
    ∷ (0x8d, 0xc4)
    ∷ (0x8c, 0xc5)
    ∷ (0x93, 0xc6)
    ∷ (0x92, 0xc7)
    ∷ (0x9a, 0xc8)
    ∷ (0x99, 0xc9)
    ∷ (0x90, 0xce)
    ∷ (0x82, 0xd0)
    ∷ (0x84, 0xd1)
    ∷ (0x8a, 0xd2)
    ∷ (0x8b, 0xd3)
    ∷ (0x8e, 0xd4)
    ∷ (0x8f, 0xd5)
    ∷ (0x94, 0xd6)
    ∷ (0x96, 0xd7)
    ∷ (0x9b, 0xd8)
    ∷ (0x9c, 0xd9)
    ∷ (0x83, 0xe0)
    ∷ (0x85, 0xe1)
    ∷ (0x86, 0xe2)
    ∷ (0x9d, 0xe5)
    ∷ (0x95, 0xe6)
    ∷ (0x98, 0xe7)
    ∷ (0x9e, 0xe8)
    ∷ (0xb0, 0xef)
    ∷ (0xa3, 0xf0)
    ∷ (0xa5, 0xf1)
    ∷ (0xa6, 0xf2)
    ∷ (0xbd, 0xf5)
    ∷ (0xb5, 0xf6)
    ∷ (0xb8, 0xf7)
    ∷ (0xbe, 0xf8)
    ∷ []

-- Latin Extended-A, from U+0140 on.
abbrev table_c5 : List (ℕ × ℕ)
table_c5 =
    (0x9e, 0x8c)
    ∷ (0x9f, 0x9c)
    ∷ (0x88, 0xa6)
    ∷ (0x91, 0xa7)
    ∷ (0x84, 0xb6)
    ∷ (0xb1, 0xb7)
    ∷ (0x98, 0xca)
    ∷ (0xa0, 0xcc)
    ∷ (0xbd, 0xcd)
    ∷ (0x99, 0xda)
    ∷ (0xa1, 0xdc)
    ∷ (0xbe, 0xdd)
    ∷ (0x80, 0xdf)
    ∷ (0x92, 0xe3)
    ∷ (0xb7, 0xe4)
    ∷ (0x8a, 0xe9)
    ∷ (0x94, 0xea)
    ∷ (0x9a, 0xec)
    ∷ (0xb9, 0xed)
    ∷ (0xa6, 0xee)
    ∷ (0x93, 0xf3)
    ∷ (0xb5, 0xf4)
    ∷ (0x8b, 0xf9)
    ∷ (0x95, 0xfa)
    ∷ (0x9b, 0xfc)
    ∷ (0xba, 0xfd)
    ∷ (0xa7, 0xfe)
    ∷ []

-- Latin Extended-A, up to U+013F.
abbrev table_c4 : List (ℕ × ℕ)
table_c4 =
    (0xb2, 0x8f)
    ∷ (0x9f, 0x9d)
    ∷ (0xb1, 0x9e)
    ∷ (0xb3, 0x9f)
    ∷ (0x9e, 0xa4)
    ∷ (0x9b, 0xa5)
    ∷ (0xb0, 0xb5)
    ∷ (0x8c, 0xcb)
    ∷ (0xbf, 0xcf)
    ∷ (0x8d, 0xdb)
    ∷ (0x91, 0xde)
    ∷ (0x86, 0xeb)
    ∷ (0x87, 0xfb)
    ∷ []

-- Greek alpha.
abbrev table_ce : List (ℕ × ℕ)
table_ce = (0xb1, 0xa1) ∷ []

-- Greek pi.
abbrev table_cf : List (ℕ × ℕ)
table_cf = (0x80, 0xa8) ∷ []

-- The dollar sign.
abbrev table_dollar : List (ℕ × ℕ)
table_dollar = (0x24, 0xab) ∷ []

-- A switch whose default is the question mark.
unfoldable pub pick : List (ℕ × ℕ) → ℕ → ℕ
pick [] c = 0x3f
pick ((key, code) ∷ cases) c = if c == key then code else pick cases c

-- The cases of one character.
unfoldable pub single : ℕ → ℕ
single = pick (table_low ++ table_mid ++ table_high ++ table_dollar)

-- The switch behind the byte 0xe2, on the two bytes that follow; the second is read only where the
-- first has a switch of its own.
unfoldable pub after_e2 : ℕ → ℕ → ℕ
after_e2 b c =
    if b == 0x80
    then pick table_e280 c
    else if b == 0x82
    then pick table_e282 c
    else if b == 0x86
    then pick table_e286 c
    else 0x3f

-- The outer switch with the `str++` of each case, and the one behind it: the character, and the
-- memory from the next one on.
unfoldable pub convert_char : List ℕ → ℕ × List ℕ
convert_char mem =
    let a = get_or mem 0 0 in
    let b = get_or mem 1 0 in
    let c = get_or mem 2 0 in
    if a == 0xc2
    then (pick table_c2 b, drop 2 mem)
    else if a == 0xe2
    then (
      after_e2 b c,
      drop (if b == 0x80 then 3 else if b == 0x82 then 3 else if b == 0x86 then 3 else 2) mem,
    )
    else if a == 0xc3
    then (pick table_c3 b, drop 2 mem)
    else if a == 0xc5
    then (pick table_c5 b, drop 2 mem)
    else if a == 0xc4
    then (pick table_c4 b, drop 2 mem)
    else if a == 0xce
    then (pick table_ce b, drop 2 mem)
    else if a == 0xcf
    then (pick table_cf b, drop 2 mem)
    else (single a, drop 1 mem)

-- `while (*str != 0 && i < buffer_size)` with `left` places left.
unfoldable pub convert_chars : ℕ → List ℕ → List ℕ
convert_chars zero mem = []
convert_chars (suc left) mem =
    let (code, mem') = convert_char mem in
    let rest = code ∷ convert_chars left mem' in if get_or mem 0 0 == 0 then [] else rest

-- What is written from `output[0]` on: the characters and the NUL behind them.
unfoldable pub convert_to_rdscharset : List ℕ → ℕ → List ℕ
convert_to_rdscharset mem buffer_size = convert_chars buffer_size mem ++ (0 ∷ [])
