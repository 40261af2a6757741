-- ===== src/Charset/Repertoire.antt =====
-- The repertoire of RDS: the UTF-8 form of each character.
use rds.Common.{ℕ, List, [], ◌∷◌, ◌==◌, if◌then◌else◌}

-- A code, and its character in UTF-8.
abbrev repertoire : List (ℕ × List ℕ)
repertoire =
    (0x0a, 0x0a ∷ [])
    ∷ (0x0d, 0x0d ∷ [])
    ∷ (0x1f, 0x1f ∷ [])
    ∷ (0x20, 0x20 ∷ [])
    ∷ (0x21, 0x21 ∷ [])
    ∷ (0x22, 0x22 ∷ [])
    ∷ (0x23, 0x23 ∷ [])
    ∷ (0x24, 0xc2 ∷ 0xa4 ∷ [])
    ∷ (0x25, 0x25 ∷ [])
    ∷ (0x26, 0x26 ∷ [])
    ∷ (0x27, 0x27 ∷ [])
    ∷ (0x28, 0x28 ∷ [])
    ∷ (0x29, 0x29 ∷ [])
    ∷ (0x2a, 0x2a ∷ [])
    ∷ (0x2b, 0x2b ∷ [])
    ∷ (0x2c, 0x2c ∷ [])
    ∷ (0x2d, 0x2d ∷ [])
    ∷ (0x2e, 0x2e ∷ [])
    ∷ (0x2f, 0x2f ∷ [])
    ∷ (0x30, 0x30 ∷ [])
    ∷ (0x31, 0x31 ∷ [])
    ∷ (0x32, 0x32 ∷ [])
    ∷ (0x33, 0x33 ∷ [])
    ∷ (0x34, 0x34 ∷ [])
    ∷ (0x35, 0x35 ∷ [])
    ∷ (0x36, 0x36 ∷ [])
    ∷ (0x37, 0x37 ∷ [])
    ∷ (0x38, 0x38 ∷ [])
    ∷ (0x39, 0x39 ∷ [])
    ∷ (0x3a, 0x3a ∷ [])
    ∷ (0x3b, 0x3b ∷ [])
    ∷ (0x3c, 0x3c ∷ [])
    ∷ (0x3d, 0x3d ∷ [])
    ∷ (0x3e, 0x3e ∷ [])
    ∷ (0x3f, 0x3f ∷ [])
    ∷ (0x40, 0x40 ∷ [])
    ∷ (0x41, 0x41 ∷ [])
    ∷ (0x42, 0x42 ∷ [])
    ∷ (0x43, 0x43 ∷ [])
    ∷ (0x44, 0x44 ∷ [])
    ∷ (0x45, 0x45 ∷ [])
    ∷ (0x46, 0x46 ∷ [])
    ∷ (0x47, 0x47 ∷ [])
    ∷ (0x48, 0x48 ∷ [])
    ∷ (0x49, 0x49 ∷ [])
    ∷ (0x4a, 0x4a ∷ [])
    ∷ (0x4b, 0x4b ∷ [])
    ∷ (0x4c, 0x4c ∷ [])
    ∷ (0x4d, 0x4d ∷ [])
    ∷ (0x4e, 0x4e ∷ [])
    ∷ (0x4f, 0x4f ∷ [])
    ∷ (0x50, 0x50 ∷ [])
    ∷ (0x51, 0x51 ∷ [])
    ∷ (0x52, 0x52 ∷ [])
    ∷ (0x53, 0x53 ∷ [])
    ∷ (0x54, 0x54 ∷ [])
    ∷ (0x55, 0x55 ∷ [])
    ∷ (0x56, 0x56 ∷ [])
    ∷ (0x57, 0x57 ∷ [])
    ∷ (0x58, 0x58 ∷ [])
    ∷ (0x59, 0x59 ∷ [])
    ∷ (0x5a, 0x5a ∷ [])
    ∷ (0x5b, 0x5b ∷ [])
    ∷ (0x5c, 0x5c ∷ [])
    ∷ (0x5d, 0x5d ∷ [])
    ∷ (0x5e, 0xe2 ∷ 0x80 ∷ 0x95 ∷ [])
    ∷ (0x5f, 0x5f ∷ [])
    ∷ (0x60, 0xe2 ∷ 0x80 ∷ 0x96 ∷ [])
    ∷ (0x61, 0x61 ∷ [])
    ∷ (0x62, 0x62 ∷ [])
    ∷ (0x63, 0x63 ∷ [])
    ∷ (0x64, 0x64 ∷ [])
    ∷ (0x65, 0x65 ∷ [])
    ∷ (0x66, 0x66 ∷ [])
    ∷ (0x67, 0x67 ∷ [])
    ∷ (0x68, 0x68 ∷ [])
    ∷ (0x69, 0x69 ∷ [])
    ∷ (0x6a, 0x6a ∷ [])
    ∷ (0x6b, 0x6b ∷ [])
    ∷ (0x6c, 0x6c ∷ [])
    ∷ (0x6d, 0x6d ∷ [])
    ∷ (0x6e, 0x6e ∷ [])
    ∷ (0x6f, 0x6f ∷ [])
    ∷ (0x70, 0x70 ∷ [])
    ∷ (0x71, 0x71 ∷ [])
    ∷ (0x72, 0x72 ∷ [])
    ∷ (0x73, 0x73 ∷ [])
    ∷ (0x74, 0x74 ∷ [])
    ∷ (0x75, 0x75 ∷ [])
    ∷ (0x76, 0x76 ∷ [])
    ∷ (0x77, 0x77 ∷ [])
    ∷ (0x78, 0x78 ∷ [])
    ∷ (0x79, 0x79 ∷ [])
    ∷ (0x7a, 0x7a ∷ [])
    ∷ (0x7b, 0x7b ∷ [])
    ∷ (0x7c, 0x7c ∷ [])
    ∷ (0x7d, 0x7d ∷ [])
    ∷ (0x7e, 0xe2 ∷ 0x80 ∷ 0xbe ∷ [])
    ∷ (0x80, 0xc3 ∷ 0xa1 ∷ [])
    ∷ (0x81, 0xc3 ∷ 0xa0 ∷ [])
    ∷ (0x82, 0xc3 ∷ 0xa9 ∷ [])
    ∷ (0x83, 0xc3 ∷ 0xa8 ∷ [])
    ∷ (0x84, 0xc3 ∷ 0xad ∷ [])
    ∷ (0x85, 0xc3 ∷ 0xac ∷ [])
    ∷ (0x86, 0xc3 ∷ 0xb3 ∷ [])
    ∷ (0x87, 0xc3 ∷ 0xb2 ∷ [])
    ∷ (0x88, 0xc3 ∷ 0xba ∷ [])
    ∷ (0x89, 0xc3 ∷ 0xb9 ∷ [])
    ∷ (0x8a, 0xc3 ∷ 0x91 ∷ [])
    ∷ (0x8b, 0xc3 ∷ 0x87 ∷ [])
    ∷ (0x8c, 0xc5 ∷ 0x9e ∷ [])
    ∷ (0x8d, 0xc3 ∷ 0x9f ∷ [])
    ∷ (0x8e, 0xc2 ∷ 0xa1 ∷ [])
    ∷ (0x8f, 0xc4 ∷ 0xb2 ∷ [])
    ∷ (0x90, 0xc3 ∷ 0xa2 ∷ [])
    ∷ (0x91, 0xc3 ∷ 0xa4 ∷ [])
    ∷ (0x92, 0xc3 ∷ 0xaa ∷ [])
    ∷ (0x93, 0xc3 ∷ 0xab ∷ [])
    ∷ (0x94, 0xc3 ∷ 0xae ∷ [])
    ∷ (0x95, 0xc3 ∷ 0xaf ∷ [])
    ∷ (0x96, 0xc3 ∷ 0xb4 ∷ [])
    ∷ (0x97, 0xc3 ∷ 0xb6 ∷ [])
    ∷ (0x98, 0xc3 ∷ 0xbb ∷ [])
    ∷ (0x99, 0xc3 ∷ 0xbc ∷ [])
    ∷ (0x9a, 0xc3 ∷ 0xb1 ∷ [])
    ∷ (0x9b, 0xc3 ∷ 0xa7 ∷ [])
    ∷ (0x9c, 0xc5 ∷ 0x9f ∷ [])
    ∷ (0x9d, 0xc4 ∷ 0x9f ∷ [])
    ∷ (0x9e, 0xc4 ∷ 0xb1 ∷ [])
    ∷ (0x9f, 0xc4 ∷ 0xb3 ∷ [])
    ∷ (0xa0, 0xc2 ∷ 0xaa ∷ [])
    ∷ (0xa1, 0xce ∷ 0xb1 ∷ [])
    ∷ (0xa2, 0xc2 ∷ 0xa9 ∷ [])
    ∷ (0xa3, 0xe2 ∷ 0x80 ∷ 0xb0 ∷ [])
    ∷ (0xa4, 0xc4 ∷ 0x9e ∷ [])
    ∷ (0xa5, 0xc4 ∷ 0x9b ∷ [])
    ∷ (0xa6, 0xc5 ∷ 0x88 ∷ [])
    ∷ (0xa7, 0xc5 ∷ 0x91 ∷ [])
    ∷ (0xa8, 0xcf ∷ 0x80 ∷ [])
    ∷ (0xa9, 0xe2 ∷ 0x82 ∷ 0xac ∷ [])
    ∷ (0xaa, 0xc2 ∷ 0xa3 ∷ [])
    ∷ (0xab, 0x24 ∷ [])
    ∷ (0xac, 0xe2 ∷ 0x86 ∷ 0x90 ∷ [])
    ∷ (0xad, 0xe2 ∷ 0x86 ∷ 0x91 ∷ [])
    ∷ (0xae, 0xe2 ∷ 0x86 ∷ 0x92 ∷ [])
    ∷ (0xaf, 0xe2 ∷ 0x86 ∷ 0x93 ∷ [])
    ∷ (0xb0, 0xc2 ∷ 0xba ∷ [])
    ∷ (0xb1, 0xc2 ∷ 0xb9 ∷ [])
    ∷ (0xb2, 0xc2 ∷ 0xb2 ∷ [])
    ∷ (0xb3, 0xc2 ∷ 0xb3 ∷ [])
    ∷ (0xb4, 0xc2 ∷ 0xb1 ∷ [])
    ∷ (0xb5, 0xc4 ∷ 0xb0 ∷ [])
    ∷ (0xb6, 0xc5 ∷ 0x84 ∷ [])
    ∷ (0xb7, 0xc5 ∷ 0xb1 ∷ [])
    ∷ (0xb8, 0xc2 ∷ 0xb5 ∷ [])
    ∷ (0xb9, 0xc2 ∷ 0xbf ∷ [])
    ∷ (0xba, 0xc3 ∷ 0xb7 ∷ [])
    ∷ (0xbb, 0xc2 ∷ 0xb0 ∷ [])
    ∷ (0xbc, 0xc2 ∷ 0xbc ∷ [])
    ∷ (0xbd, 0xc2 ∷ 0xbd ∷ [])
    ∷ (0xbe, 0xc2 ∷ 0xbe ∷ [])
    ∷ (0xbf, 0xc2 ∷ 0xa7 ∷ [])
    ∷ (0xc0, 0xc3 ∷ 0x81 ∷ [])
    ∷ (0xc1, 0xc3 ∷ 0x80 ∷ [])
    ∷ (0xc2, 0xc3 ∷ 0x89 ∷ [])
    ∷ (0xc3, 0xc3 ∷ 0x88 ∷ [])
    ∷ (0xc4, 0xc3 ∷ 0x8d ∷ [])
    ∷ (0xc5, 0xc3 ∷ 0x8c ∷ [])
    ∷ (0xc6, 0xc3 ∷ 0x93 ∷ [])
    ∷ (0xc7, 0xc3 ∷ 0x92 ∷ [])
    ∷ (0xc8, 0xc3 ∷ 0x9a ∷ [])
    ∷ (0xc9, 0xc3 ∷ 0x99 ∷ [])
    ∷ (0xca, 0xc5 ∷ 0x98 ∷ [])
    ∷ (0xcb, 0xc4 ∷ 0x8c ∷ [])
    ∷ (0xcc, 0xc5 ∷ 0xa0 ∷ [])
    ∷ (0xcd, 0xc5 ∷ 0xbd ∷ [])
    ∷ (0xce, 0xc3 ∷ 0x90 ∷ [])
    ∷ (0xcf, 0xc4 ∷ 0xbf ∷ [])
    ∷ (0xd0, 0xc3 ∷ 0x82 ∷ [])
    ∷ (0xd1, 0xc3 ∷ 0x84 ∷ [])
    ∷ (0xd2, 0xc3 ∷ 0x8a ∷ [])
    ∷ (0xd3, 0xc3 ∷ 0x8b ∷ [])
    ∷ (0xd4, 0xc3 ∷ 0x8e ∷ [])
    ∷ (0xd5, 0xc3 ∷ 0x8f ∷ [])
    ∷ (0xd6, 0xc3 ∷ 0x94 ∷ [])
    ∷ (0xd7, 0xc3 ∷ 0x96 ∷ [])
    ∷ (0xd8, 0xc3 ∷ 0x9b ∷ [])
    ∷ (0xd9, 0xc3 ∷ 0x9c ∷ [])
    ∷ (0xda, 0xc5 ∷ 0x99 ∷ [])
    ∷ (0xdb, 0xc4 ∷ 0x8d ∷ [])
    ∷ (0xdc, 0xc5 ∷ 0xa1 ∷ [])
    ∷ (0xdd, 0xc5 ∷ 0xbe ∷ [])
    ∷ (0xde, 0xc4 ∷ 0x91 ∷ [])
    ∷ (0xdf, 0xc5 ∷ 0x80 ∷ [])
    ∷ (0xe0, 0xc3 ∷ 0x83 ∷ [])
    ∷ (0xe1, 0xc3 ∷ 0x85 ∷ [])
    ∷ (0xe2, 0xc3 ∷ 0x86 ∷ [])
    ∷ (0xe3, 0xc5 ∷ 0x92 ∷ [])
    ∷ (0xe4, 0xc5 ∷ 0xb7 ∷ [])
    ∷ (0xe5, 0xc3 ∷ 0x9d ∷ [])
    ∷ (0xe6, 0xc3 ∷ 0x95 ∷ [])
    ∷ (0xe7, 0xc3 ∷ 0x98 ∷ [])
    ∷ (0xe8, 0xc3 ∷ 0x9e ∷ [])
    ∷ (0xe9, 0xc5 ∷ 0x8a ∷ [])
    ∷ (0xea, 0xc5 ∷ 0x94 ∷ [])
    ∷ (0xeb, 0xc4 ∷ 0x86 ∷ [])
    ∷ (0xec, 0xc5 ∷ 0x9a ∷ [])
    ∷ (0xed, 0xc5 ∷ 0xb9 ∷ [])
    ∷ (0xee, 0xc5 ∷ 0xa6 ∷ [])
    ∷ (0xef, 0xc3 ∷ 0xb0 ∷ [])
    ∷ (0xf0, 0xc3 ∷ 0xa3 ∷ [])
    ∷ (0xf1, 0xc3 ∷ 0xa5 ∷ [])
    ∷ (0xf2, 0xc3 ∷ 0xa6 ∷ [])
    ∷ (0xf3, 0xc5 ∷ 0x93 ∷ [])
    ∷ (0xf4, 0xc5 ∷ 0xb5 ∷ [])
    ∷ (0xf5, 0xc3 ∷ 0xbd ∷ [])
    ∷ (0xf6, 0xc3 ∷ 0xb5 ∷ [])
    ∷ (0xf7, 0xc3 ∷ 0xb8 ∷ [])
    ∷ (0xf8, 0xc3 ∷ 0xbe ∷ [])
    ∷ (0xf9, 0xc5 ∷ 0x8b ∷ [])
    ∷ (0xfa, 0xc5 ∷ 0x95 ∷ [])
    ∷ (0xfb, 0xc4 ∷ 0x87 ∷ [])
    ∷ (0xfc, 0xc5 ∷ 0x9b ∷ [])
    ∷ (0xfd, 0xc5 ∷ 0xba ∷ [])
    ∷ (0xfe, 0xc5 ∷ 0xa7 ∷ [])
    ∷ []

utf8_in : List (ℕ × List ℕ) → ℕ → List ℕ
utf8_in [] code = []
utf8_in ((k, bytes) ∷ entries) code = if code == k then bytes else utf8_in entries code

-- The character of a code; an unused code has none.
unfoldable pub utf8 : ℕ → List ℕ
unfolding utf8_in
utf8 = utf8_in repertoire
