-- ===== src/Tests/Charset.antt =====
-- "Š10 €" on a small buffer.
use rds.Common.{ℕ, ◌≡◌, refl, List, [], ◌∷◌, ◌++◌, length, arith}
use rds.Charset.{convert_chars, convert_to_rdscharset}
use rds.Charset.Repertoire.{utf8}
use rds.Charset.Laws.{convert_to_rdscharset-utf8_text, convert_to_rdscharset_overflow}
use rds.Charset.Laws.{convert_chars_past_end}

abbrev pub price : List ℕ
price = 0xcc ∷ 0x31 ∷ 0x30 ∷ 0x20 ∷ 0xa9 ∷ []

convert_to_rdscharset-utf8_text_example :
    convert_to_rdscharset
      ((0xc5 ∷ 0xa0 ∷ 0x31 ∷ 0x30 ∷ 0x20 ∷ 0xe2 ∷ 0x82 ∷ 0xac ∷ []) ++ (0 ∷ 0x41 ∷ []))
      9
    ≡ price ++ (0 ∷ [])
unfolding utf8
convert_to_rdscharset-utf8_text_example = convert_to_rdscharset-utf8_text price (0x41 ∷ []) 9 (
  (omega arith, λ e. cc),
  (
    (omega arith, λ e. cc),
    ((omega arith, λ e. cc), ((omega arith, λ e. cc), ((omega arith, λ e. cc), tt))),
  ),
)

convert_to_rdscharset_overflow_run :
    length (convert_to_rdscharset ((0x31 ∷ 0x30 ∷ []) ++ (0 ∷ [])) 2) ≡ 3
unfolding utf8
convert_to_rdscharset_overflow_run =
    convert_to_rdscharset_overflow (0x31 ∷ 0x30 ∷ []) [] 2
      ((omega arith, λ e. cc), ((omega arith, λ e. cc), tt)) (omega arith)

convert_chars_past_end_run :
    convert_chars 3 (0xc3 ∷ 0 ∷ 0x41 ∷ 0 ∷ []) ≡ 0x3f ∷ convert_chars 2 (0x41 ∷ 0 ∷ [])
convert_chars_past_end_run = convert_chars_past_end 2 0xc3 (0x41 ∷ 0 ∷ []) (omega arith) refl
