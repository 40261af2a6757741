-- ===== src/Setters/Sizes.antt =====
-- The loops of the text setters keep the size of their array, and the segments fit it.
use rds.Common.{ℕ, zero, suc, ◌+◌, ◌/◌, ◌≤◌, ◌≡◌, refl, ◌∙◌, arith}
use rds.Common.{List, [], ◌∷◌, Bool, inl, inr, Bool-cases, ltb, leb}
use rds.Common.{length, set, length-set, ◌||◌}
use package.rds.Setters.{copy_chars, copy_sequence, count_segments, end_text, text_segments}

pub length-copy_chars :
    (stop : ℕ → Bool) (limit : ℕ) (dest : List ℕ) (len : ℕ) (src : List ℕ)
    → length (copy_chars stop limit dest len src).1 ≡ length dest
unfolding copy_chars
length-copy_chars stop limit dest len [] = refl
length-copy_chars stop limit dest len (c ∷ cs) = elim (Bool-cases (stop c || leb limit len)) [
  | inl done ↦ rw done refl
  | inr more ↦
      rw more (length-copy_chars stop limit (set dest len c) (len + 1) cs ∙ length-set dest len c)
]

pub length-copy_sequence :
    (n : ℕ) (dest : List ℕ) (len : ℕ) (src : List ℕ)
    → length (copy_sequence n dest len src) ≡ length dest
unfolding copy_sequence
length-copy_sequence zero dest len src = refl
length-copy_sequence (suc n) dest len [] = refl
length-copy_sequence (suc n) dest len (c ∷ cs) =
    length-copy_sequence n (set dest len c) (len + 1) cs ∙ length-set dest len c

pub length-end_text :
    (limit : ℕ) (buf : List ℕ) (len : ℕ) → length (end_text limit buf len) ≡ length buf
unfolding end_text
length-end_text limit buf len = elim (Bool-cases (ltb len limit)) [
  | inl short ↦ rw short (length-set buf len 0x0d)
  | inr full ↦ rw full refl
]

pub text_segments-le : (m limit len : ℕ) → text_segments m limit len ≤ limit / 4
unfolding text_segments
text_segments-le m limit len = let n = count_segments 16 m 0 (len + 1) 0 in ground arith
