-- ===== src/Setters/Laws.antt =====
-- What the text setters store, as one equation for each.
use rds.Common.{ℕ, suc, ◌+◌, ◌-◌, ◌/◌, ◌%◌, ◌≤◌, ◌<◌, ◌≡◌, refl, ap, ap₂, ◌∙◌}
use rds.Common.{List, [], ◌∷◌, ◌++◌, Bool, inl, inr, arith, Bool-cases}
use rds.Common.{ltb, ◌==◌, if◌then◌else◌, length, get_or, set, replicate}
use mathlib.Core.List.{append-nil}
use rds.Common.{ltb→lt}
use rds.Model.{RdsData, RdsState}
use rds.Setters.{copy_chars, is_nul, is_line_end, end_text, text_segments}
use rds.Setters.{rt_setter, ps_setter, lps_setter}
use rds.Setters.Copy.{text_prefix, padded, trim_end, copy_chars-eq-prefix, trim_spaces-append}
use rds.Setters.Copy.{length-text_prefix, length-trim_end, padded-trim_end, count_segments-eq}
use rds.Setters.Copy.{set-append}

-- A text of at most `n` characters: a carriage return ends one that is shorter.
abbrev pub terminated : ℕ → List ℕ → List ℕ
terminated n t = if ltb (length t) n then t ++ (0x0d ∷ replicate (n - length t - 1) 0x20) else t

-- The number of four-character segments that hold the text and its end.
abbrev pub segments_of : ℕ → List ℕ → ℕ
segments_of n t = if ltb (length t) n then length t / 4 + 1 else n / 4

copied :
    (stop : ℕ → Bool) (n : ℕ) (src : List ℕ)
    → let p = text_prefix stop n src in
      copy_chars stop n (replicate n 0x20) 0 src ≡ (length p, padded n p)
copied stop n src =
    copy_chars-eq-prefix stop n src [] n 0 refl (omega arith)
    ∙ ap₂ (λ a b. (a, b)) (omega arith) refl

-- Storing the carriage return behind a padded text.
set-padded :
    (n : ℕ) (t : List ℕ)
    → length t < n
    → set (padded n t) (length t) 0x0d ≡ t ++ (0x0d ∷ replicate (n - length t - 1) 0x20)
set-padded n t h =
    let room : n - length t ≡ suc (n - length t - 1) = omega arith in
    ap (λ k. set (t ++ replicate k 0x20) (length t) 0x0d) room
    ∙ set-append t (replicate (n - length t - 1) 0x20) (length t) 0x20 0x0d refl

end_text-padded :
    (n : ℕ) (t : List ℕ) → length t ≤ n → end_text n (padded n t) (length t) ≡ terminated n t
unfolding end_text
end_text-padded n t h = elim (Bool-cases (ltb (length t) n)) [
  | inl short ↦ rw short (set-padded n t (ltb→lt _ _ short))
  | inr full ↦
      let none_left : n - length t ≡ 0 = ground arith in
      rw full (ap (λ k. t ++ replicate k 0x20) none_left ∙ append-nil t)
]

text_segments-eq :
    (m n : ℕ) (t : List ℕ)
    → n ≤ 64
    → n / 4 < m
    → n % 4 ≡ 0
    → text_segments m n (length t) ≡ segments_of n t
unfolding text_segments
text_segments-eq m n t small fits even = elim (Bool-cases (ltb (length t) n)) [
  | inl short ↦
      let lt : length t < n = ltb→lt _ _ short in
      rw (short, count_segments-eq 16 m 0 (length t + 1) 0 (omega arith) (omega arith))
        (ground arith)
  | inr full ↦ rw full
]

-- `set_rds_ps` stores the text up to its NUL, cut after eight characters and filled up with
-- spaces, and marks it for transmission; it changes nothing else.
pub ps_setter_lem :
    (d : RdsData) (s : RdsState) (src : List ℕ)
    → ps_setter d s src
      ≡ (record d { ps = padded 8 (text_prefix is_nul 8 src) }, record s { ps_update = 1 })
unfolding ps_setter
ps_setter_lem d s src = rw (copied is_nul 8 src)

-- `set_rds_rt` stores the text up to its NUL or carriage return, cut after 64 characters, without
-- its last spaces; a text shorter than 64 is ended by a carriage return and filled up with spaces.
-- The segments to send are those that hold the text and its end, and the text is marked for
-- transmission; nothing else changes.
pub rt_setter_lem :
    (d : RdsData) (s : RdsState) (src : List ℕ)
    → let t = trim_end (text_prefix is_line_end 64 src) in
      rt_setter d s src ≡ (
        record d { rt = terminated 64 t },
        record s { rt_update = 1; rt_segments = segments_of 64 t },
      )
unfolding rt_setter
rt_setter_lem d s src =
    let p = text_prefix is_line_end 64 src in
    let fits : length (trim_end p) ≤ 64 =
      omega (arith, length-trim_end p, length-text_prefix is_line_end 64 src) in
    rw (
      copied is_line_end 64 src,
      trim_spaces-append p (replicate (64 - length p) 0x20),
      ← padded-trim_end 64 p (length-text_prefix is_line_end 64 src),
      end_text-padded 64 (trim_end p) fits,
      text_segments-eq 32 64 (trim_end p) (omega arith) (omega arith) (omega arith),
    )

-- `set_rds_lps` stores a non-empty text up to its NUL or carriage return, cut after 32 characters,
-- ended by a carriage return if it is shorter and filled up with spaces, with the segments that
-- hold it; an empty text clears the field and keeps the number of segments. Both mark the text for
-- transmission and change nothing else.
pub lps_setter_lem :
    (d : RdsData) (s : RdsState) (src : List ℕ)
    → let t = text_prefix is_line_end 32 src in
      lps_setter d s src ≡ (
        if get_or src 0 0 == 0
        then (record d { lps = replicate 32 0 }, record s { lps_update = 1 })
        else (
          record d { lps = terminated 32 t },
          record s { lps_update = 1; lps_segments = segments_of 32 t },
        ))
unfolding lps_setter
lps_setter_lem d s src =
    let t = text_prefix is_line_end 32 src in
    rw (
      copied is_line_end 32 src,
      end_text-padded 32 t (length-text_prefix is_line_end 32 src),
      text_segments-eq 16 32 t (omega arith) (omega arith) (omega arith),
    )
