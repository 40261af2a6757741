-- ===== src/Setters/Copy.antt =====
-- The loops of src/rds_setters.c against plain descriptions of what they compute.
use mathlib.Core.List.{append_assoc}
use rds.Common.{ℕ, zero, suc, ◌+◌, ◌-◌, ◌*◌, ◌/◌, ◌%◌, ◌≤◌, ◌<◌, ◌≡◌, refl, sym, ap, ap₂, ◌∙◌}
use rds.Common.{List, [], ◌∷◌, ◌++◌, Bool, false, inl, inr, arith, Bool-cases}
use rds.Common.{ltb, leb, ◌==◌, if◌then◌else◌, length, get_or, set, take, replicate}
use native.Mathlib.Nat.{mod-eq_of_lt}
use rds.Common.{length-append, length-take, take-append, ==_iff}
use rds.Setters.{copy_chars, trim_spaces, count_segments}

-- The characters before the first one that ends the text, at most `n` of them.
abbrev pub text_prefix : (ℕ → Bool) → ℕ → List ℕ → List ℕ
text_prefix stop zero src = []
text_prefix stop (suc n) [] = []
text_prefix stop (suc n) (c ∷ cs) = if stop c then [] else c ∷ text_prefix stop n cs

-- A text filled up with spaces.
abbrev pub padded : ℕ → List ℕ → List ℕ
padded n p = p ++ replicate (n - length p) 0x20

-- A text without its last spaces.
abbrev pub trim_cons : ℕ → List ℕ → List ℕ
trim_cons c [] = if c == 0x20 then [] else c ∷ []
trim_cons c (t ∷ ts) = c ∷ t ∷ ts

abbrev pub trim_end : List ℕ → List ℕ
trim_end [] = []
trim_end (c ∷ cs) = trim_cons c (trim_end cs)

pub length-text_prefix :
    (stop : ℕ → Bool) (n : ℕ) (src : List ℕ) → length (text_prefix stop n src) ≤ n
length-text_prefix stop zero src = omega arith
length-text_prefix stop (suc n) [] = omega arith
length-text_prefix stop (suc n) (c ∷ cs) = ground (arith, length-text_prefix stop n cs)

pub set-append :
    (xs ys : List ℕ) (i x v : ℕ) → i ≡ length xs → set (xs ++ x ∷ ys) i v ≡ xs ++ v ∷ ys
set-append [] ys zero x v e = refl
set-append [] ys (suc i) x v e = absurd (omega arith)
set-append (w ∷ xs) ys zero x v e = absurd (omega arith)
set-append (w ∷ xs) ys (suc i) x v e = ap (λ t. w ∷ t) (set-append xs ys i x v (omega arith))

-- The copying loop appends the prefix of the text and leaves the spaces behind it.
pub copy_chars-eq-prefix :
    (stop : ℕ → Bool) (n : ℕ) (src xs : List ℕ) (limit len : ℕ)
    → len ≡ length xs
    → limit ≡ len + n
    → let p = text_prefix stop n src in
      copy_chars stop limit (xs ++ replicate n 0x20) len src ≡ (len + length p, xs ++ padded n p)
unfolding copy_chars
copy_chars-eq-prefix stop zero [] xs limit len e f = ground arith
copy_chars-eq-prefix stop zero (c ∷ cs) xs limit len e f = ground arith
copy_chars-eq-prefix stop (suc n) [] xs limit len e f = ground arith
copy_chars-eq-prefix stop (suc n) (c ∷ cs) xs limit len e f = elim (Bool-cases (stop c)) [
  | inl ends ↦ rw ends (ground arith)
  | inr more ↦
      let room : leb limit len ≡ false = ground arith in
      let rest : List ℕ = text_prefix stop n cs in
      let step : xs ++ (c ∷ []) ++ padded n rest ≡ xs ++ padded (suc n) (c ∷ rest) =
        append_assoc xs (c ∷ []) (padded n rest)
        ∙ ap (λ t. xs ++ (c ∷ rest ++ replicate t 0x20)) (omega arith) in
      rw
        (
          more,
          room,
          set-append xs (replicate n 0x20) len 0x20 c e,
          ← append_assoc xs (c ∷ []) (replicate n 0x20),
          copy_chars-eq-prefix stop n cs (xs ++ c ∷ []) limit (len + 1)
              (omega (arith, length-append xs (c ∷ []))) (omega arith),
        )
        (ap₂ (λ a b. (a, b)) (omega arith) step)
]

trim_end-append_one :
    (xs : List ℕ) (c : ℕ)
    → trim_end (xs ++ c ∷ []) ≡ (if c == 0x20 then trim_end xs else xs ++ c ∷ [])
trim_end-append_one [] c = refl
trim_end-append_one (x ∷ []) c = ground arith
trim_end-append_one (x ∷ y ∷ xs) c = rw (trim_end-append_one (y ∷ xs) c) (ground arith)

take-suc : (n : ℕ) (xs : List ℕ) → n < length xs → take (suc n) xs ≡ take n xs ++ get_or xs n 0 ∷ []
take-suc n [] h = absurd (omega arith)
take-suc zero (x ∷ xs) h = refl
take-suc (suc n) (x ∷ xs) h = ap (λ t. x ∷ t) (take-suc n xs (omega arith))

trim_spaces-eq-take :
    (buf : List ℕ) (len : ℕ)
    → len ≤ length buf
    → trim_spaces buf len ≡ length (trim_end (take len buf))
unfolding trim_spaces
trim_spaces-eq-take buf zero h = refl
trim_spaces-eq-take buf (suc len) h =
    rw (take-suc len buf h, trim_end-append_one (take len buf) (get_or buf len 0))
      (ground (
        arith,
        trim_spaces-eq-take buf len (omega arith),
        length-append (take len buf) (get_or buf len 0 ∷ []),
        length-take len buf,
      ))

-- Trimming the copied text in place finds the length of the trimmed text.
pub trim_spaces-append : (p ys : List ℕ) → trim_spaces (p ++ ys) (length p) ≡ length (trim_end p)
trim_spaces-append p ys =
    trim_spaces-eq-take (p ++ ys) (length p) (omega (arith, length-append p ys))
    ∙ ap (λ t. length (trim_end t)) (take-append (length p) p ys refl)

length-trim_cons : (c : ℕ) (t : List ℕ) → length (trim_cons c t) ≤ suc (length t)
length-trim_cons c [] = ground arith
length-trim_cons c (x ∷ t) = omega arith

pub length-trim_end : (p : List ℕ) → length (trim_end p) ≤ length p
length-trim_end [] = omega arith
length-trim_end (c ∷ cs) = omega (arith, length-trim_cons c (trim_end cs), length-trim_end cs)

replicate-append : (m n : ℕ) → replicate m 0x20 ++ replicate n 0x20 ≡ replicate {A = ℕ} (m + n) 0x20
replicate-append zero n = ap (λ k. replicate k 0x20) (omega arith)
replicate-append (suc m) n =
    ap (λ t. 0x20 ∷ t) (replicate-append m n)
    ∙ ap (λ k. replicate k 0x20) {x = suc (m + n)} (omega arith)

trim_cons-append :
    (c k : ℕ) (t cs : List ℕ)
    → cs ≡ t ++ replicate k 0x20
    → c ∷ cs ≡ trim_cons c t ++ replicate (suc (length t + k) - length (trim_cons c t)) 0x20
trim_cons-append c k (x ∷ t) cs e =
    ap (λ r. c ∷ r) e ∙ ap (λ n. c ∷ x ∷ t ++ replicate n 0x20) (omega arith)
trim_cons-append c k [] cs e = elim (Bool-cases (c == 0x20)) [
  | inl blank ↦
      let space : c ≡ 0x20 = (==_iff c 0x20).0 blank in
      rw blank (ap₂ ◌∷◌ space e ∙ ap (λ n. replicate n 0x20) {x = suc k} (omega arith))
  | inr other ↦ rw other (ap (λ r. c ∷ r) e ∙ ap (λ n. c ∷ replicate n 0x20) (omega arith))
]

trim_end-append : (p : List ℕ) → p ≡ trim_end p ++ replicate (length p - length (trim_end p)) 0x20
trim_end-append [] = refl
trim_end-append (c ∷ cs) =
    trim_cons-append c (length cs - length (trim_end cs)) (trim_end cs) cs (trim_end-append cs)
    ∙ ap (λ n. trim_cons c (trim_end cs) ++ replicate (n - length (trim_cons c (trim_end cs))) 0x20)
        (omega (arith, length-trim_end cs))

-- Filling up with spaces does not see the spaces that trimming removes.
pub padded-trim_end : (n : ℕ) (p : List ℕ) → length p ≤ n → padded n (trim_end p) ≡ padded n p
padded-trim_end n p h =
    let t = trim_end p in
    let gone = length p - length t in
    ap (λ k. t ++ replicate k 0x20) (omega (arith, length-trim_end p))
    ∙ ap (λ r. t ++ r) (sym (replicate-append gone (n - length p)))
    ∙ sym (append_assoc t (replicate gone 0x20) (replicate (n - length p) 0x20))
    ∙ ap (λ r. r ++ replicate (n - length p) 0x20) (sym (trim_end-append p))

-- The counting loop divides by four and rounds up.
pub count_segments-eq :
    (fuel m i len segments : ℕ)
    → len ≤ i + fuel * 4
    → segments + (len + 3 - i) / 4 < m
    → count_segments fuel m i len segments ≡ segments + (len + 3 - i) / 4
unfolding count_segments
count_segments-eq zero m i len segments h k = omega arith
count_segments-eq (suc fuel) m i len segments h k = elim (Bool-cases (ltb i len)) [
  | inl more ↦
      let next : (segments + 1) % m ≡ segments + 1 = mod-eq_of_lt (ground arith) in
      rw (more, next) (ground (arith, count_segments-eq fuel m (i + 4) len (segments + 1)))
  | inr done ↦ rw done (ground arith)
]
