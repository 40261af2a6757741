-- ===== src/Api/Delivered.antt =====
-- From a script to the air: the calls that set the name and the radiotext, from their text in UTF-8 to the
-- groups that carry it.
use rds.Common.{
  ℕ, zero, suc, ◌<◌, ◌≡◌, ◌≢◌, refl, sym, ap, ◌∙◌, arith, List, [], ◌∷◌, ◌++◌, map, Bool,
}
use rds.Common.{true, false, ◌==◌, Bool-cases, inl, inr, All, take, some, ==_iff}
use rds.Model.{data_at, state_at}
use rds.Lua.{Lua}
use rds.Charset.{convert_to_rdscharset}
use rds.Charset.Repertoire.{utf8}
use rds.Charset.Laws.{InRepertoire, utf8_text, convert_to_rdscharset-utf8_text}
use rds.Setters.{is_nul, is_line_end, set_rds_ps, set_rds_rt}
use rds.Setters.Copy.{text_prefix, trim_end, padded}
use rds.Setters.Laws.{terminated, segments_of}
use mathlib.Core.Path.{subst}
use rds.Groups.Ps.{IsByte}
use rds.Groups.PsCycle.{segments_sent, ps_groups}
use rds.Groups.RtCycle.{rt_segment, rt_segments_from, rt_groups}
use rds.Delivery.{OnAir, name_groups, set_rds_ps_delivered, set_rds_rt_delivered}
use package.rds.Api.{Api}
use package.rds.Api.Text.{lua_set_rds_ps, lua_set_rds_rt}

-- A NUL is no character of the repertoire.
nul_free : utf8 0 ≡ []
unfolding utf8
nul_free = refl

is_nul-InRepertoire : (code : ℕ) → InRepertoire code → (code == 0) ≡ false
is_nul-InRepertoire code (h, used) = elim (Bool-cases (code == 0)) [
  | inl end ↦ absurd (used (ap utf8 ((==_iff code 0).0 end) ∙ nul_free))
  | inr text ↦ text
]

-- Codes that do not end a text.
abbrev GoesOn : (ℕ → Bool) → ℕ → Type 0
GoesOn stop code = stop code ≡ false

name_codes : (codes : List ℕ) → All InRepertoire codes → All (GoesOn is_nul) codes
unfolding is_nul
name_codes [] h = tt
name_codes (c ∷ cs) (hc, h) = (is_nul-InRepertoire c hc, name_codes cs h)

abbrev pub IsNoReturn : ℕ → Type 0
IsNoReturn code = code ≢ 0x0d

text_codes :
    (codes : List ℕ)
    → All InRepertoire codes
    → All IsNoReturn codes
    → All (GoesOn is_line_end) codes
unfolding is_line_end
text_codes [] h k = tt
text_codes (c ∷ cs) (hc, h) (kc, k) =
    let plain : (c == 0x0d) ≡ false = ground arith in
    (rw (plain, is_nul-InRepertoire c hc) refl, text_codes cs h k)

-- What a setter reads of the converted text.
text_prefix-take :
    (stop : ℕ → Bool) (n : ℕ) (codes : List ℕ)
    → stop 0 ≡ true
    → All (GoesOn stop) codes
    → text_prefix stop n (take (suc n) codes ++ (0 ∷ [])) ≡ take n codes
text_prefix-take stop zero codes end h = refl
text_prefix-take stop (suc n) [] end h = rw end refl
text_prefix-take stop (suc n) (c ∷ cs) end (hc, h) =
    rw hc (ap (◌∷◌ c) (text_prefix-take stop n cs end h))

-- A converted text is bytes.
codes-IsByte :
    (n : ℕ) (codes : List ℕ) → All InRepertoire codes → All IsByte (take n codes ++ (0 ∷ []))
codes-IsByte zero codes h = (omega arith, tt)
codes-IsByte (suc n) [] h = (omega arith, tt)
codes-IsByte (suc n) (c ∷ cs) (hc, h) = (hc.0, codes-IsByte n cs h)

converted-IsByte :
    (codes stray : List ℕ) (n : ℕ)
    → All InRepertoire codes
    → All IsByte (convert_to_rdscharset (utf8_text codes ++ (0 ∷ stray)) n)
converted-IsByte codes stray n h =
    subst (All IsByte) (sym (convert_to_rdscharset-utf8_text codes stray n h))
      (codes-IsByte n codes h)

module _ (L : Lua) (signed : Bool) (pi : ℕ) where
  -- After `RDS.set_ps` on the programme on the air, with a text of characters of the repertoire in UTF-8,
  -- four PS groups have the codes of its first eight characters, filled up with spaces, in the pairs that
  -- `aired` reads: the first code of a pair times 256 plus the second, but 0xff in the place of the
  -- first one where `char` is signed and the second one is 0x80 or above. The programme is at segment 0
  -- and without a traffic announcement.
  pub lua_set_rds_ps_sent :
      (s : Api) (codes stray : List ℕ) (i : L.Interp)
      → All InRepertoire codes
      → s.writing_program ≡ s.encoder.program
      → OnAir s.encoder
      → (state_at s.encoder s.encoder.program).ps_csegment ≡ 0
      → (data_at s.encoder s.encoder.program).ta ≡ 0
      → (data_at s.encoder s.encoder.program).dpty < 2
      → segments_sent
          (ps_groups L signed pi 4 ((lua_set_rds_ps stray (some (utf8_text codes)) s).1.encoder, i))
        ≡ name_groups signed (padded 8 (take 8 codes))
  unfolding lua_set_rds_ps is_nul
  lua_set_rds_ps_sent s codes stray i h same on first ta dpty =
      let enc = s.encoder in
      let text = convert_to_rdscharset (utf8_text codes ++ (0 ∷ stray)) 9 in
      let read : text_prefix is_nul 8 text ≡ take 8 codes =
        ap (text_prefix is_nul 8) (convert_to_rdscharset-utf8_text codes stray 9 h)
        ∙ text_prefix-take is_nul 8 codes refl (name_codes codes h) in
      ap (λ p. segments_sent (ps_groups L signed pi 4 (set_rds_ps enc text p, i))) same
      ∙ set_rds_ps_delivered L signed pi enc text i on first ta dpty
          (converted-IsByte codes stray 9 h)
      ∙ ap (λ t. name_groups signed (padded 8 t)) read

  -- After `RDS.set_rt` on the programme on the air, with radiotext on and a text of characters of the
  -- repertoire in UTF-8 without a carriage return, the groups of one transmission have the codes of its first 64 characters,
  -- without the last spaces, ended by a carriage return if there are fewer: each segment once and in
  -- order, with its codes in the pairs that `aired` reads, where a first code is lost if `char` is signed
  -- and the second one is 0x80 or above.
  pub lua_set_rds_rt_sent :
      (s : Api) (codes stray : List ℕ) (i : L.Interp)
      → All InRepertoire codes
      → All IsNoReturn codes
      → s.writing_program ≡ s.encoder.program
      → OnAir s.encoder
      → (data_at s.encoder s.encoder.program).rt_enabled ≢ 0
      → (state_at s.encoder s.encoder.program).rt_ab < 2
      → let t = trim_end (take 64 codes) in
        map rt_segment (
          rt_groups L signed pi
            (segments_of 64 t)
            ((lua_set_rds_rt stray (some (utf8_text codes)) s).1.encoder, i))
        ≡ rt_segments_from signed
            (terminated 64 t)
            (state_at s.encoder s.encoder.program).rt_ab
            (segments_of 64 t)
            0
  unfolding lua_set_rds_rt is_line_end
  lua_set_rds_rt_sent s codes stray i h k same on enabled ab =
      let enc = s.encoder in
      let text = convert_to_rdscharset (utf8_text codes ++ (0 ∷ stray)) 65 in
      let read : text_prefix is_line_end 64 text ≡ take 64 codes =
        ap (text_prefix is_line_end 64) (convert_to_rdscharset-utf8_text codes stray 65 h)
        ∙ text_prefix-take is_line_end 64 codes refl (text_codes codes h k) in
      let flag = (state_at enc enc.program).rt_ab in
      ap
        (λ p. map rt_segment (
          rt_groups L signed pi (segments_of 64 (trim_end (take 64 codes)))
            (set_rds_rt enc text p, i)))
        same
      ∙ ap
          (λ u. map rt_segment (
            rt_groups L signed pi (segments_of 64 (trim_end u))
              (set_rds_rt enc text enc.program, i)))
          (sym read)
      ∙ set_rds_rt_delivered L signed pi enc text i on enabled ab
          (converted-IsByte codes stray 65 h)
      ∙ ap
          (λ u.
            rt_segments_from signed (terminated 64 (trim_end u)) flag (segments_of 64 (trim_end u))
              0)
          read
