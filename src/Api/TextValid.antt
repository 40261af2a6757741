-- ===== src/Api/TextValid.antt =====
-- The setters of texts keep the sizes of the arrays and the widths of the fields.
use rds.Common.{ℕ, ◌+◌, ◌||◌, ◌%◌, ◌^◌, ◌≡◌, refl, ◌∙◌, arith}
use rds.Common.{List, [], ◌∷◌, Bool, true, false, inl, inr, Bool-cases, ltb, ◌==◌, if◌then◌else◌}
use rds.Common.{
  length, get_or, set, replicate, All, length-replicate, length-set, Option, none, some,
}
use rds.Model.{RdsAfs, max_afs, RdsData, RdsState, RdsEncoder, put}
use rds.Setters.{
  copy_chars, copy_sequence, is_nul, is_line_end, end_text, text_segments, trim_spaces,
}
use rds.Setters.{rt_setter, ps_setter, tps_setter, lps_setter, ptyn_setter}
use rds.Setters.Sizes.{length-copy_chars, length-copy_sequence, length-end_text, text_segments-le}
use rds.Af.Add.{add_rds_af, af_code, fm_low, fm_high}
use package.rds.Api.Text.{add_frequencies}
use package.rds.Api.Valid.{IsAfs, IsSettings, IsState, IsEncoder, Fits, IsSized, All-set}
use package.rds.Api.Valid.{integers, sizes, numbers, put_data-IsEncoder, put_state-IsEncoder}

-- What a setter makes of the settings and the state.
abbrev pub IsPair : RdsData × RdsState → Type 0
IsPair (d, t) = IsSettings d × IsState t

pub put-IsEncoder :
    (enc : RdsEncoder) (p : ℕ) (r : RdsData × RdsState)
    → IsEncoder enc
    → IsPair r
    → IsEncoder (put enc p r)
put-IsEncoder enc p (d, t) v (hd, ht) =
    put_state-IsEncoder _ p t (put_data-IsEncoder enc p d v hd) ht

module _ (d : RdsData) (t : RdsState) (v : IsSettings d) (w : IsState t) where
  -- The array `i` of the settings, or the number `i` of the state, is written.
  sized :
      (i n : ℕ) (text : List ℕ) → length text ≡ n → All IsSized (set (sizes d) i (length text, n))
  sized i n text e = All-set IsSized (sizes d) i (length text, n) v.sizes e

  marked : (i : ℕ) → All Fits (set (numbers t) i (1, 1))
  marked i = All-set Fits (numbers t) i (1, 1) w.numbers (omega arith)

  -- One array and its mark; the positions are those of `sizes` and `numbers`.
  pub ps_setter-IsPair : (src : List ℕ) → IsPair (ps_setter d t src)
  unfolding ps_setter
  ps_setter-IsPair src =
      let text = (copy_chars is_nul 8 (replicate 8 0x20) 0 src).1 in
      (
        record {
          integers = v.integers;
          flags = v.flags;
          sizes = sized 0 8 text (length-copy_chars is_nul 8 (replicate 8 0x20) 0 src);
          af = v.af;
          eon = v.eon;
        },
        record {
          numbers = marked 0;
          custom_group = w.custom_group;
          custom_group2 = w.custom_group2;
        },
      )

  -- An empty text clears the array.
  length-cleared :
      (n : ℕ) (c : Bool) (src : List ℕ)
      → length (if c then replicate n 0 else (copy_chars is_nul n (replicate n 0x20) 0 src).1) ≡ n
  length-cleared n true src = length-replicate n 0
  length-cleared n false src =
      length-copy_chars is_nul n (replicate n 0x20) 0 src ∙ length-replicate n 0x20

  pub tps_setter-IsPair : (src : List ℕ) → IsPair (tps_setter d t src)
  unfolding tps_setter
  tps_setter-IsPair src = (
    record {
      integers = v.integers;
      flags = v.flags;
      sizes = sized 2 8 _ (length-cleared 8 (get_or src 0 0 == 0) src);
      af = v.af;
      eon = v.eon;
    },
    record { numbers = marked 1; custom_group = w.custom_group; custom_group2 = w.custom_group2 },
  )

  pub ptyn_setter-IsPair : (src : List ℕ) → IsPair (ptyn_setter d t src)
  unfolding ptyn_setter
  ptyn_setter-IsPair src = (
    record {
      integers = v.integers;
      flags = v.flags;
      sizes = sized 3 8 _ (length-cleared 8 (get_or src 0 0 == 0) src);
      af = v.af;
      eon = v.eon;
    },
    record { numbers = marked 5; custom_group = w.custom_group; custom_group2 = w.custom_group2 },
  )

  pub rt_setter-IsPair : (src : List ℕ) → IsPair (rt_setter d t src)
  unfolding rt_setter
  rt_setter-IsPair src =
      let copied = copy_chars is_line_end 64 (replicate 64 0x20) 0 src in
      let len = trim_spaces copied.1 copied.0 in
      let count = text_segments 32 64 len in
      (
        record {
          integers = v.integers;
          flags = v.flags;
          sizes = sized 1 64 (end_text 64 copied.1 len) (
              length-end_text 64 copied.1 len
              ∙ length-copy_chars is_line_end 64 (replicate 64 0x20) 0 src);
          af = v.af;
          eon = v.eon;
        },
        record {
          numbers =
              All-set Fits (set (numbers t) 2 (1, 1)) 4 (count, 5) (marked 2)
                (omega (arith, text_segments-le 32 64 len));
          custom_group = w.custom_group;
          custom_group2 = w.custom_group2;
        },
      )

  pub lps_setter-IsPair : (src : List ℕ) → IsPair (lps_setter d t src)
  unfolding lps_setter
  lps_setter-IsPair src =
      let copied = copy_chars is_line_end 32 (replicate 32 0x20) 0 src in
      let count = text_segments 16 32 copied.0 in
      elim (Bool-cases (get_or src 0 0 == 0)) [
        | inl empty ↦ rw empty (
          record {
            integers = v.integers;
            flags = v.flags;
            sizes = sized 4 32 (replicate 32 0) refl;
            af = v.af;
            eon = v.eon;
          },
          record {
            numbers = marked 6;
            custom_group = w.custom_group;
            custom_group2 = w.custom_group2;
          },
        )
        | inr text ↦ rw text (
          record {
            integers = v.integers;
            flags = v.flags;
            sizes = sized 4 32 (end_text 32 copied.1 copied.0) (
                length-end_text 32 copied.1 copied.0
                ∙ length-copy_chars is_line_end 32 (replicate 32 0x20) 0 src);
            af = v.af;
            eon = v.eon;
          },
          record {
            numbers =
                All-set Fits (set (numbers t) 6 (1, 1)) 7 (count, 4) (marked 6)
                  (omega (arith, text_segments-le 16 32 copied.0));
            custom_group = w.custom_group;
            custom_group2 = w.custom_group2;
          },
        )
      ]

  -- The length and the array of `set_rds_grpseq`.
  pub grpseq-IsSettings :
      (src : List ℕ)
      → IsSettings (record d {
        grp_sqc_len = length src % 256;
        grp_sqc = copy_sequence 32 (replicate 32 0) 0 src;
      })
  grpseq-IsSettings src = record {
    integers = All-set Fits (integers d) 4 (length src % 256, 8) v.integers (omega arith);
    flags = v.flags;
    sizes =
        sized 5 32 (copy_sequence 32 (replicate 32 0) 0 src)
          (length-copy_sequence 32 (replicate 32 0) 0 src);
    af = v.af;
    eon = v.eon;
  }

abbrev pub or_same : RdsAfs → Option RdsAfs → RdsAfs
or_same af r = elim r [ none ↦ af | some af' ↦ af' ]

-- A code, or two, in a list that is not full.
module _ (af : RdsAfs) (v : IsAfs af) where
  grown :
      (k : ℕ) (afs : List ℕ)
      → length afs ≡ 25
      → IsAfs (record {
        num_entries = (af.num_entries + k) % 2 ^ 6;
        num_afs = (af.num_afs + 1) % 2 ^ 5;
        afs = afs;
      })
  grown k afs e = record { num_entries = omega arith; num_afs = omega arith; afs = e }

  added :
      (k : ℕ) (r : Option (Bool × ℕ))
      → let counted : List ℕ → RdsAfs = λ afs. record {
        num_entries = (af.num_entries + k) % 2 ^ 6;
        num_afs = (af.num_afs + 1) % 2 ^ 5;
        afs = afs;
      } in
        let n = af.num_entries in
        IsAfs (
          or_same af (elim r [
            | none ↦ none
            | some (false, code) ↦ some (counted (set af.afs n (code % 2 ^ 8)))
            | some (true, code) ↦ some (counted (set (set af.afs n 250) (n + 1) (code % 2 ^ 8)))
          ]))
  added k none = v
  added k (some (false, code)) = grown k _ (length-set af.afs af.num_entries _ ∙ v.afs)
  added k (some (true, code)) = grown k _ (
      length-set (set af.afs af.num_entries 250) (af.num_entries + 1) _
      ∙ length-set af.afs af.num_entries 250
      ∙ v.afs)

  pub add_rds_af-IsAfs : (freq : ℕ) → IsAfs (or_same af (add_rds_af af freq))
  unfolding add_rds_af
  add_rds_af-IsAfs freq =
      let k : ℕ = if ltb freq fm_low || ltb fm_high freq then 2 else 1 in
      elim (Bool-cases (ltb max_afs (af.num_afs + k))) [
        | inl full ↦ rw full v
        | inr room ↦ rw room (added k (af_code freq))
      ]

pub add_frequencies-IsAfs :
    (base : RdsAfs) (entries : List (Option ℕ)) (af : RdsAfs)
    → IsAfs base
    → IsAfs af
    → IsAfs (or_same base (add_frequencies entries af))
unfolding add_frequencies
add_frequencies-IsAfs base [] af b v = v
add_frequencies-IsAfs base (none ∷ entries) af b v = b
add_frequencies-IsAfs base (some freq ∷ entries) af b v =
    add_frequencies-IsAfs base entries _ b (add_rds_af-IsAfs af v freq)
