-- ===== src/Api/Valid.antt =====
-- What the functions of src/lua_api.c rely on: the arrays of the encoder have their sizes, and the
-- numbers fit the bit fields of src/rds.h.
use rds.Common.{
  ℕ, zero, suc, ◌+◌, ◌^◌, ◌<◌, ◌≡◌, List, [], ◌∷◌, length, get_or, set, All, length-set,
}
use rds.Model.{RdsAfs, RdsEon, RdsData, RdsState, RdsEncoder, programs, eons, max_afs}
use rds.Model.{ps_length, rt_length, ptyn_length, lps_length, lua_user_data}
use rds.Model.{zero_afs, zero_eon, zero_data, zero_state, data_at, state_at, put_data, put_state}
use rds.Common.{arith, refl, ap}
use mathlib.Core.Path.{subst}
use package.rds.Api.{Api}

-- A number and the width of its field; an array's length and its size.
abbrev pub Fits : ℕ × ℕ → Type 0
Fits (n, w) = n < 2 ^ w

abbrev pub IsSized : ℕ × ℕ → Type 0
IsSized (n, m) = n ≡ m

abbrev pub IsWord : ℕ → Type 0
IsWord w = w < 2 ^ 16

pub record IsAfs (af : RdsAfs) : Type 0 where
  pub num_entries : af.num_entries < 2 ^ 6
  pub num_afs : af.num_afs < 2 ^ 5
  pub afs : length af.afs ≡ max_afs

abbrev pub eon_numbers : RdsEon → List (ℕ × ℕ)
eon_numbers e = (e.enabled, 1) ∷ (e.tp, 1) ∷ (e.ta, 1) ∷ (e.pi, 16) ∷ (e.pty, 5) ∷ (e.word, 16) ∷ []

pub record IsEon (e : RdsEon) : Type 0 where
  pub numbers : All Fits (eon_numbers e)
  pub ps : length e.ps ≡ 8
  pub af : IsAfs e.af

abbrev pub integers : RdsData → List (ℕ × ℕ)
integers d = (d.pi, 16) ∷ (d.pty, 5) ∷ (d.ecc, 8) ∷ (d.slc_data, 12) ∷ (d.grp_sqc_len, 8) ∷ []

abbrev pub flags : RdsData → List (ℕ × ℕ)
flags d =
    (d.ct, 1) ∷ (d.dpty, 1) ∷ (d.tp, 1) ∷ (d.ta, 1) ∷ (d.rt_enabled, 1) ∷ (d.ptyn_enabled, 1) ∷ []

abbrev pub sizes : RdsData → List (ℕ × ℕ)
sizes d =
    (length d.ps, ps_length)
    ∷ (length d.rt, rt_length)
    ∷ (length d.tps, ps_length)
    ∷ (length d.ptyn, ptyn_length)
    ∷ (length d.lps, lps_length)
    ∷ (length d.grp_sqc, 32)
    ∷ (length d.eon, eons)
    ∷ (length d.lua_data, lua_user_data)
    ∷ []

pub record IsSettings (d : RdsData) : Type 0 where
  pub integers : All Fits (integers d)
  pub flags : All Fits (flags d)
  pub sizes : All IsSized (sizes d)
  pub af : IsAfs d.af
  pub eon : All IsEon d.eon

-- The fields of the state that scripts reach.
abbrev pub numbers : RdsState → List (ℕ × ℕ)
numbers t =
    (t.ps_update, 1)
    ∷ (t.tps_update, 1)
    ∷ (t.rt_update, 1)
    ∷ (t.rt_ab, 1)
    ∷ (t.rt_segments, 5)
    ∷ (t.ptyn_update, 1)
    ∷ (t.lps_update, 1)
    ∷ (t.lps_segments, 4)
    ∷ (t.eon_linkage, 1)
    ∷ []

-- A buffer for one group of `n` words, with its mark.
abbrev pub IsBuffer : ℕ → List ℕ → Type 0
IsBuffer n words = (length words ≡ n + 1) × All IsWord words

pub record IsState (t : RdsState) : Type 0 where
  pub numbers : All Fits (numbers t)
  pub custom_group : IsBuffer 3 t.custom_group
  pub custom_group2 : IsBuffer 4 t.custom_group2

pub record IsEncoder (enc : RdsEncoder) : Type 0 where
  pub programmes : length enc.settings ≡ programs
  pub settings : All IsSettings enc.settings
  pub states : length enc.state ≡ programs
  pub state : All IsState enc.state
  pub program : enc.program < programs
  pub streams : enc.streams < 2 ^ 3

pub record IsValid (s : Api) : Type 0 where
  pub encoder : IsEncoder s.encoder
  pub writing_program : s.writing_program < programs

module _ {A : Type 0} (P : A → Type 0) where
  pub All-set : (xs : List A) (i : ℕ) (v : A) → All P xs → P v → All P (set xs i v)
  All-set [] i v h p = tt
  All-set (x ∷ xs) zero v (hx, h) p = (p, h)
  All-set (x ∷ xs) (suc i) v (hx, h) p = (hx, All-set xs i v h p)

  pub All-get_or : (xs : List A) (i : ℕ) (d : A) → All P xs → P d → P (get_or xs i d)
  All-get_or [] i d h p = p
  All-get_or (x ∷ xs) zero d (hx, h) p = hx
  All-get_or (x ∷ xs) (suc i) d (hx, h) p = All-get_or xs i d h p

pub zero_afs-IsAfs : IsAfs zero_afs
zero_afs-IsAfs = record { num_entries = omega arith; num_afs = omega arith; afs = refl }

pub zero_eon-IsEon : IsEon zero_eon
zero_eon-IsEon = record {
  numbers =
      (omega arith, (omega arith, (omega arith, (omega arith, (omega arith, (omega arith, tt))))));
  ps = refl;
  af = zero_afs-IsAfs;
}

pub zero_data-IsSettings : IsSettings zero_data
zero_data-IsSettings =
    let bit : 0 < 2 ^ 1 = omega arith in
    let e = zero_eon-IsEon in
    record {
      integers = (omega arith, (omega arith, (omega arith, (omega arith, (omega arith, tt)))));
      flags = (bit, (bit, (bit, (bit, (bit, (bit, tt))))));
      sizes = (refl, (refl, (refl, (refl, (refl, (refl, (refl, (refl, tt))))))));
      af = zero_afs-IsAfs;
      eon = (e, (e, (e, (e, tt))));
    }

pub zero_state-IsState : IsState zero_state
zero_state-IsState =
    let z : 0 < 2 ^ 16 = omega arith in
    let bit : 0 < 2 ^ 1 = omega arith in
    record {
      numbers = (bit, (bit, (bit, (bit, (omega arith, (bit, (bit, (omega arith, (bit, tt)))))))));
      custom_group = (refl, (z, (z, (z, (z, tt)))));
      custom_group2 = (refl, (z, (z, (z, (z, (z, tt))))));
    }

-- The settings but for one group of fields.
abbrev pub Parts : Type 0
Parts = List (ℕ × ℕ) × List (ℕ × ℕ) × RdsAfs × List RdsEon

abbrev pub but_integers : RdsData → Parts
but_integers d = (flags d, sizes d, d.af, d.eon)

abbrev pub but_flags : RdsData → Parts
but_flags d = (integers d, sizes d, d.af, d.eon)

abbrev pub but_sizes : RdsData → Parts
but_sizes d = (integers d, flags d, d.af, d.eon)

-- Settings of which only the integers, only the flags or only the sizes may have changed.
module _ (d d' : RdsData) (v : IsSettings d) where
  pub with_integers : but_integers d ≡ but_integers d' → All Fits (integers d') → IsSettings d'
  with_integers e h = record {
    integers = h;
    flags = subst (All Fits) (ap (λ (q : Parts). q.0) e) v.flags;
    sizes = subst (All IsSized) (ap (λ (q : Parts). q.1) e) v.sizes;
    af = subst IsAfs (ap (λ (q : Parts). q.2) e) v.af;
    eon = subst (All IsEon) (ap (λ (q : Parts). q.3) e) v.eon;
  }

  pub with_flags : but_flags d ≡ but_flags d' → All Fits (flags d') → IsSettings d'
  with_flags e h = record {
    integers = subst (All Fits) (ap (λ (q : Parts). q.0) e) v.integers;
    flags = h;
    sizes = subst (All IsSized) (ap (λ (q : Parts). q.1) e) v.sizes;
    af = subst IsAfs (ap (λ (q : Parts). q.2) e) v.af;
    eon = subst (All IsEon) (ap (λ (q : Parts). q.3) e) v.eon;
  }

  pub with_sizes : but_sizes d ≡ but_sizes d' → All IsSized (sizes d') → IsSettings d'
  with_sizes e h = record {
    integers = subst (All Fits) (ap (λ (q : Parts). q.0) e) v.integers;
    flags = subst (All Fits) (ap (λ (q : Parts). q.1) e) v.flags;
    sizes = h;
    af = subst IsAfs (ap (λ (q : Parts). q.2) e) v.af;
    eon = subst (All IsEon) (ap (λ (q : Parts). q.3) e) v.eon;
  }

pub data_at-IsSettings : (enc : RdsEncoder) (p : ℕ) → IsEncoder enc → IsSettings (data_at enc p)
data_at-IsSettings enc p v =
    All-get_or IsSettings enc.settings p zero_data v.settings zero_data-IsSettings

pub state_at-IsState : (enc : RdsEncoder) (p : ℕ) → IsEncoder enc → IsState (state_at enc p)
state_at-IsState enc p v = All-get_or IsState enc.state p zero_state v.state zero_state-IsState

pub put_data-IsEncoder :
    (enc : RdsEncoder) (p : ℕ) (d : RdsData)
    → IsEncoder enc
    → IsSettings d
    → IsEncoder (put_data enc p d)
put_data-IsEncoder enc p d v h = record {
  programmes = omega (arith, length-set enc.settings p d, v.programmes);
  settings = All-set IsSettings enc.settings p d v.settings h;
  states = v.states;
  state = v.state;
  program = v.program;
  streams = v.streams;
}

pub put_state-IsEncoder :
    (enc : RdsEncoder) (p : ℕ) (t : RdsState)
    → IsEncoder enc
    → IsState t
    → IsEncoder (put_state enc p t)
put_state-IsEncoder enc p t v h = record {
  programmes = v.programmes;
  settings = v.settings;
  states = omega (arith, length-set enc.state p t, v.states);
  state = All-set IsState enc.state p t v.state h;
  program = v.program;
  streams = v.streams;
}
