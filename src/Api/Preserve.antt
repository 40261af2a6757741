-- ===== src/Api/Preserve.antt =====
-- Each function keeps what the others rely on, also where it raises an error.
use rds.Common.{ℕ, ◌%◌, ◌^◌, ◌≡◌, refl, arith}
use rds.Common.{Bool, false, Option, set, All, sym}
use mathlib.Core.Path.{subst}
use native.Mathlib.Nat.{mod-lt, one-le-pow}
use rds.Model.{RdsData, RdsState, RdsEncoder}
use package.rds.Api.{Action, check, raise_if, ◌>>=◌}
use package.rds.Api.Steps.{Keeps, bind-Keeps, check-Keeps, raise_if-Keeps}
use package.rds.Api.{change_encoder, change_settings, change_state}
use package.rds.Api.Fields.{
  Field, pi, pty, ecc, slc_data, ct, dpty, tp, ta, rt_enabled, ptyn_enabled,
}
use package.rds.Api.Fields.{Given, set_field, bit_of}
use package.rds.Api.Valid.{IsValid, IsSettings, IsState, IsEncoder, put_data-IsEncoder}
use package.rds.Api.Valid.{but_integers, but_flags, with_integers, with_flags, Fits, All-set}
use package.rds.Api.Valid.{
  integers, flags, put_state-IsEncoder, data_at-IsSettings, state_at-IsState,
}

abbrev pub Preserves : {A : Type 0} → Action A → Type 0
Preserves m = Keeps IsValid m

abbrev pub bind-Preserves :
    {A B : Type 0} (m : Action A) (f : A → Action B)
    → Preserves m
    → ((a : A) → Preserves (f a))
    → Preserves (m >>= f)
bind-Preserves = bind-Keeps IsValid

abbrev pub check-Preserves :
    {A B : Type 0} (arg : Option A) (f : A → Action B)
    → ((a : A) → Preserves (f a))
    → Preserves (check arg >>= f)
check-Preserves = check-Keeps IsValid

abbrev pub raise_if-Preserves :
    {B : Type 0} (c : Bool) (f : Unit {0} → Action B)
    → (c ≡ false → Preserves (f tt))
    → Preserves (raise_if c >>= f)
raise_if-Preserves = raise_if-Keeps IsValid

-- The settings, or the state, or both, of the writing programme.
pub change_settings-Preserves :
    (f : RdsData → RdsData)
    → ((d : RdsData) → IsSettings d → IsSettings (f d))
    → Preserves (change_settings f)
change_settings-Preserves f h s v = record {
  encoder =
      put_data-IsEncoder s.encoder s.writing_program _ v.encoder
        (h _ (data_at-IsSettings s.encoder s.writing_program v.encoder));
  writing_program = v.writing_program;
}

pub change_state-Preserves :
    (f : RdsState → RdsState)
    → ((t : RdsState) → IsState t → IsState (f t))
    → Preserves (change_state f)
change_state-Preserves f h s v = record {
  encoder =
      put_state-IsEncoder s.encoder s.writing_program _ v.encoder
        (h _ (state_at-IsState s.encoder s.writing_program v.encoder));
  writing_program = v.writing_program;
}

pub change_encoder-Preserves :
    (f : ℕ → RdsEncoder → RdsEncoder)
    → ((p : ℕ) (enc : RdsEncoder) → IsEncoder enc → IsEncoder (f p enc))
    → Preserves (change_encoder f)
change_encoder-Preserves f h s v = record {
  encoder = h s.writing_program s.encoder v.encoder;
  writing_program = v.writing_program;
}

-- The fields: the number or the flag at a position of `integers` or `flags` is written.
set_integer-Preserves :
    (arg : Option ℕ) (write : ℕ → RdsData → RdsData) (i w : ℕ)
    → ((n : ℕ) (d : RdsData) → integers (write n d) ≡ set (integers d) i (n % 2 ^ w, w))
    → ((n : ℕ) (d : RdsData) → but_integers d ≡ but_integers (write n d))
    → Preserves (check arg >>= λ n. change_settings (write n))
set_integer-Preserves arg write i w e same =
    check-Preserves arg (λ n. change_settings (write n))
      λ n. change_settings-Preserves (write n) λ d v. with_integers d (write n d) v (same n d) (
        subst (All Fits) (sym (e n d)) (
          All-set Fits (integers d) i (n % 2 ^ w, w) v.integers
            (mod-lt n (one-le-pow w 2 (omega arith)))))

set_flag-Preserves :
    (b : Bool) (write : ℕ → RdsData → RdsData) (i : ℕ)
    → ((n : ℕ) (d : RdsData) → flags (write n d) ≡ set (flags d) i (n, 1))
    → ((n : ℕ) (d : RdsData) → but_flags d ≡ but_flags (write n d))
    → Preserves (change_settings (write (bit_of b)))
set_flag-Preserves b write i e same = change_settings-Preserves (write (bit_of b)) λ d v.
    with_flags d (write (bit_of b) d) v (same _ d) (
      subst (All Fits) (sym (e _ d))
        (All-set Fits (flags d) i (bit_of b, 1) v.flags (ground arith)))

pub set_field-Preserves : (field : Field) (v : Given) → Preserves (set_field field v)
unfolding set_field
set_field-Preserves pi v =
    set_integer-Preserves v.as_integer (λ n d. record d { pi = n % 2 ^ 16 }) 0 16 (λ n d. refl)
      (λ n d. refl)
set_field-Preserves pty v =
    set_integer-Preserves v.as_integer (λ n d. record d { pty = n % 2 ^ 5 }) 1 5 (λ n d. refl)
      (λ n d. refl)
set_field-Preserves ecc v =
    set_integer-Preserves v.as_integer (λ n d. record d { ecc = n % 2 ^ 8 }) 2 8 (λ n d. refl)
      (λ n d. refl)
set_field-Preserves slc_data v =
    set_integer-Preserves v.as_integer (λ n d. record d { slc_data = n % 2 ^ 12 }) 3 12
      (λ n d. refl) (λ n d. refl)
set_field-Preserves ct v =
    set_flag-Preserves v.as_boolean (λ n d. record d { ct = n }) 0 (λ n d. refl) (λ n d. refl)
set_field-Preserves dpty v =
    set_flag-Preserves v.as_boolean (λ n d. record d { dpty = n }) 1 (λ n d. refl) (λ n d. refl)
set_field-Preserves tp v =
    set_flag-Preserves v.as_boolean (λ n d. record d { tp = n }) 2 (λ n d. refl) (λ n d. refl)
set_field-Preserves ta v =
    set_flag-Preserves v.as_boolean (λ n d. record d { ta = n }) 3 (λ n d. refl) (λ n d. refl)
set_field-Preserves rt_enabled v =
    set_flag-Preserves v.as_boolean (λ n d. record d { rt_enabled = n }) 4 (λ n d. refl)
      (λ n d. refl)
set_field-Preserves ptyn_enabled v =
    set_flag-Preserves v.as_boolean (λ n d. record d { ptyn_enabled = n }) 5 (λ n d. refl)
      (λ n d. refl)
