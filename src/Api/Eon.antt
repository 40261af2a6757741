-- ===== src/Api/Eon.antt =====
-- The other networks: `lua_set_rds_eon` and `lua_get_rds_eon`.
use rds.Common.{ℕ, zero, suc, ◌%◌, ◌^◌, ◌==◌, ◌<◌, Bool, false, List, [], ◌∷◌, Option, none, some}
use rds.Common.{if◌then◌else◌, get_or, set, leb}
use rds.Model.{RdsEon, zero_eon, eons}
use rds.Groups.{is_set}
use package.rds.Api.{Action, pure, gets, check, raise_if, ◌>>=◌, ◌>>◌, settings_of, change_settings}
use package.rds.Api.Fields.{bit_of}
use package.rds.Api.Text.{af_of_table}

-- A field of the table: `nil`, or what the check of its type makes of it.
pub data Entry (A : Type 0) : Type 0 where
  absent : Entry A
  given : Option A → Entry A

-- The table that is the second argument.
pub record EonTable : Type 0 where
  pub enabled : Entry Bool
  pub tp : Entry Bool
  pub ta : Entry Bool
  pub pi : Entry ℕ
  pub pty : Entry ℕ
  pub word : Entry ℕ
  pub ps : Entry (List ℕ)
  pub afs : Option (List (Option ℕ))

-- `_strnlen`: the characters before the NUL, at most `maxlen`. Nothing calls it.
unfoldable pub strnlen : List ℕ → ℕ → ℕ
strnlen [] maxlen = 0
strnlen (c ∷ cs) zero = 0
strnlen (c ∷ cs) (suc maxlen) = if c == 0 then 0 else suc (strnlen cs maxlen)

-- `_strncpy`: at most `n` characters, up to the NUL, filled up with zeros.
unfoldable pub strncpy : ℕ → List ℕ → List ℕ
strncpy zero src = []
strncpy (suc n) [] = 0 ∷ strncpy n []
strncpy (suc n) (c ∷ cs) = if c == 0 then 0 ∷ strncpy n [] else c ∷ strncpy n cs

-- An index that is no negative `int`. A negative one passes the test of the code and is used to read or
-- write outside the array, for which nothing is defined: the functions are not modelled for it.
abbrev pub NotNegative : Option ℕ → Type 0
NotNegative none = Unit
NotNegative (some n) = n % 2 ^ 32 < 2 ^ 31

-- `eon[i]` of the writing programme.
abbrev pub change_eon : ℕ → (RdsEon → RdsEon) → Action (Unit {0})
change_eon i f = change_settings (λ d. record d { eon = set d.eon i (f (get_or d.eon i zero_eon)) })

-- One field of the table.
abbrev pub set_entry : {A : Type 0} → Entry A → (A → RdsEon → RdsEon) → ℕ → Action (Unit {0})
set_entry absent put i = pure tt
set_entry (given arg) put i = do a ← check arg; change_eon i (put a)

-- `int eon = luaL_checkinteger(L, 1); if(eon >= EONs) return luaL_error(...)`
abbrev pub eon_index : Option ℕ → Action ℕ
eon_index arg = do
  n ← check arg
  let low = n % 2 ^ 32
  raise_if (if leb (2 ^ 31) low then false else leb eons low)
  pure low

-- The fields in the order of the source. The list of frequencies must be there.
unfoldable pub lua_set_rds_eon :
    (arg1 : Option ℕ) → NotNegative arg1 → Option EonTable → Action (Unit {0})
unfolding strncpy
lua_set_rds_eon arg1 inside arg2 = do
  i ← eon_index arg1
  t ← check arg2
  set_entry t.enabled (λ b e. record e { enabled = bit_of b }) i
  set_entry t.tp (λ b e. record e { tp = bit_of b }) i
  set_entry t.ta (λ b e. record e { ta = bit_of b }) i
  set_entry t.pi (λ n e. record e { pi = n % 2 ^ 16 }) i
  set_entry t.pty (λ n e. record e { pty = n % 2 ^ 5 }) i
  set_entry t.word (λ n e. record e { word = n % 2 ^ 16 }) i
  set_entry t.ps (λ text e. record e { ps = strncpy 8 text }) i
  af ← af_of_table t.afs
  change_eon i (λ e. record e { af = af })

-- What `lua_get_rds_eon` gives; its table of frequencies is always empty.
pub record EonValues : Type 0 where
  pub enabled : Bool
  pub pi : ℕ
  pub tp : Bool
  pub ta : Bool
  pub pty : ℕ
  pub ps : List ℕ
  pub word : ℕ

unfoldable pub lua_get_rds_eon : (arg : Option ℕ) → NotNegative arg → Action EonValues
lua_get_rds_eon arg inside = do
  i ← eon_index arg
  gets λ s.
      let e = get_or (settings_of s).eon i zero_eon in
      record {
        enabled = is_set e.enabled;
        pi = e.pi;
        tp = is_set e.tp;
        ta = is_set e.ta;
        pty = e.pty;
        ps = e.ps;
        word = e.word;
      }
