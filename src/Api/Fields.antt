-- ===== src/Api/Fields.antt =====
-- The fields of the table `RDS`: `lua_rds__index` and `lua_rds__newindex`.
use rds.Common.{ℕ, ◌%◌, ◌^◌, Bool, true, false, List, [], ◌∷◌, Option, none, some, if◌then◌else◌}
use Prim.Native.String.{String}
use text.Mathlib.Text.{◌==◌}
use rds.Model.{RdsData}
use rds.Groups.{is_set}
use package.rds.Api.{Action, pure, gets, check, ◌>>=◌, ◌>>◌, settings_of, change_settings}

-- The entries of `fields`.
pub data Field : Type 0 where
  pi pty ecc slc_data ct dpty tp ta rt_enabled ptyn_enabled : Field

-- What Lua reads and writes.
pub data Value : Type 0 where
  integer : ℕ → Value
  boolean : Bool → Value

-- What `luaL_checkinteger` and `lua_toboolean` make of the value that is written: the 64 bits of an
-- integer, if it is one, and a truth value.
pub record Given : Type 0 where
  pub as_integer : Option ℕ
  pub as_boolean : Bool

abbrev pub bit_of : Bool → ℕ
bit_of b = if b then 1 else 0

unfoldable pub field_names : List (String × Field)
field_names =
    ("pi", pi)
    ∷ ("pty", pty)
    ∷ ("ecc", ecc)
    ∷ ("slc_data", slc_data)
    ∷ ("ct", ct)
    ∷ ("dpty", dpty)
    ∷ ("tp", tp)
    ∷ ("ta", ta)
    ∷ ("rt_enabled", rt_enabled)
    ∷ ("ptyn_enabled", ptyn_enabled)
    ∷ []

-- The loop over `fields`.
unfoldable pub field_named : String → List (String × Field) → Option Field
field_named key [] = none
field_named key ((name, field) ∷ fields) =
    if key == name then some field else field_named key fields

-- The getters: FIELD_INT and FIELD_BOOL.
unfoldable pub get_field : Field → RdsData → Value
get_field pi d = integer d.pi
get_field pty d = integer d.pty
get_field ecc d = integer d.ecc
get_field slc_data d = integer d.slc_data
get_field ct d = boolean (is_set d.ct)
get_field dpty d = boolean (is_set d.dpty)
get_field tp d = boolean (is_set d.tp)
get_field ta d = boolean (is_set d.ta)
get_field rt_enabled d = boolean (is_set d.rt_enabled)
get_field ptyn_enabled d = boolean (is_set d.ptyn_enabled)

-- The setters; each integer is cut to its field.
abbrev set_integer : (ℕ → RdsData → RdsData) → Given → Action (Unit {0})
set_integer put v = do n ← check v.as_integer; change_settings (put n)

abbrev set_boolean : (ℕ → RdsData → RdsData) → Given → Action (Unit {0})
set_boolean put v = change_settings (put (bit_of v.as_boolean))

unfoldable pub set_field : Field → Given → Action (Unit {0})
set_field pi = set_integer (λ n d. record d { pi = n % 2 ^ 16 })
set_field pty = set_integer (λ n d. record d { pty = n % 2 ^ 5 })
set_field ecc = set_integer (λ n d. record d { ecc = n % 2 ^ 8 })
set_field slc_data = set_integer (λ n d. record d { slc_data = n % 2 ^ 12 })
set_field ct = set_boolean (λ n d. record d { ct = n })
set_field dpty = set_boolean (λ n d. record d { dpty = n })
set_field tp = set_boolean (λ n d. record d { tp = n })
set_field ta = set_boolean (λ n d. record d { ta = n })
set_field rt_enabled = set_boolean (λ n d. record d { rt_enabled = n })
set_field ptyn_enabled = set_boolean (λ n d. record d { ptyn_enabled = n })

-- The key is what `luaL_checkstring` gives. `none` in the result is `lua_rawget` on the table.
unfoldable pub rds_index : Option String → Action (Option Value)
unfolding field_named get_field
rds_index key = do
  name ← check key
  gets λ s. elim (field_named name field_names) [
    | none ↦ none
    | some field ↦ some (get_field field (settings_of s))
  ]

-- The setter of the field that is found. The result tells whether the key is left to `lua_rawset`.
abbrev pub set_named : Option Field → Given → Action Bool
set_named none v = pure true
set_named (some field) v = set_field field v >> pure false

unfoldable pub rds_newindex : Option String → Given → Action Bool
unfolding field_named
rds_newindex key v = do name ← check key; set_named (field_named name field_names) v
