-- ===== src/Api/Laws.antt =====
-- What a script reads after it has written, and two functions that do less than they seem to.
use Prim.Native.String.{String}
use rds.Common.{ℕ, ◌+◌, ◌-◌, ◌%◌, ◌^◌, ◌<◌, ◌≤◌, ◌≡◌, refl, sym, ap, ◌∙◌, arith}
use rds.Common.{List, ◌++◌, Bool, true, false, Option, none, some, length, get_or, set}
use rds.Common.{if◌then◌else◌, ltb, leb, take, drop, replicate, get_or-set_self}
use rds.Common.{take-append, drop-append, length-append, length-take, length-replicate}
use rds.Model.{RdsData, RdsEon, zero_data, zero_eon}
use rds.Groups.{is_set}
use mathlib.Core.List.{append_assoc}
use package.rds.Api.{pure, go_on, ◌>>◌}
use package.rds.Api.{Api, Result, ok, raised, check, ◌>>=◌, settings_of, change_settings}
use package.rds.Api.Fields.{
  Field, pi, pty, ecc, slc_data, ct, dpty, tp, ta, rt_enabled, ptyn_enabled,
}
use package.rds.Api.Fields.{Value, integer, boolean, Given, field_named, field_names, set_field}
use package.rds.Api.Fields.{get_field, rds_index, rds_newindex, bit_of}
use package.rds.Api.Userdata.{write_at, lua_set_userdata_offset, lua_get_userdata_offset}
use package.rds.Api.Programs.{lua_set_rds_streams}
use package.rds.Api.Text.{af_of_table}
use package.rds.Api.Eon.{absent, given, EonTable, lua_set_rds_eon}
use package.rds.Api.Valid.{IsValid, data_at-IsSettings}

-- What is written to the writing programme is what is read from it.
settings_of-change_settings :
    (f : RdsData → RdsData) (s : Api)
    → IsValid s
    → settings_of (change_settings f s).1 ≡ f (settings_of s)
settings_of-change_settings f s v =
    get_or-set_self s.encoder.settings s.writing_program _ zero_data
      (omega (arith, v.writing_program, v.encoder.programmes))

-- The value of a field after a write: an integer loses what its bits cannot hold, a value that is no
-- integer leaves the old one, and a flag is the truth of any value.
cut : ℕ → Given → Value → Value
cut w v old = elim v.as_integer [ none ↦ old | some n ↦ integer (n % 2 ^ w) ]

unfoldable pub stored : Field → Given → Value → Value
unfolding cut
stored pi v old = cut 16 v old
stored pty v old = cut 5 v old
stored ecc v old = cut 8 v old
stored slc_data v old = cut 12 v old
stored ct v old = boolean v.as_boolean
stored dpty v old = boolean v.as_boolean
stored tp v old = boolean v.as_boolean
stored ta v old = boolean v.as_boolean
stored rt_enabled v old = boolean v.as_boolean
stored ptyn_enabled v old = boolean v.as_boolean

is_set-bit_of : (b : Bool) → is_set (bit_of b) ≡ b
is_set-bit_of true = refl
is_set-bit_of false = refl

-- What a written part reads as.
take-drop-write_at :
    (offset size : ℕ) (text bytes : List ℕ)
    → length text ≤ size
    → offset ≤ length bytes
    → take size (drop offset (write_at offset size text bytes))
      ≡ text ++ replicate (size - length text) 0
unfolding write_at
take-drop-write_at offset size text bytes fits room =
    let zeros : List ℕ = replicate (size - length text) 0 in
    let rest = drop (offset + size) bytes in
    ap (take size) (
      drop-append offset (take offset bytes) (text ++ (zeros ++ rest))
        (omega (arith, length-take offset bytes))
      ∙ sym (append_assoc text zeros rest))
    ∙ take-append size (text ++ zeros) rest
        (omega (arith, length-append text zeros, length-replicate {A = ℕ} (size - length text) 0))

state_of_pure : {A B : Type 0} (r : Result A × Api) (b : B) → (go_on r (λ _. pure b)).1 ≡ r.1
state_of_pure (ok a, s) b = refl
state_of_pure (raised, s) b = refl

module _ (name : String) (field : Field) where
  rds_index_named :
      field_named name field_names ≡ some field
      → (t : Api) → rds_index (some name) t ≡ (ok (some (get_field field (settings_of t))), t)
  unfolding rds_index
  rds_index_named named t = rw named refl

  rds_newindex_named :
      (v : Given)
      → field_named name field_names ≡ some field
      → (t : Api) → rds_newindex (some name) v t ≡ (set_field field v >> pure false) t
  unfolding rds_newindex
  rds_newindex_named v named t = rw named refl

module _ (s : Api) (valid : IsValid s) where
  integer_stored :
      (arg : Option ℕ) (w : ℕ) (write : ℕ → RdsData → RdsData) (read : RdsData → ℕ)
      → ((n : ℕ) (d : RdsData) → read (write n d) ≡ n % 2 ^ w)
      → integer (read (settings_of ((check arg >>= λ n. change_settings (write n)) s).1))
        ≡ elim arg [ none ↦ integer (read (settings_of s)) | some n ↦ integer (n % 2 ^ w) ]
  integer_stored none w write read e = refl
  integer_stored (some n) w write read e =
      ap integer (ap read (settings_of-change_settings (write n) s valid) ∙ e n (settings_of s))

  flag_stored :
      (b : Bool) (write : ℕ → RdsData → RdsData) (read : RdsData → ℕ)
      → ((n : ℕ) (d : RdsData) → read (write n d) ≡ n)
      → boolean (is_set (read (settings_of (change_settings (write (bit_of b)) s).1))) ≡ boolean b
  flag_stored b write read e =
      ap (λ n. boolean (is_set n))
        (ap read (settings_of-change_settings (write (bit_of b)) s valid) ∙ e _ (settings_of s))
      ∙ ap boolean (is_set-bit_of b)

  get_field-set_field :
      (field : Field) (v : Given)
      → get_field field (settings_of (set_field field v s).1)
        ≡ stored field v (get_field field (settings_of s))
  unfolding get_field set_field stored cut
  get_field-set_field pi v =
      integer_stored v.as_integer 16 (λ n d. record d { pi = n % 2 ^ 16 }) (λ (d : RdsData). d.pi)
        (λ n d. refl)
  get_field-set_field pty v =
      integer_stored v.as_integer 5 (λ n d. record d { pty = n % 2 ^ 5 }) (λ (d : RdsData). d.pty)
        (λ n d. refl)
  get_field-set_field ecc v =
      integer_stored v.as_integer 8 (λ n d. record d { ecc = n % 2 ^ 8 }) (λ (d : RdsData). d.ecc)
        (λ n d. refl)
  get_field-set_field slc_data v =
      integer_stored v.as_integer 12 (λ n d. record d { slc_data = n % 2 ^ 12 })
        (λ (d : RdsData). d.slc_data) (λ n d. refl)
  get_field-set_field ct v =
      flag_stored v.as_boolean (λ n d. record d { ct = n }) (λ (d : RdsData). d.ct) (λ n d. refl)
  get_field-set_field dpty v =
      flag_stored v.as_boolean (λ n d. record d { dpty = n }) (λ (d : RdsData). d.dpty)
        (λ n d. refl)
  get_field-set_field tp v =
      flag_stored v.as_boolean (λ n d. record d { tp = n }) (λ (d : RdsData). d.tp) (λ n d. refl)
  get_field-set_field ta v =
      flag_stored v.as_boolean (λ n d. record d { ta = n }) (λ (d : RdsData). d.ta) (λ n d. refl)
  get_field-set_field rt_enabled v =
      flag_stored v.as_boolean (λ n d. record d { rt_enabled = n }) (λ (d : RdsData). d.rt_enabled)
        (λ n d. refl)
  get_field-set_field ptyn_enabled v =
      flag_stored v.as_boolean (λ n d. record d { ptyn_enabled = n })
        (λ (d : RdsData). d.ptyn_enabled) (λ n d. refl)

  -- Each of the ten fields of `RDS`, under its name: what a script reads after it has written a value
  -- is the value, an integer cut to the bits of the field, a flag as a truth value; where the write
  -- raises an error, it is the value from before.
  pub rds_index-rds_newindex :
      (name : String) (field : Field) (v : Given)
      → field_named name field_names ≡ some field
      → let s' = (rds_newindex (some name) v s).1 in
        rds_index (some name) s'
        ≡ (ok (some (stored field v (get_field field (settings_of s)))), s')
  rds_index-rds_newindex name field v named =
      let s' = (rds_newindex (some name) v s).1 in
      let written : s' ≡ (set_field field v s).1 =
        ap (λ (r : Result Bool × Api). r.1) (rds_newindex_named name field v named s)
        ∙ state_of_pure (set_field field v s) false in
      rds_index_named name field named s'
      ∙ ap (λ x. (ok (some x), s'))
          (ap (λ (t : Api). get_field field (settings_of t)) written ∙ get_field-set_field field v)

  length-lua_data : length (settings_of s).lua_data ≡ 1280
  length-lua_data =
      let v = data_at-IsSettings s.encoder s.writing_program valid.encoder in
      let (_, (_, (_, (_, (_, (_, (_, (e, _)))))))) = v.sizes in e

  -- A part of the user data that is written and read again is the text, filled up with zeros to the
  -- size that was given.
  pub lua_get_userdata_offset-lua_set_userdata_offset :
      (offset size : ℕ) (text : List ℕ)
      → length text ≤ size
      → offset + size ≤ 1280
      → let s' = (lua_set_userdata_offset (some offset) (some size) (some text) s).1 in
        lua_get_userdata_offset (some offset) (some size) s'
        ≡ (ok (text ++ replicate (size - length text) 0), s')
  unfolding lua_set_userdata_offset lua_get_userdata_offset
  lua_get_userdata_offset-lua_set_userdata_offset offset size text fits room =
      let o : offset % 2 ^ 16 ≡ offset = omega arith in
      let z : size % 2 ^ 16 ≡ size = omega arith in
      let fit : ltb size (length text) ≡ false = ground arith in
      let inside : ltb 1280 (offset + size) ≡ false = ground arith in
      let write = λ (d : RdsData). record d { lua_data = write_at offset size text d.lua_data } in
      let has : length (settings_of s).lua_data ≡ 1280 = length-lua_data in
      rw (o, z, fit, inside)
        (ap (λ x. (ok x, (change_settings write s).1))
          (ap (λ (d : RdsData). take size (drop offset d.lua_data))
              (settings_of-change_settings write s valid)
            ∙ take-drop-write_at offset size text (settings_of s).lua_data fits
                (omega (arith, has))))

-- The number of streams is tested before the new one is read: a number above 4 is accepted, and from
-- then on every call raises an error and changes nothing.
pub lua_set_rds_streams_locked :
    (n : ℕ) (arg : Option ℕ) (s : Api)
    → s.encoder.streams ≤ 4
    → 4 < n % 8
    → let s' = (lua_set_rds_streams (some n) s).1 in
      (s'.encoder.streams ≡ n % 8) × (lua_set_rds_streams arg s' ≡ (raised, s'))
unfolding lua_set_rds_streams
lua_set_rds_streams_locked n arg s low above =
    let first : ltb 4 s.encoder.streams ≡ false = ground arith in
    let later : ltb 4 (n % 8) ≡ true = ground arith in rw first (refl, rw later refl)

length-eon : (s : Api) → IsValid s → length (settings_of s).eon ≡ 4
length-eon s valid =
    let v = data_at-IsSettings s.encoder s.writing_program valid.encoder in
    let (_, (_, (_, (_, (_, (_, (e, _))))))) = v.sizes in e

-- A table that gives nothing but the PI.
abbrev pub only_pi : ℕ → EonTable
only_pi n = record {
  enabled = absent;
  tp = absent;
  ta = absent;
  pi = given (some n);
  pty = absent;
  word = absent;
  ps = absent;
  afs = none;
}

-- A table for another network must have its list of frequencies: without it an error is raised, but
-- what stood before it in the table, here the PI, has been written.
pub lua_set_rds_eon_no_list :
    (i n : ℕ) (inside : i % 2 ^ 32 < 2 ^ 31) (s : Api)
    → IsValid s
    → i < 4
    → let (r, s') = lua_set_rds_eon (some i) inside (some (only_pi n)) s in
      (r ≡ raised) × ((get_or (settings_of s').eon i zero_eon).pi ≡ n % 2 ^ 16)
unfolding lua_set_rds_eon af_of_table
lua_set_rds_eon_no_list i n inside s v small =
    let low : i % 2 ^ 32 ≡ i = omega arith in
    let no_error : (if leb (2 ^ 31) i then false else leb 4 i) ≡ false = ground arith in
    let write : RdsEon → RdsEon = λ e. record e { pi = n % 2 ^ 16 } in
    let networks = (settings_of s).eon in
    let eon_written =
      λ (d : RdsData). record d { eon = set d.eon i (write (get_or d.eon i zero_eon)) } in
    rw (low, no_error)
      (
        refl,
        ap (λ (d : RdsData). (get_or d.eon i zero_eon).pi)
              (settings_of-change_settings eon_written s v)
            ∙ ap (λ (e : RdsEon). e.pi)
                (get_or-set_self networks i (write (get_or networks i zero_eon)) zero_eon
                  (omega (arith, length-eon s v))),
      )
