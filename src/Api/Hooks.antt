-- ===== src/Api/Hooks.antt =====
-- The functions that call back: the defaults, the reset, and the group that is encoded for a
-- script; and those that only compute.
use rds.Common.{ℕ, ◌+◌, List, [], ◌∷◌, ◌++◌, Bool, true, false, Option, none, some}
use rds.Common.{if◌then◌else◌, length}
use rds.Model.{RdsEon, RdsGroup, data_at}
use rds.Lua.{Lua, World, on_init, on_state, lua_call_tfunction_nolock}
use rds.Groups.Clock.{Tm}
use rds.Reset.{reset_rds_state, set_rds_defaults}
use rds.Store.{Layout, Answers, encoder_save_to_file, encoder_load_from_file}
use rds.Sequence.{check_rds_good_group, get_rds_sequence_group}
use rds.Crc.{crc16_ccitt}
use rds.Charset.{convert_to_rdscharset}
use rds.Setters.Copy.{text_prefix}
use rds.Setters.{is_nul}
use package.rds.Api.{Result, ok, raised}

-- The statics `writing_program` and `in_set_defaults`, where hooks run: a hook may change them, so
-- they are read from the state that it leaves.
pub record Statics (L : Lua) : Type 0 where
  pub writing_program : L.Interp → ℕ
  pub in_set_defaults : L.Interp → Bool
  pub put_in_set_defaults : Bool → L.Interp → L.Interp

-- A call from a hook of its own does nothing.
unfoldable pub lua_set_rds_program_defaults : (L : Lua) → Statics L → Tm → World L → World L
lua_set_rds_program_defaults L st utc w =
    let enc = set_rds_defaults utc w.0 (st.writing_program w.1) in
    let w1 : World L = (enc, st.put_in_set_defaults true w.1) in
    let w2 = lua_call_tfunction_nolock L on_init w1 in
    let w3 = lua_call_tfunction_nolock L on_state w2 in
    if st.in_set_defaults w.1 then w else (w3.0, st.put_in_set_defaults false w3.1)

module _ (lay : Layout) (signed : Bool) where
  -- The settings go through the file, and the three programmes start again.
  unfoldable pub lua_reset_rds :
      (L : Lua) → Tm → Answers → World L × Option (List ℕ) → World L × Option (List ℕ)
  lua_reset_rds L utc io (w, disk) =
      let saved = encoder_save_to_file lay signed io w.0 disk in
      let enc = (encoder_load_from_file lay signed saved w.0).1 in
      let reset = reset_rds_state utc (reset_rds_state utc (reset_rds_state utc enc 0) 1) 2 in
      (lua_call_tfunction_nolock L on_state (reset, w.1), saved)

  unfoldable pub lua_force_save :
      (L : Lua) → Answers → World L × Option (List ℕ) → World L × Option (List ℕ)
  lua_force_save L io (w, disk) = (w, encoder_save_to_file lay signed io w.0 disk)

-- The group of the kind that the text names, or else of kind 0. `uninit` is the memory of `group`.
-- The result tells whether the kind was good. (Scripts run with the lock of the interpreter held, which
-- `lua_group` takes again: for a kind that is left to it, the code does not return. The lock is not
-- modelled.)
unfoldable pub lua_encode_group :
    (L : Lua) (signed : Bool) (stray : RdsEon)
    → RdsGroup
    → Option (List ℕ)
    → World L
    → Result (Bool × ℕ × ℕ × ℕ) × World L
lua_encode_group L signed stray uninit (some (grp ∷ [])) w =
    let good = check_rds_good_group (data_at w.0 w.0.program) grp in
    let (w', g) = get_rds_sequence_group L signed stray true (if good then grp else 0) w uninit in
    (ok (good, g.b, g.c, g.d), w')
lua_encode_group L signed stray uninit _ w = (raised, w)

unfoldable pub lua_crc16 : Bool → Option (List ℕ) → Result ℕ
lua_crc16 signed none = raised
lua_crc16 signed (some text) = ok (crc16_ccitt signed text (length text))

-- `lua_pushstring` takes the result up to its NUL.
unfoldable pub lua_convert_to_rdscharset : List ℕ → Option (List ℕ) → Result (List ℕ)
lua_convert_to_rdscharset stray none = raised
lua_convert_to_rdscharset stray (some input) =
    let size = length input + 1 in
    ok (text_prefix is_nul size (convert_to_rdscharset (input ++ (0 ∷ stray)) size))
