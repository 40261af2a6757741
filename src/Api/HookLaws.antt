-- ===== src/Api/HookLaws.antt =====
-- A reset by a script, through the encoder file.
use rds.Common.{ℕ, ◌≡◌, ap, List, Bool, true, Option}
use rds.Model.{RdsEncoder}
use rds.Lua.{Lua, on_state, lua_call_tfunction_nolock}
use rds.Groups.Clock.{Tm}
use rds.Reset.{reset_rds_state}
use rds.Store.{Layout, Answers, file_of, encoder_save_to_file}
use rds.Store.Laws.{encoder_load_from_file-encoder_save_to_file}
use package.rds.Api.Hooks.{lua_reset_rds}

-- Where the file can be written and replaced, and the settings fit it, they come back from the
-- file in a reset, the three programmes start again, which ends their traffic announcements, and the
-- hook `on_state` runs.
pub lua_reset_rds-keeps_settings :
    (lay : Layout) (signed : Bool) (L : Lua) (utc : Tm) (enc : RdsEncoder) (i : L.Interp)
    → (disk : Option (List ℕ)) → lay.IsStorable (file_of lay signed enc disk)
    → let io : Answers = record { opens = true; renames = true } in
      let reset = reset_rds_state utc (reset_rds_state utc (reset_rds_state utc enc 0) 1) 2 in
      lua_reset_rds lay signed L utc io ((enc, i), disk) ≡ (
        lua_call_tfunction_nolock L on_state (reset, i),
        encoder_save_to_file lay signed io enc disk,
      )
unfolding lua_reset_rds
lua_reset_rds-keeps_settings lay signed L utc enc i disk fits =
    let io : Answers = record { opens = true; renames = true } in
    let saved = encoder_save_to_file lay signed io enc disk in
    let reset =
      λ (e : RdsEncoder). reset_rds_state utc (reset_rds_state utc (reset_rds_state utc e 0) 1) 2 in
    ap (λ (r : ℕ × RdsEncoder). (lua_call_tfunction_nolock L on_state (reset r.1, i), saved))
      (encoder_load_from_file-encoder_save_to_file lay signed enc enc disk fits)
