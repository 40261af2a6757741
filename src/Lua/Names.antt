-- ===== src/Lua/Names.antt =====
-- The names under which `init_lua` of src/lua_rds.c gives scripts the functions of src/lua_api.c.
use Prim.Native.String.{String}
use rds.Common.{ℕ, List, [], ◌∷◌}
use rds.Model.{lua_user_data, programs, eons}

-- The functions that src/lua_api.h declares, but for two that no file defines.
pub data CFunction : Type 0 where
  lua_get_userdata lua_get_userdata_offset lua_set_userdata : CFunction
  lua_set_userdata_offset lua_crc16 lua_force_save : CFunction
  lua_reset_rds lua_set_rds_program_defaults lua_set_rds_program : CFunction
  lua_get_rds_program lua_set_rds_writing_program lua_get_rds_writing_program : CFunction
  lua_convert_to_rdscharset lua_set_rds_link lua_get_rds_link : CFunction
  lua_set_rds_ptyn lua_set_rds_ptyn_raw lua_set_rds_ps : CFunction
  lua_set_rds_ps_raw lua_set_rds_tps lua_set_rds_tps_raw : CFunction
  lua_set_rds_rt lua_set_rds_rt_raw lua_toggle_rt_ab : CFunction
  lua_set_rds_lps lua_get_rds_lps lua_set_rds_grp_sqc : CFunction
  lua_get_rds_grp_sqc lua_put_rds_custom_group lua_put_rds2_custom_group : CFunction
  lua_set_rds_af_group0 lua_set_rds_eon lua_get_rds_eon : CFunction
  lua_set_rds_streams lua_get_rds_streams lua_encode_group : CFunction
  lua_rds__index lua_rds__newindex : CFunction

-- A table of functions, with the numbers beside them.
pub record Registered : Type 0 where
  pub functions : List (String × CFunction)
  pub numbers : List (String × ℕ)

-- `init_lua_userdata`: the global `userdata`.
unfoldable pub userdata_table : Registered
userdata_table = record {
  functions =
      ("get", lua_get_userdata)
      ∷ ("get_offset", lua_get_userdata_offset)
      ∷ ("set", lua_set_userdata)
      ∷ ("set_offset", lua_set_userdata_offset)
      ∷ [];
  numbers = ("len", lua_user_data) ∷ [];
}

-- `init_lua_data`: the global `Data`, without its version text.
unfoldable pub data_table : Registered
data_table = record {
  functions =
      ("crc16", lua_crc16)
      ∷ ("force_save", lua_force_save)
      ∷ ("reset_rds", lua_reset_rds)
      ∷ ("set_program_defaults", lua_set_rds_program_defaults)
      ∷ ("set_output_program", lua_set_rds_program)
      ∷ ("get_output_program", lua_get_rds_program)
      ∷ ("set_writing_program", lua_set_rds_writing_program)
      ∷ ("get_writing_program", lua_get_rds_writing_program)
      ∷ ("encode_charset", lua_convert_to_rdscharset)
      ∷ [];
  numbers = ("max_programs", programs) ∷ [];
}

-- The global `RDS`; its fields are read and written by the functions of its metatable.
unfoldable pub rds_table : Registered
rds_table = record {
  functions =
      ("set_link", lua_set_rds_link)
      ∷ ("get_link", lua_get_rds_link)
      ∷ ("set_ptyn", lua_set_rds_ptyn)
      ∷ ("set_ptyn_raw", lua_set_rds_ptyn_raw)
      ∷ ("set_ps", lua_set_rds_ps)
      ∷ ("set_ps_raw", lua_set_rds_ps_raw)
      ∷ ("set_tps", lua_set_rds_tps)
      ∷ ("set_tps_raw", lua_set_rds_tps_raw)
      ∷ ("set_rt", lua_set_rds_rt)
      ∷ ("set_rt_raw", lua_set_rds_rt_raw)
      ∷ ("toggle_rt_ab", lua_toggle_rt_ab)
      ∷ ("set_lps", lua_set_rds_lps)
      ∷ ("get_lps", lua_get_rds_lps)
      ∷ ("set_grpseq", lua_set_rds_grp_sqc)
      ∷ ("get_grpseq", lua_get_rds_grp_sqc)
      ∷ ("put_custom_group", lua_put_rds_custom_group)
      ∷ ("put_rds2_custom_group", lua_put_rds2_custom_group)
      ∷ ("set_af", lua_set_rds_af_group0)
      ∷ ("set_eon", lua_set_rds_eon)
      ∷ ("get_eon", lua_get_rds_eon)
      ∷ ("set_streams", lua_set_rds_streams)
      ∷ ("get_streams", lua_get_rds_streams)
      ∷ ("encode_group", lua_encode_group)
      ∷ [];
  numbers = ("eon_count", eons) ∷ [];
}
