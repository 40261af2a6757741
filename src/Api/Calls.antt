-- ===== src/Api/Calls.antt =====
-- The functions that change the encoder or the writing programme, as calls with their arguments.
use Prim.Native.String.{String}
use rds.Common.{ℕ, List, [], ◌∷◌, Bool, Option}
use package.rds.Api.{Api}
use package.rds.Api.Fields.{Given, rds_newindex}
use package.rds.Api.Userdata.{lua_set_userdata, lua_set_userdata_offset}
use package.rds.Api.Text.{
  lua_set_rds_ptyn, lua_set_rds_ptyn_raw, lua_set_rds_ps, lua_set_rds_ps_raw,
}
use package.rds.Api.Text.{lua_set_rds_tps, lua_set_rds_tps_raw, lua_set_rds_rt, lua_set_rds_rt_raw}
use package.rds.Api.Text.{lua_set_rds_lps, lua_set_rds_grp_sqc, lua_set_rds_af_group0}
use package.rds.Api.Programs.{lua_set_rds_program, lua_set_rds_writing_program, lua_set_rds_streams}
use package.rds.Api.Programs.{lua_set_rds_link, lua_toggle_rt_ab}
use package.rds.Api.Buffers.{lua_put_rds_custom_group, lua_put_rds2_custom_group}
use package.rds.Api.Eon.{NotNegative, EonTable, lua_set_rds_eon}

-- A call that writes to the writing programme, with its arguments; the setters that convert a text
-- are given the memory behind it as well.
pub data WriteCall : Type 0 where
  set_ptyn set_ps set_tps set_rt : List ℕ → Option (List ℕ) → WriteCall
  set_ptyn_raw set_ps_raw set_tps_raw set_rt_raw : Option (List ℕ) → WriteCall
  set_lps set_grp_sqc : Option (List ℕ) → WriteCall
  set_af_group0 : Option (List (Option ℕ)) → WriteCall
  set_userdata : Option (List ℕ) → WriteCall
  set_userdata_offset : Option ℕ → Option ℕ → Option (List ℕ) → WriteCall
  set_link : Option Bool → WriteCall
  toggle_rt_ab : WriteCall
  put_custom_group : Option ℕ → Option ℕ → Option ℕ → WriteCall
  put2_custom_group : Option ℕ → Option ℕ → Option ℕ → Option ℕ → WriteCall
  -- Its index is not negative: nothing is defined for one that is.
  set_eon : (arg1 : Option ℕ) → NotNegative arg1 → Option EonTable → WriteCall
  newindex : Option String → Given → WriteCall

pub data Call : Type 0 where
  write : WriteCall → Call
  set_program set_writing_program set_streams : Option ℕ → Call

-- What a call leaves, whether it returns or raises an error.
unfoldable pub run_write : WriteCall → Api → Api
run_write (set_ptyn stray arg) s = (lua_set_rds_ptyn stray arg s).1
run_write (set_ps stray arg) s = (lua_set_rds_ps stray arg s).1
run_write (set_tps stray arg) s = (lua_set_rds_tps stray arg s).1
run_write (set_rt stray arg) s = (lua_set_rds_rt stray arg s).1
run_write (set_ptyn_raw arg) s = (lua_set_rds_ptyn_raw arg s).1
run_write (set_ps_raw arg) s = (lua_set_rds_ps_raw arg s).1
run_write (set_tps_raw arg) s = (lua_set_rds_tps_raw arg s).1
run_write (set_rt_raw arg) s = (lua_set_rds_rt_raw arg s).1
run_write (set_lps arg) s = (lua_set_rds_lps arg s).1
run_write (set_grp_sqc arg) s = (lua_set_rds_grp_sqc arg s).1
run_write (set_af_group0 arg) s = (lua_set_rds_af_group0 arg s).1
run_write (set_userdata arg) s = (lua_set_userdata arg s).1
run_write (set_userdata_offset arg1 arg2 arg3) s = (lua_set_userdata_offset arg1 arg2 arg3 s).1
run_write (set_link arg) s = (lua_set_rds_link arg s).1
run_write toggle_rt_ab s = (lua_toggle_rt_ab s).1
run_write (put_custom_group arg1 arg2 arg3) s = (lua_put_rds_custom_group arg1 arg2 arg3 s).1
run_write (put2_custom_group arg1 arg2 arg3 arg4) s =
    (lua_put_rds2_custom_group arg1 arg2 arg3 arg4 s).1
run_write (set_eon arg1 inside arg2) s = (lua_set_rds_eon arg1 inside arg2 s).1
run_write (newindex key v) s = (rds_newindex key v s).1

unfoldable pub run : Call → Api → Api
unfolding run_write
run (write c) s = run_write c s
run (set_program arg) s = (lua_set_rds_program arg s).1
run (set_writing_program arg) s = (lua_set_rds_writing_program arg s).1
run (set_streams arg) s = (lua_set_rds_streams arg s).1

unfoldable pub run_all : List Call → Api → Api
unfolding run
run_all [] s = s
run_all (c ∷ cs) s = run_all cs (run c s)
