-- ===== src/Api/Runs.antt =====
-- The calls, one by one and in a sequence, keep what they rely on.
use Prim.Native.String.{String}
use rds.Common.{List, [], ◌∷◌, false, Option, none, some}
use rds.Model.{}
use package.rds.Api.{Api}
use package.rds.Api.{pure}
use package.rds.Api.Fields.{
  Field, Given, field_named, field_names, set_field, set_named, rds_newindex,
}
use package.rds.Api.Calls.{WriteCall, Call, run_write, run, run_all, write, set_program}
use package.rds.Api.Calls.{set_writing_program, set_streams, set_ptyn, set_ps, set_tps, set_rt}
use package.rds.Api.Calls.{set_ptyn_raw, set_ps_raw, set_tps_raw, set_rt_raw, set_lps, set_grp_sqc}
use package.rds.Api.Calls.{set_af_group0, set_userdata, set_userdata_offset, set_link, toggle_rt_ab}
use package.rds.Api.Calls.{put_custom_group, put2_custom_group, set_eon, newindex}
use rds.Setters.{set_rds_ptyn, set_rds_ps, set_rds_tps, set_rds_rt, set_rds_lps, set_rds_grpseq}
use package.rds.Api.EonValid.{lua_set_rds_eon-Preserves}
use package.rds.Api.Invariant.{setter-Preserves, raw_setter-Preserves, set_rds_ps-Stores}
use package.rds.Api.Invariant.{set_rds_tps-Stores, set_rds_ptyn-Stores, set_rds_rt-Stores}
use package.rds.Api.Invariant.{
  set_rds_lps-Stores, set_rds_grpseq-Stores, lua_set_userdata-Preserves,
}
use package.rds.Api.Invariant.{lua_set_userdata_offset-Preserves, lua_set_rds_af_group0-Preserves}
use package.rds.Api.Invariant.{
  lua_put_rds_custom_group-Preserves, lua_put_rds2_custom_group-Preserves,
}
use package.rds.Api.Valid.{IsValid}
use package.rds.Api.Valid.{}
use package.rds.Api.Preserve.{Preserves, check-Preserves}
use package.rds.Api.Preserve.{bind-Preserves, set_field-Preserves}
use package.rds.Api.ProgramsValid.{lua_toggle_rt_ab-Preserves}
use package.rds.Api.ProgramsValid.{lua_set_rds_link-Preserves}
use package.rds.Api.ProgramsValid.{lua_set_rds_writing_program-Preserves}
use package.rds.Api.ProgramsValid.{lua_set_rds_streams-Preserves}
use package.rds.Api.ProgramsValid.{lua_set_rds_program-Preserves}
use package.rds.Api.Text.{lua_set_rds_ptyn}
use package.rds.Api.Text.{lua_set_rds_ps}
use package.rds.Api.Text.{lua_set_rds_tps}
use package.rds.Api.Text.{lua_set_rds_rt}
use package.rds.Api.Text.{lua_set_rds_ptyn_raw}
use package.rds.Api.Text.{lua_set_rds_ps_raw}
use package.rds.Api.Text.{lua_set_rds_tps_raw}
use package.rds.Api.Text.{lua_set_rds_rt_raw}
use package.rds.Api.Text.{lua_set_rds_lps}
use package.rds.Api.Text.{lua_set_rds_grp_sqc}

named : (r : Option Field) (v : Given) → Preserves (set_named r v)
named none v s h = h
named (some field) v s h =
    bind-Preserves (set_field field v) (λ _. pure false) (set_field-Preserves field v) (λ _ s h. h)
      s h

-- Every call, whatever its arguments are.
rds_newindex-Preserves : (key : Option String) (v : Given) → Preserves (rds_newindex key v)
unfolding rds_newindex
rds_newindex-Preserves key v = check-Preserves key _ λ name. named (field_named name field_names) v

run_write-Preserves : (c : WriteCall) (s : Api) → IsValid s → IsValid (run_write c s)
unfolding run_write lua_set_rds_ptyn lua_set_rds_ps lua_set_rds_tps lua_set_rds_rt
    lua_set_rds_ptyn_raw lua_set_rds_ps_raw lua_set_rds_tps_raw lua_set_rds_rt_raw lua_set_rds_lps
    lua_set_rds_grp_sqc
run_write-Preserves (set_ptyn stray arg) s v =
    setter-Preserves set_rds_ptyn set_rds_ptyn-Stores 8 stray arg s v
run_write-Preserves (set_ps stray arg) s v =
    setter-Preserves set_rds_ps set_rds_ps-Stores 8 stray arg s v
run_write-Preserves (set_tps stray arg) s v =
    setter-Preserves set_rds_tps set_rds_tps-Stores 8 stray arg s v
run_write-Preserves (set_rt stray arg) s v =
    setter-Preserves set_rds_rt set_rds_rt-Stores 64 stray arg s v
run_write-Preserves (set_ptyn_raw arg) s v =
    raw_setter-Preserves set_rds_ptyn set_rds_ptyn-Stores arg s v
run_write-Preserves (set_ps_raw arg) s v = raw_setter-Preserves set_rds_ps set_rds_ps-Stores arg s v
run_write-Preserves (set_tps_raw arg) s v =
    raw_setter-Preserves set_rds_tps set_rds_tps-Stores arg s v
run_write-Preserves (set_rt_raw arg) s v = raw_setter-Preserves set_rds_rt set_rds_rt-Stores arg s v
run_write-Preserves (set_lps arg) s v = raw_setter-Preserves set_rds_lps set_rds_lps-Stores arg s v
run_write-Preserves (set_grp_sqc arg) s v =
    raw_setter-Preserves set_rds_grpseq set_rds_grpseq-Stores arg s v
run_write-Preserves (set_af_group0 arg) s v = lua_set_rds_af_group0-Preserves arg s v
run_write-Preserves (set_userdata arg) s v = lua_set_userdata-Preserves arg s v
run_write-Preserves (set_userdata_offset arg1 arg2 arg3) s v =
    lua_set_userdata_offset-Preserves arg1 arg2 arg3 s v
run_write-Preserves (set_link arg) s v = lua_set_rds_link-Preserves arg s v
run_write-Preserves toggle_rt_ab s v = lua_toggle_rt_ab-Preserves s v
run_write-Preserves (put_custom_group arg1 arg2 arg3) s v =
    lua_put_rds_custom_group-Preserves arg1 arg2 arg3 s v
run_write-Preserves (put2_custom_group arg1 arg2 arg3 arg4) s v =
    lua_put_rds2_custom_group-Preserves arg1 arg2 arg3 arg4 s v
run_write-Preserves (set_eon arg1 inside arg2) s v = lua_set_rds_eon-Preserves arg1 inside arg2 s v
run_write-Preserves (newindex key value) s v = rds_newindex-Preserves key value s v

pub run-IsValid : (c : Call) (s : Api) → IsValid s → IsValid (run c s)
unfolding run
run-IsValid (write c) s v = run_write-Preserves c s v
run-IsValid (set_program arg) s v = lua_set_rds_program-Preserves arg s v
run-IsValid (set_writing_program arg) s v = lua_set_rds_writing_program-Preserves arg s v
run-IsValid (set_streams arg) s v = lua_set_rds_streams-Preserves arg s v

-- Whatever a script calls, and in whatever order, and also where calls raise errors: the arrays of
-- the encoder keep their sizes, the numbers fit their bit fields, and the programme on the air and
-- the one that is written stay below 3. (A write outside an array changes nothing here.)
pub run_all-IsValid : (cs : List Call) (s : Api) → IsValid s → IsValid (run_all cs s)
unfolding run_all
run_all-IsValid [] s v = v
run_all-IsValid (c ∷ cs) s v = run_all-IsValid cs (run c s) (run-IsValid c s v)
