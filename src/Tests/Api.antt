-- ===== src/Tests/Api.antt =====
-- Calls of a script on the encoder as it starts.
use rds.Common.{◌≡◌, refl, List, [], ◌∷◌, arith, true, none, some, get_or}
use rds.Model.{RdsGroup, zero_eon, zero_encoder}
use rds.Api.{Api, ok, raised, settings_of, change_state}
use rds.Api.Fields.{Given, integer, pi, field_names, field_named, rds_index, rds_newindex}
use rds.Api.Userdata.{lua_get_userdata_offset, lua_set_userdata_offset}
use rds.Api.Programs.{lua_set_rds_streams, lua_set_rds_program, program_of, select_program}
use rds.Api.Buffers.{put_word, lua_put_rds_custom_group}
use rds.Api.Eon.{lua_set_rds_eon, strnlen}
use rds.Api.Calls.{Call, write, set_program, set_ps, toggle_rt_ab}
use rds.Api.Calls.{put_custom_group, set_userdata, newindex, run_all}
use rds.Api.Hooks.{lua_reset_rds}
use rds.Api.Valid.{IsValid}
use rds.Api.Start.{zero_encoder-IsEncoder}
use rds.Api.Runs.{run_all-IsValid}
use rds.Api.Laws.{
  stored, rds_index-rds_newindex, lua_get_userdata_offset-lua_set_userdata_offset, only_pi,
}
use rds.Api.Laws.{lua_set_rds_streams_locked, lua_set_rds_eon_no_list}
use rds.Api.BufferLaws.{lua_put_rds_custom_group_sent, lua_put_rds_custom_group_refused}
use rds.Api.HookLaws.{lua_reset_rds-keeps_settings}
use rds.Sequence.{stream0_group, finish_group}
use rds.Lua.{lua_call_tfunction_nolock, on_state}
use rds.Reset.{reset_rds_state}
use rds.Store.{encoder_save_to_file}
use package.rds.Tests.Groups.{silent}
use package.rds.Tests.Sequence.{noon}
use package.rds.Tests.Store.{small, bare}

abbrev start : Api
start = record { encoder = zero_encoder; writing_program = 1 }

start-IsValid : IsValid start
start-IsValid = record { encoder = zero_encoder-IsEncoder; writing_program = omega arith }

-- A name, another programme, a group, an argument that is wrong, and a field.
abbrev script : List Call
script =
    write (set_ps [] (some (0x48 ∷ 0x69 ∷ [])))
    ∷ set_program (some 7)
    ∷ write (put_custom_group (some 0x3000) (some 1) (some 2))
    ∷ write (put_custom_group (some 0x3000) (some 1) none)
    ∷ write (set_userdata none)
    ∷ write (newindex (some "pty") (record { as_integer = some 100; as_boolean = true }))
    ∷ write toggle_rt_ab
    ∷ []

run_all-IsValid_run : IsValid (run_all script start)
run_all-IsValid_run = run_all-IsValid script start start-IsValid

abbrev given_pi : Given
given_pi = record { as_integer = some 0x1234f; as_boolean = true }

rds_index-rds_newindex_example :
    let s' = (rds_newindex (some "pi") given_pi start).1 in
    rds_index (some "pi") s' ≡ (ok (some (integer 0x234f)), s')
unfolding stored field_names field_named
rds_index-rds_newindex_example = rds_index-rds_newindex start start-IsValid "pi" pi given_pi refl

lua_get_userdata_offset-lua_set_userdata_offset_example :
    let s' = (lua_set_userdata_offset (some 4) (some 3) (some (7 ∷ 8 ∷ [])) start).1 in
    lua_get_userdata_offset (some 4) (some 3) s' ≡ (ok (7 ∷ 8 ∷ 0 ∷ []), s')
lua_get_userdata_offset-lua_set_userdata_offset_example =
    lua_get_userdata_offset-lua_set_userdata_offset start start-IsValid 4 3 (7 ∷ 8 ∷ [])
      (omega arith) (omega arith)

lua_set_rds_streams_locked_run :
    let s' = (lua_set_rds_streams (some 5) start).1 in
    (s'.encoder.streams ≡ 5) × (lua_set_rds_streams (some 1) s' ≡ (raised, s'))
unfolding zero_encoder
lua_set_rds_streams_locked_run =
    lua_set_rds_streams_locked 5 (some 1) start (omega arith) (omega arith)

only_pi_raises :
    let (r, s') = lua_set_rds_eon (some 2) (omega arith) (some (only_pi 0x1abc)) start in
    (r ≡ raised) × ((get_or (settings_of s').eon 2 zero_eon).pi ≡ 0x1abc)
only_pi_raises = lua_set_rds_eon_no_list 2 0x1abc (omega arith) start start-IsValid (omega arith)

abbrev start0 : Api
start0 = record { encoder = zero_encoder; writing_program = 0 }

abbrev blank : RdsGroup
blank = record { a = 0; b = 0; c = 0; d = 0; is_type_b = 0 }

lua_put_rds_custom_group_sent_example :
    let s' = (lua_put_rds_custom_group (some 0x3800) (some 1) (some 2) start0).1 in
    let (w', g') = stream0_group silent true zero_eon (s'.encoder, tt) blank in
    (w' ≡ (
      (change_state (λ t. record t { custom_group = 0 ∷ 0x3800 ∷ 1 ∷ 2 ∷ [] }) start0).1.encoder,
      tt,
    ))
    × ((finish_group silent true zero_eon w'.0 g').1
        ≡ record { a = 0; b = 0x3800; c = 0; d = 2; is_type_b = 1 })
unfolding zero_encoder
lua_put_rds_custom_group_sent_example =
    lua_put_rds_custom_group_sent start0
      (record { encoder = zero_encoder-IsEncoder; writing_program = omega arith }) silent true
      zero_eon tt blank 0x3800 1 2 refl refl

lua_put_rds_custom_group_refused_run :
    let s' = (lua_put_rds_custom_group none (some 1) (some 2) start).1 in
    (s' ≡ (put_word 0 1 start).1)
    × (lua_put_rds_custom_group (some 1) (some 2) (some 3) s' ≡ (raised, s'))
unfolding zero_encoder
lua_put_rds_custom_group_refused_run =
    lua_put_rds_custom_group_refused start start-IsValid (some 1) (some 2) (some 1, some 2, some 3)
      refl

lua_reset_rds-keeps_settings_run :
    let reset = reset_rds_state noon (reset_rds_state noon (reset_rds_state noon bare 0) 1) 2 in
    lua_reset_rds small true silent noon
      (record { opens = true; renames = true })
      ((bare, tt), none)
    ≡ (
      lua_call_tfunction_nolock silent on_state (reset, tt),
      encoder_save_to_file small true (record { opens = true; renames = true }) bare none,
    )
unfolding rds.Store.file_of
lua_reset_rds-keeps_settings_run =
    lua_reset_rds-keeps_settings small true silent noon bare tt none refl

-- Choosing the programme on the air chooses the writing programme too.
both_programs :
    let s = (lua_set_rds_program (some 2) start).1 in
    (s.encoder.program ≡ 2) × (s.writing_program ≡ 2)
unfolding lua_set_rds_program program_of select_program zero_encoder
both_programs = (refl, refl)

-- A text of which five characters are looked at, and one that ends before.
lengths_are :
    (strnlen (0x41 ∷ 0x42 ∷ 0 ∷ 0x43 ∷ []) 5 ≡ 2) × (strnlen (0x41 ∷ 0x42 ∷ 0x43 ∷ []) 2 ≡ 2)
unfolding strnlen
lengths_are = (refl, refl)
