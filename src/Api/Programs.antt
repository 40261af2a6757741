-- ===== src/Api/Programs.antt =====
-- The programme on the air and the one that is written, the streams, and single flags.
use rds.Common.{ℕ, ◌-◌, ◌%◌, ◌^◌, ◌==◌, Bool, Option, if◌then◌else◌, ltb, leb, bit_xor}
use rds.Model.{RdsData, programs, data_at, put_data}
use rds.Groups.{is_set}
use package.rds.Api.{Api, ok, Action, gets, check, raise_if, ◌>>=◌, ◌>>◌}
use package.rds.Api.{state_of, change_encoder, change_state}

-- `int program = ...` is the low half of the 64 bits, and is put into the range of the programmes.
unfoldable pub program_of : ℕ → ℕ
program_of n =
    let low = n % 2 ^ 32 in
    if leb (2 ^ 31) low then 0 else if leb programs low then programs - 1 else low

-- The new programme, with the traffic announcements of both ended; nothing for the same one.
unfoldable pub select_program : ℕ → Api → Api
select_program program s =
    let enc = s.encoder in
    let clear = λ (d : RdsData). record d { ta = 0 } in
    let enc1 = put_data enc enc.program (clear (data_at enc enc.program)) in
    let enc2 = put_data enc1 program (clear (data_at enc1 program)) in
    if enc.program == program
    then s
    else record { encoder = record enc2 { program = program }; writing_program = program }

unfoldable pub lua_set_rds_program : Option ℕ → Action (Unit {0})
unfolding program_of select_program
lua_set_rds_program arg = do n ← check arg; λ s. (ok tt, select_program (program_of n) s)

unfoldable pub lua_get_rds_program : Action ℕ
lua_get_rds_program = gets (λ s. s.encoder.program)

unfoldable pub lua_set_rds_writing_program : Option ℕ → Action (Unit {0})
unfolding program_of
lua_set_rds_writing_program arg = do
  n ← check arg
  λ s. (ok tt, record s { writing_program = program_of n })

unfoldable pub lua_get_rds_writing_program : Action ℕ
lua_get_rds_writing_program = gets (λ s. s.writing_program)

-- The limit is tested on the number of streams from before, and the argument is cut to three bits.
unfoldable pub lua_set_rds_streams : Option ℕ → Action (Unit {0})
lua_set_rds_streams arg = do
  streams ← gets (λ s. s.encoder.streams)
  raise_if (ltb 4 streams)
  n ← check arg
  change_encoder (λ p enc. record enc { streams = n % 2 ^ 3 })

unfoldable pub lua_get_rds_streams : Action ℕ
lua_get_rds_streams = gets (λ s. s.encoder.streams)

unfoldable pub lua_set_rds_link : Option Bool → Action (Unit {0})
lua_set_rds_link arg = do
  link ← check arg
  change_state (λ t. record t { eon_linkage = if link then 1 else 0 })

unfoldable pub lua_get_rds_link : Action Bool
lua_get_rds_link = gets (λ s. is_set (state_of s).eon_linkage)

unfoldable pub lua_toggle_rt_ab : Action (Unit {0})
lua_toggle_rt_ab = change_state (λ t. record t { rt_ab = bit_xor t.rt_ab 1 })
