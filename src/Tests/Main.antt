-- ===== src/Tests/Main.antt =====
-- Runs of `main`: a round for the modulator, a round that is printed, and a script that is missing.
use rds.Common.{◌≡◌, refl, arith, [], ◌∷◌, true, false, some, none, replicate}
use rds.Model.{zero_eon, zero_encoder, zero_data, programs}
use rds.Store.{init_rds_encoder, file_of, encoder_load_from_file}
use rds.Setters.{is_nul}
use rds.Rds95.{Rds95Config}
use rds.Tcp.{would_block, init_tcp_server}
use rds.Main.{Env, Round, Outcome, main, init_lua, exit_main}
use rds.Main.Ascii.{Leaves, all_served, main-Leaves}
use rds.Udp.{open_udp_server}
use rds.Main.Options.{Args, default_args, parse_options, copied_path, config_option}
use rds.Main.Laws.{Ends, main-Ends, main_lua_failed}
use rds.Api.Valid.{zero_data-IsSettings}
use package.rds.Tests.Sequence.{noon}
use package.rds.Tests.Layout.{whole}
use package.rds.Tests.System.{scripted, command}

abbrev round : Round
round = record {
  utc = noon;
  io = λ _. (15, 112 ∷ 0 ∷ []);
  accepted = none;
  answers = λ _. would_block;
  datagrams = some (0x41 ∷ []) ∷ none ∷ [];
}

abbrev configured : Rds95Config
configured = record { udp_port = 4000; tcp_port = 0; asciig = 0 }

-- With the option `-c ab`.
abbrev env : Env scripted
env = record {
  options = config_option (0x61 ∷ 0x62 ∷ 0 ∷ 0x63 ∷ []) ∷ [];
  atoi = λ _. 4000;
  ini_parse = λ path handle config. (0, configured);
  newstate = some tt;
  script = λ _. some tt;
  utc = noon;
  start_io = record { opens = false; renames = true };
  exit_io = record { opens = true; renames = true };
  udp_socket = some 5;
  udp_bound = true;
  thread_created = 0;
  opening = record { socket = none; options_set = true; bound = true; listens = true };
  ipc_created = true;
  ipc_accepted = λ _. true;
  rounds = round ∷ round ∷ [];
  late = some (0x42 ∷ []) ∷ [];
}

abbrev args : Args
args = record default_args { config_path = 0x61 ∷ 0x62 ∷ [] }

main-Ends_run :
    Ends whole true zero_eon scripted command none
      (main whole true zero_eon scripted command env none)
unfolding parse_options copied_path init_lua is_nul
main-Ends_run = main-Ends whole true zero_eon scripted command none env args tt refl refl refl refl

-- Two rounds that are printed, with a TCP server that opens.
abbrev printing : Env scripted
printing = record env {
  ini_parse = λ path handle config. (0, record { udp_port = 4000; tcp_port = 5000; asciig = 1 });
  opening = record { socket = some 7; options_set = true; bound = true; listens = true };
}

main-Leaves_example :
    let (w, file) =
      init_rds_encoder whole true scripted noon printing.start_io (some (7 ∷ [])) tt in
    Leaves whole true zero_eon scripted command printing
      (all_served whole true zero_eon scripted command printing true w)
      file
      (main whole true zero_eon scripted command printing (some (7 ∷ [])))
unfolding parse_options copied_path init_lua is_nul open_udp_server init_tcp_server
main-Leaves_example =
    main-Leaves whole true zero_eon scripted command printing args tt (some (7 ∷ [])) refl refl refl
      refl refl refl

-- The script does not load, and there is no UDP server.
abbrev unscripted : Env scripted
unscripted = record env {
  ini_parse = λ path handle config. (0, record { udp_port = 0; tcp_port = 0; asciig = 0 });
  script = λ _. none;
}

main_lua_failed_example :
    (o : Outcome) × ((main whole true zero_eon scripted command unscripted (some (7 ∷ [])) ≡ some o)
      × (o.code ≡ 0)
      × (encoder_load_from_file whole true o.file zero_encoder ≡ (
        0,
        record zero_encoder { settings = replicate programs zero_data; program = 0; streams = 0 },
      )))
unfolding parse_options copied_path init_lua file_of zero_encoder is_nul
main_lua_failed_example =
    let z = zero_data-IsSettings in
    main_lua_failed whole true zero_eon scripted command (some (7 ∷ [])) unscripted args 2
      zero_encoder refl refl refl refl refl
      (record {
        programmes = refl;
        settings = (z, (z, (z, tt)));
        program = omega arith;
        streams = omega arith;
      })

-- With a port, the thread that was not created is joined, for which nothing is defined.
joins_no_thread_run :
    main whole true zero_eon scripted command (record env { script = λ _. none }) none ≡ none
unfolding main parse_options copied_path init_lua exit_main is_nul
joins_no_thread_run = refl
