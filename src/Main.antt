-- ===== src/Main.antt =====
-- `main` of src/rds95.c, from its arguments to the file that it leaves. What the libraries, the system and
-- the clock answer is the record `Env`; messages and the handling of signals are left out.
pub mod Options
pub mod Laws
pub mod Ascii
use Prim.Native.String.{String}
use rds.Common.{
  ℕ, zero, suc, ◌==◌, List, [], ◌∷◌, Bool, true, false, not, ◌&&◌, if◌then◌else◌, ltb, leb, ◌^◌,
}
use rds.Common.{Option, none, some, replicate}
use rds.Model.{RdsEon, RdsEncoder, zero_encoder}
use rds.Lua.{Lua, World}
use rds.Groups.{is_set}
use rds.Groups.Clock.{Tm}
use rds.Store.{Layout, Answers, init_rds_encoder, encoder_save_to_file}
use rds.Udp.{Handler, Socket, poll_udp_server, open_udp_server, close_udp_server}
use rds.Tcp.{Net, Opening, Answer, init_tcp_server, accept_tcp_clients, is_tcp_server_running}
use rds.Tcp.{close_tcp_server}
use rds.Ipc.{IpcClient, ipc_connect, ipc_close}
use rds.Rds95.{Rds95Config, config_handler, ascii_round}
use rds.Rds95.Modulator.{modulator_round}
use package.rds.Main.Options.{Opt, Args, Parsed, quit, go, parse_options, default_args}

-- One round of the loop of `main`: the time, what the sockets answer, and the datagrams that the other
-- thread has received since the last round.
pub record Round : Type 0 where
  pub utc : Tm
  pub io : ℕ → ℕ × List ℕ
  pub accepted : Option ℕ
  pub answers : ℕ → Answer
  pub datagrams : List (Option (List ℕ))

-- The answers of a run; a result of `ini_parse` below 0 is its bit pattern. `newstate` is `luaL_newstate`, and `script` the chunk that `luaL_loadfile` makes of
-- /etc/rds95.lua. The rounds end when a signal sets `stop_rds`; there are none if it is set before.
pub record Env (L : Lua) : Type 0 where
  pub options : List Opt
  pub atoi : String → ℕ
  pub ini_parse :
      List ℕ
      → (String → String → String → Rds95Config → Bool × Rds95Config)
      → Rds95Config
      → ℕ × Rds95Config
  pub newstate : Option L.Interp
  pub script : L.Interp → Option L.Fn
  pub utc : Tm
  pub start_io : Answers
  pub exit_io : Answers
  pub udp_socket : Option ℕ
  pub udp_bound : Bool
  -- The result of `pthread_create`, as its bit pattern: 0, or the number of an error, which is positive.
  pub thread_created : ℕ
  pub opening : Opening
  pub ipc_created : Bool
  -- `connect` on the path of a socket.
  pub ipc_accepted : List ℕ → Bool
  pub rounds : List Round
  -- The datagrams that the thread still receives between the last round, or the failure, and the save:
  -- `pthread_join` waits until a signal has stopped the thread.
  pub late : List (Option (List ℕ))

-- What a run leaves.
pub record Outcome : Type 0 where
  pub code : ℕ
  pub encoder : RdsEncoder
  pub file : Option (List ℕ)
  pub net : Net
  pub udp : Socket

-- The result of `init_lua` with 1 or 2, or the interpreter after the script has run.
pub data LuaStart (I : Type 0) : Type 0 where
  failed : ℕ → LuaStart I
  ready : I → LuaStart I

-- Nothing is open.
abbrev pub shut : Socket
shut = record { sockfd = none; closed = [] }

abbrev pub no_net : Net
no_net = record {
  server = record { server_socket = none; port = 0; clients = []; running = false };
  closed = [];
}

module _ (L : Lua) where
  -- The end of `init_lua`: the script is loaded and run. What it does to the encoder is dropped by
  -- `init_rds_encoder`.
  unfoldable pub load_script : Option L.Fn → RdsEncoder → L.Interp → LuaStart L.Interp
  load_script none enc i = failed 2
  load_script (some f) enc i = ready (L.pcall f (enc, i)).1

  -- `init_lua`, without the libraries and tables that it sets up in between.
  unfoldable pub init_lua :
      Option L.Interp → (L.Interp → Option L.Fn) → RdsEncoder → LuaStart L.Interp
  unfolding load_script
  init_lua none script enc = failed 1
  init_lua (some i) script enc = load_script (script i) enc i

module _ (L : Lua) (handler : Handler L) where
  -- `udp_server_worker`: the thread polls until it is stopped.
  unfoldable pub udp_server_worker : List (Option (List ℕ)) → World L → World L
  udp_server_worker [] w = w
  udp_server_worker (d ∷ ds) w = udp_server_worker ds (poll_udp_server L handler d w).1

  -- Datagrams, if the thread runs.
  abbrev pub commands : Bool → List (Option (List ℕ)) → World L → World L
  commands thread ds w = if thread then udp_server_worker ds w else w

module _ (lay : Layout) (signed : Bool) (stray : RdsEon) (L : Lua) (handler : Handler L) where
  -- The loop of the modulator mode.
  unfoldable pub modulator_loop :
      Bool → List Round → (World L × IpcClient) × ℕ → (World L × IpcClient) × ℕ
  unfolding udp_server_worker
  modulator_loop thread [] st = st
  modulator_loop thread (r ∷ rs) ((w, client), sent_num) =
      let w' = commands L handler thread r.datagrams w in
      modulator_loop thread rs
        (modulator_round L signed stray r.utc r.io ((w', client), sent_num)).0

  -- The loop of the ASCII G mode, without what it prints.
  unfoldable pub ascii_loop : Bool → List Round → World L × Net → World L × Net
  unfolding udp_server_worker
  ascii_loop thread [] st = st
  ascii_loop thread (r ∷ rs) (w, net) =
      let w' = commands L handler thread r.datagrams w in
      let net' = if is_tcp_server_running net then accept_tcp_clients r.accepted net else net in
      ascii_loop thread rs (ascii_round L signed stray 8 r.utc r.answers 0 (w', net')).1

  -- The label `exit`, with the port that is left in the configuration, whether the thread runs, and the
  -- encoder as the thread has left it. With a port and no thread, `pthread_join` is given an
  -- uninitialised thread, for which nothing is defined: the result is `none`.
  unfoldable pub exit_main :
      Answers → ℕ → Bool → Socket → Net → RdsEncoder → Option (List ℕ) → Option Outcome
  exit_main io udp_port thread udp net enc file =
      if is_set udp_port && not thread
      then none
      else some (record {
        code = 0;
        encoder = enc;
        file = encoder_save_to_file lay signed io enc file;
        net = if is_tcp_server_running net then close_tcp_server net else net;
        udp = if is_set udp_port then close_udp_server udp else udp;
      })

  -- From the TCP server on. The announcement of the streams and the close of the connection to the
  -- modulator change nothing that is kept.
  unfoldable pub run_main :
      Env L → Args → Bool → Socket → World L → Option (List ℕ) → Option Outcome
  unfolding modulator_loop ascii_loop exit_main udp_server_worker
  run_main env args thread udp w file =
      let config = args.config in
      let (listening, net) =
        if config.asciig == 1 && ltb 0 config.tcp_port
        then init_tcp_server env.opening config.tcp_port no_net
        else (true, no_net) in
      let (connected, client) =
        ipc_connect env.ipc_created (env.ipc_accepted args.socket_path)
          (record { connected = false; prev_output = replicate 4 0 }) in
      let ((w1, client1), sent_num) = modulator_loop thread env.rounds ((w, client), w.0.streams) in
      let (w2, net2) = ascii_loop thread env.rounds (w, net) in
      let (end, end_net) =
        if not listening
        then (w, net)
        else if config.asciig == 0 && not connected
        then (w, net)
        else if config.asciig == 0
        then (w1, net)
        else (w2, net2) in
      let last = commands L handler thread env.late end in
      exit_main env.exit_io config.udp_port thread udp end_net last.0 file

  -- From `init_rds_encoder` on.
  unfoldable pub start_main : Env L → Args → L.Interp → Option (List ℕ) → Option Outcome
  unfolding run_main exit_main
  start_main env args i disk =
      let (w, file) = init_rds_encoder lay signed L env.utc env.start_io disk i in
      let (opened, udp) = open_udp_server env.udp_socket env.udp_bound shut in
      if not opened
      then run_main env (record args { config = record args.config { udp_port = 0 } }) false udp w
          file
      else if leb (2 ^ 31) env.thread_created
      then exit_main env.exit_io 0 false udp no_net w.0 file
      else run_main env args (env.thread_created == 0) udp w file

  -- A run that ends before anything is set up.
  abbrev pub refused : ℕ → Option (List ℕ) → Outcome
  refused code disk = record {
    code = code;
    encoder = zero_encoder;
    file = disk;
    net = no_net;
    udp = shut;
  }

  -- `main`, with the encoder file that it finds; `none` where its behaviour is undefined.
  unfoldable pub main : Env L → Option (List ℕ) → Option Outcome
  unfolding start_main init_lua parse_options exit_main
  main env disk = elim (parse_options env.options default_args) [
    | quit code ↦ some (refused code disk)
    | go args ↦
        let (res, config) = env.ini_parse args.config_path (config_handler env.atoi) args.config in
        if not (res == 0)
        then some (refused res disk)
        else elim (init_lua L env.newstate env.script zero_encoder) [
          | failed err ↦ exit_main env.exit_io config.udp_port false shut no_net zero_encoder disk
          | ready i ↦ start_main env (record args { config = config }) i disk
        ]
  ]
