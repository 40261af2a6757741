-- ===== src/Main/Laws.antt =====
-- A run of `main` is a run of the steps of the system, and what it leaves where something fails.
use rds.Common.{
  ℕ, zero, suc, ◌+◌, ◌≡◌, refl, ◌==◌, List, [], ◌∷◌, Bool, true, false, not, ◌&&◌, if◌then◌else◌,
  ltb, leb, ◌^◌,
}
use rds.Common.{Option, some, Bool-cases, inl, inr, replicate}
use rds.Model.{RdsEon, RdsEncoder, zero_encoder}
use rds.Lua.{Lua, World}
use rds.Groups.Clock.{Tm}
use rds.Store.{
  Layout, Answers, file_of, init_rds_encoder, encoder_save_to_file, encoder_load_from_file,
}
use rds.Store.Laws.{encoder_load_from_file-encoder_save_to_file}
use rds.Common.{ap, ◌∙◌, arith}
use rds.Groups.{is_set}
use rds.Model.{programs, zero_data}
use rds.Udp.{Handler, Socket, open_udp_server, close_udp_server}
use rds.Tcp.{Net, Answer, init_tcp_server, is_tcp_server_running, close_tcp_server}
use rds.Ipc.{IpcClient, ipc_connect}
use rds.Rds95.{config_handler, ascii_stream, ascii_round}
use rds.Rds95.Modulator.{send_stream, send_round, modulator_round}
use rds.System.{Reached, started, sent, commanded, saved}
use package.rds.Main.{Round, Env, Outcome, ready, failed, init_lua, udp_server_worker, commands}
use package.rds.Main.{
  modulator_loop, ascii_loop, exit_main, run_main, start_main, main, shut, no_net,
}
use package.rds.Main.Options.{Args, go, parse_options, default_args}

module _ (lay : Layout) (signed : Bool) (stray : RdsEon) (L : Lua) (handler : Handler L)
    (disk : Option (List ℕ)) (file : Option (List ℕ)) where
  -- The file stays the same until the end.
  abbrev During : World L → Type 0
  During w = Reached lay signed stray L handler disk (w, file)

  send_stream-During :
      (utc : Tm) (io : ℕ × List ℕ) (stream : ℕ) (st : World L × IpcClient)
      → During st.0
      → During (send_stream L signed stray utc io stream st).0
  unfolding send_stream
  send_stream-During utc io stream (w, client) r = elim (Bool-cases client.connected) [
    | inl on ↦ rw on (sent utc stream w file r)
    | inr off ↦ rw off r
  ]

  send_round-During :
      (left : ℕ) (utc : Tm) (io : ℕ → ℕ × List ℕ) (i : ℕ) (st : World L × IpcClient)
      → During st.0
      → During (send_round L signed stray left utc io i st).0
  unfolding send_round
  send_round-During zero utc io i st r = r
  send_round-During (suc left) utc io i st r = elim (Bool-cases (ltb i st.0.0.streams)) [
    | inl more ↦
        rw (send_round, more)
          (send_round-During left utc io (i + 1) _ (send_stream-During utc (io i) i st r))
    | inr done ↦ rw (send_round, done) r
  ]

  modulator_round-During :
      (utc : Tm) (io : ℕ → ℕ × List ℕ) (st : World L × IpcClient) (n : ℕ)
      → During st.0
      → During (modulator_round L signed stray utc io (st, n)).0.0.0
  unfolding modulator_round
  modulator_round-During utc io st n r =
      let st' = send_round L signed stray 8 utc io 0 st in
      let r' = send_round-During 8 utc io 0 st r in
      elim (Bool-cases (st'.0.0.streams == n)) [ inl same ↦ rw same r' | inr other ↦ rw other r' ]

  ascii_round-During :
      (left : ℕ) (utc : Tm) (answers : ℕ → Answer) (i : ℕ) (st : World L × Net)
      → During st.0
      → During (ascii_round L signed stray left utc answers i st).1.0
  unfolding ascii_round ascii_stream
  ascii_round-During zero utc answers i st r = r
  ascii_round-During (suc left) utc answers i st r = elim (Bool-cases (ltb i st.0.0.streams)) [
    | inl more ↦
        rw (ascii_round, more)
          (ascii_round-During left utc answers (i + 1) _ (sent utc i st.0 file r))
    | inr done ↦ rw (ascii_round, done) r
  ]

  udp_server_worker-During :
      (ds : List (Option (List ℕ))) (w : World L)
      → During w
      → During (udp_server_worker L handler ds w)
  unfolding udp_server_worker
  udp_server_worker-During [] w r = r
  udp_server_worker-During (d ∷ ds) w r = udp_server_worker-During ds _ (commanded d w file r)

  commands-During :
      (thread : Bool) (ds : List (Option (List ℕ))) (w : World L)
      → During w
      → During (commands L handler thread ds w)
  commands-During true ds w r = udp_server_worker-During ds w r
  commands-During false ds w r = r

  modulator_loop-During :
      (thread : Bool) (rounds : List Round) (st : World L × IpcClient) (n : ℕ)
      → During st.0
      → During (modulator_loop lay signed stray L handler thread rounds (st, n)).0.0
  unfolding modulator_loop
  modulator_loop-During thread [] st n r = r
  modulator_loop-During thread (t ∷ rounds) (w, client) n r =
      modulator_loop-During thread rounds _ _
        (modulator_round-During t.utc t.io (_, client) n (commands-During thread t.datagrams w r))

  ascii_loop-During :
      (thread : Bool) (rounds : List Round) (st : World L × Net)
      → During st.0
      → During (ascii_loop lay signed stray L handler thread rounds st).0
  unfolding ascii_loop
  ascii_loop-During thread [] st r = r
  ascii_loop-During thread (t ∷ rounds) (w, net) r =
      ascii_loop-During thread rounds _
        (ascii_round-During 8 t.utc t.answers 0 (_, _) (commands-During thread t.datagrams w r))

module _ (lay : Layout) (signed : Bool) (stray : RdsEon) (L : Lua) (handler : Handler L)
    (disk : Option (List ℕ)) where
  -- A run has an outcome, and the encoder and the file that it leaves, with some state of the
  -- interpreter, are reached.
  abbrev pub Ends : Option Outcome → Type 0
  Ends r =
      (o : Outcome) × ((r ≡ some o)
        × ((i : L.Interp) × (Reached lay signed stray L handler disk ((o.encoder, i), o.file))))

  exit_main-Ends :
      (io : Answers) (port : ℕ) (thread : Bool) (udp : Socket) (net : Net) (w : World L)
      (file : Option (List ℕ))
      → (is_set port && not thread) ≡ false
      → Reached lay signed stray L handler disk (w, file)
      → Ends (exit_main lay signed stray L handler io port thread udp net w.0 file)
  unfolding exit_main
  exit_main-Ends io port thread udp net w file joins r = (
    record {
      code = 0;
      encoder = w.0;
      file = encoder_save_to_file lay signed io w.0 file;
      net = if is_tcp_server_running net then close_tcp_server net else net;
      udp = if is_set port then close_udp_server udp else udp;
    },
    (rw joins refl, (w.1, saved io w file r)),
  )

  run_main-Ends :
      (env : Env L) (args : Args) (thread : Bool) (udp : Socket) (w : World L)
      (file : Option (List ℕ))
      → (is_set args.config.udp_port && not thread) ≡ false
      → Reached lay signed stray L handler disk (w, file)
      → Ends (run_main lay signed stray L handler env args thread udp w file)
  unfolding run_main
  run_main-Ends env args thread udp w file joins r =
      let config = args.config in
      let wanted = config.asciig == 1 && ltb 0 config.tcp_port in
      let (listening, net) =
        if wanted then init_tcp_server env.opening config.tcp_port no_net else (true, no_net) in
      let exits : (net : Net) (w : World L)
          → Reached lay signed stray L handler disk (w, file)
          → Ends (
              exit_main lay signed stray L handler env.exit_io config.udp_port thread udp net
                (commands L handler thread env.late w).0 file) =
        λ net w r.
          exit_main-Ends env.exit_io config.udp_port thread udp net _ file joins
            (commands-During lay signed stray L handler disk file thread env.late w r) in
      let connected =
        (ipc_connect env.ipc_created (env.ipc_accepted args.socket_path)
          (record { connected = false; prev_output = replicate 4 0 })).0 in
      elim (Bool-cases (not listening)) [
        | inl refused ↦ rw refused (exits net w r)
        | inr listens ↦ elim (Bool-cases (config.asciig == 0 && not connected)) [
          | inl apart ↦ rw (listens, apart) (exits net w r)
          | inr joined ↦ elim (Bool-cases (config.asciig == 0)) [
            | inl modulator ↦
                rw (listens, joined, modulator)
                  (exits net _ (
                    modulator_loop-During lay signed stray L handler disk file thread env.rounds _ _
                      r))
            | inr ascii ↦
                rw (listens, joined, ascii)
                  (let (w', net') =
                      ascii_loop lay signed stray L handler thread env.rounds (w, net) in
                    exits net' w' (
                      ascii_loop-During lay signed stray L handler disk file thread env.rounds
                        (w, net) r))
          ]
        ]
      ]

  start_main-Ends :
      (env : Env L) (args : Args) (i : L.Interp)
      → env.thread_created ≡ 0
      → Ends (start_main lay signed stray L handler env args i disk)
  unfolding start_main
  start_main-Ends env args i created =
      let (w, file) = init_rds_encoder lay signed L env.utc env.start_io disk i in
      let r : Reached lay signed stray L handler disk (w, file) = started env.utc env.start_io i in
      let (opened, udp) = open_udp_server env.udp_socket env.udp_bound shut in
      let runs : leb (2 ^ 31) env.thread_created ≡ false = ground arith in
      let thread : (env.thread_created == 0) ≡ true = ground arith in
      elim (Bool-cases (not opened)) [
        | inl unopened ↦ rw unopened (
            run_main-Ends env (record args { config = record args.config { udp_port = 0 } }) false
              udp w file refl r)
        | inr bound ↦
            rw (bound, runs, thread) (run_main-Ends env args true udp w file (ground arith) r)
      ]

  -- Where the options and the configuration are right, the script is loaded and the thread can be
  -- created, `main` has an outcome, and the encoder and the file that it leaves are reached by steps of
  -- the system from the start with the file that it found, in both modes, also where a server or the
  -- modulator fails.
  pub main-Ends :
      (env : Env L) (args : Args) (i : L.Interp)
      → parse_options env.options default_args ≡ go args
      → (env.ini_parse args.config_path (config_handler env.atoi) args.config).0 ≡ 0
      → init_lua L env.newstate env.script zero_encoder ≡ ready i
      → env.thread_created ≡ 0
      → Ends (main lay signed stray L handler env disk)
  unfolding main
  main-Ends env args i parsed read loaded created =
      let config = (env.ini_parse args.config_path (config_handler env.atoi) args.config).1 in
      rw (main, parsed, read, loaded)
        (start_main-Ends env (record args { config = config }) i created)

  -- Where the interpreter cannot be created, or its script not loaded, and no UDP port is configured,
  -- `main` still writes the encoder file, with the exit code 0: if this can be written and replaced, the
  -- next load succeeds and gives the settings of an empty encoder, whatever the file held before. Empty
  -- settings have to fit the file.
  pub main_lua_failed :
      (env : Env L) (args : Args) (err : ℕ) (enc : RdsEncoder)
      → parse_options env.options default_args ≡ go args
      → (env.ini_parse args.config_path (config_handler env.atoi) args.config).0 ≡ 0
      → (env.ini_parse args.config_path (config_handler env.atoi) args.config).1.udp_port ≡ 0
      → init_lua L env.newstate env.script zero_encoder ≡ failed err
      → env.exit_io ≡ record { opens = true; renames = true }
      → lay.IsStorable (file_of lay signed zero_encoder disk)
      → (o : Outcome) × ((main lay signed stray L handler env disk ≡ some o)
          × (o.code ≡ 0)
          × (encoder_load_from_file lay signed o.file enc ≡ (
            0,
            record enc { settings = replicate programs zero_data; program = 0; streams = 0 },
          )))
  unfolding main exit_main zero_encoder is_tcp_server_running
  main_lua_failed env args err enc parsed read port loaded io fits = (
    record {
      code = 0;
      encoder = zero_encoder;
      file = encoder_save_to_file lay signed env.exit_io zero_encoder disk;
      net = no_net;
      udp = shut;
    },
    (
      rw (main, parsed, read, loaded, exit_main, port) refl,
      refl,
      ap
            (λ (a : Answers).
              encoder_load_from_file lay signed
                (encoder_save_to_file lay signed a zero_encoder disk) enc)
            io
          ∙ encoder_load_from_file-encoder_save_to_file lay signed zero_encoder enc disk fits,
    ),
  )
