-- ===== src/Main/Ascii.antt =====
-- What `main` of src/rds95.c does to the encoder in the ASCII G mode, next to a description that knows no
-- servers and prints nothing.
use rds.Common.{
  ℕ, zero, suc, ◌+◌, ◌^◌, ◌≡◌, refl, ap, ◌∙◌, arith, ◌==◌, List, [], ◌∷◌, Bool, true, false,
}
use rds.Common.{not, ◌&&◌, if◌then◌else◌, ltb, leb, Option, some, Bool-cases, inl, inr}
use rds.Model.{RdsEon, zero_encoder}
use rds.Lua.{Lua, World}
use rds.Groups.{is_set}
use rds.Groups.Clock.{Tm}
use rds.Sequence.{get_rds_group}
use rds.Store.{Layout, init_rds_encoder, encoder_save_to_file}
use rds.Udp.{Handler, Socket, open_udp_server, poll_udp_server}
use rds.Tcp.{Net, Answer, init_tcp_server, is_tcp_server_running, accept_tcp_clients}
use rds.Rds95.{config_handler, ascii_stream, ascii_round}
use package.rds.Main.{Round, Env, Outcome, ready, init_lua, udp_server_worker, commands, ascii_loop}
use package.rds.Main.{exit_main, run_main, start_main, main, shut, no_net}
use package.rds.Main.Options.{Args, go, parse_options, default_args}

module _ (lay : Layout) (signed : Bool) (stray : RdsEon) (L : Lua) (handler : Handler L) where
  -- The specification: a group for each stream in order, as long as there are streams.
  abbrev pub streams_served : ℕ → Tm → ℕ → World L → World L
  streams_served zero utc i w = w
  streams_served (suc left) utc i w =
      let rest = streams_served left utc (i + 1) (get_rds_group L signed stray utc i w).0 in
      if ltb i w.0.streams then rest else w

  -- Datagrams one after the other.
  abbrev pub polled : List (Option (List ℕ)) → World L → World L
  polled [] w = w
  polled (d ∷ ds) w = polled ds (poll_udp_server L handler d w).1

  -- In each round the datagrams that have come, if anyone listens, and then the streams.
  abbrev pub rounds_served : Bool → List Round → World L → World L
  rounds_served listens [] w = w
  rounds_served listens (r ∷ rs) w =
      rounds_served listens rs
        (streams_served 8 r.utc 0 (if listens then polled r.datagrams w else w))

  udp_server_worker-eq-polled :
      (ds : List (Option (List ℕ))) (w : World L) → udp_server_worker L handler ds w ≡ polled ds w
  unfolding udp_server_worker
  udp_server_worker-eq-polled [] w = refl
  udp_server_worker-eq-polled (d ∷ ds) w = udp_server_worker-eq-polled ds _

  commands-eq-polled :
      (thread : Bool) (ds : List (Option (List ℕ))) (w : World L)
      → commands L handler thread ds w ≡ (if thread then polled ds w else w)
  commands-eq-polled true ds w = udp_server_worker-eq-polled ds w
  commands-eq-polled false ds w = refl

  ascii_round-eq-streams_served :
      (left : ℕ) (utc : Tm) (answers : ℕ → Answer) (i : ℕ) (st : World L × Net)
      → (ascii_round L signed stray left utc answers i st).1.0 ≡ streams_served left utc i st.0
  unfolding ascii_round ascii_stream
  ascii_round-eq-streams_served zero utc answers i st = refl
  ascii_round-eq-streams_served (suc left) utc answers i st =
      let next = (ascii_stream L signed stray utc answers i st).1 in
      elim (Bool-cases (ltb i st.0.0.streams)) [
        | inl more ↦
            rw (ascii_round, more) (ascii_round-eq-streams_served left utc answers (i + 1) next)
        | inr done ↦ rw (ascii_round, done) refl
      ]

  ascii_loop-eq-rounds_served :
      (thread : Bool) (rounds : List Round) (st : World L × Net)
      → (ascii_loop lay signed stray L handler thread rounds st).0
        ≡ rounds_served thread rounds st.0
  unfolding ascii_loop
  ascii_loop-eq-rounds_served thread [] st = refl
  ascii_loop-eq-rounds_served thread (r ∷ rs) (w, net) =
      let net' = if is_tcp_server_running net then accept_tcp_clients r.accepted net else net in
      let st : World L × Net = (commands L handler thread r.datagrams w, net') in
      ascii_loop-eq-rounds_served thread rs (ascii_round L signed stray 8 r.utc r.answers 0 st).1
      ∙ ap (rounds_served thread rs) (
          ascii_round-eq-streams_served 8 r.utc r.answers 0 st
          ∙ ap (streams_served 8 r.utc 0) (commands-eq-polled thread r.datagrams w))

  -- A run ends with the encoder `w`, which is what it saves over the file `file`.
  abbrev pub Leaves : Env L → World L → Option (List ℕ) → Option Outcome → Type 0
  Leaves env w file r =
      (o : Outcome) × ((r ≡ some o)
        × (o.code ≡ 0)
        × (o.encoder ≡ w.0)
        × (o.file ≡ encoder_save_to_file lay signed env.exit_io w.0 file))

  -- All rounds, and what the thread still receives before the save.
  abbrev pub all_served : Env L → Bool → World L → World L
  all_served env listens w =
      let w' = rounds_served listens env.rounds w in if listens then polled env.late w' else w'

  exit_main-Leaves :
      (env : Env L) (port : ℕ) (thread : Bool) (udp : Socket) (net : Net) (w w' : World L)
      (file : Option (List ℕ))
      → (is_set port && not thread) ≡ false
      → w ≡ w'
      → Leaves env w' file
          (exit_main lay signed stray L handler env.exit_io port thread udp net w.0 file)
  unfolding exit_main
  exit_main-Leaves env port thread udp net w w' file joins same = rw joins (
    _,
    (
      refl,
      refl,
      ap (λ (v : World L). v.0) same,
      ap (λ (v : World L). encoder_save_to_file lay signed env.exit_io v.0 file) same,
    ),
  )

  run_main-Leaves :
      (env : Env L) (args : Args) (thread : Bool) (udp : Socket) (w : World L)
      (file : Option (List ℕ))
      → (is_set args.config.udp_port && not thread) ≡ false
      → args.config.asciig ≡ 1
      → (ltb 0 args.config.tcp_port
          && not (init_tcp_server env.opening args.config.tcp_port no_net).0)
        ≡ false
      → Leaves env
          (all_served env thread w)
          file
          (run_main lay signed stray L handler env args thread udp w file)
  unfolding run_main
  run_main-Leaves env args thread udp w file joins ascii opens =
      let config = args.config in
      let (listening, net) =
        if config.asciig == 1 && ltb 0 config.tcp_port
        then init_tcp_server env.opening config.tcp_port no_net
        else (true, no_net) in
      let st = ascii_loop lay signed stray L handler thread env.rounds (w, net) in
      let one : (config.asciig == 1) ≡ true = ground arith in
      let printing : (config.asciig == 0) ≡ false = ground arith in
      let served =
        commands-eq-polled thread env.late st.0
        ∙ ap (λ v. if thread then polled env.late v else v)
            (ascii_loop-eq-rounds_served thread env.rounds (w, net)) in
      let leaves = exit_main-Leaves env config.udp_port thread udp st.1 _ _ file joins served in
      let listens : not listening ≡ false = elim (Bool-cases (ltb 0 config.tcp_port)) [
        | inl wanted ↦ rw (one, wanted) (rw wanted at opens)
        | inr plain ↦ rw (one, plain) refl
      ] in
      rw (listens, printing) leaves

  start_main-Leaves :
      (env : Env L) (args : Args) (i : L.Interp) (disk : Option (List ℕ))
      → env.thread_created ≡ 0
      → args.config.asciig ≡ 1
      → (ltb 0 args.config.tcp_port
          && not (init_tcp_server env.opening args.config.tcp_port no_net).0)
        ≡ false
      → let (w, file) = init_rds_encoder lay signed L env.utc env.start_io disk i in
        let listens = (open_udp_server env.udp_socket env.udp_bound shut).0 in
        Leaves env
          (all_served env listens w)
          file
          (start_main lay signed stray L handler env args i disk)
  unfolding start_main
  start_main-Leaves env args i disk created ascii opens =
      let (w, file) = init_rds_encoder lay signed L env.utc env.start_io disk i in
      let (opened, udp) = open_udp_server env.udp_socket env.udp_bound shut in
      let no_port : Args = record args { config = record args.config { udp_port = 0 } } in
      let runs : leb (2 ^ 31) env.thread_created ≡ false = ground arith in
      let thread : (env.thread_created == 0) ≡ true = ground arith in
      elim (Bool-cases opened) [
        | inl bound ↦
            rw (bound, runs, thread)
              (run_main-Leaves env args true udp w file (ground arith) ascii opens)
        | inr unopened ↦ rw unopened (run_main-Leaves env no_port false udp w file refl ascii opens)
      ]

  -- In the ASCII G mode, where the options and the configuration are right, the script is loaded, the
  -- thread can be created and the TCP server opens if a port is configured for it, `main` returns 0. The
  -- encoder that it leaves is the one that it started with after, in each round, the datagrams that came,
  -- if the UDP server has opened, and a group for each stream in order from 0 on, as long as there are
  -- streams; then come the last datagrams, and what it saves over the file of the start is this encoder.
  pub main-Leaves :
      (env : Env L) (args : Args) (i : L.Interp) (disk : Option (List ℕ))
      → parse_options env.options default_args ≡ go args
      → let (result, config) =
          env.ini_parse args.config_path (config_handler env.atoi) args.config in
        result ≡ 0
        → init_lua L env.newstate env.script zero_encoder ≡ ready i
        → env.thread_created ≡ 0
        → config.asciig ≡ 1
        → (ltb 0 config.tcp_port && not (init_tcp_server env.opening config.tcp_port no_net).0)
          ≡ false
        → let (w, file) = init_rds_encoder lay signed L env.utc env.start_io disk i in
          let listens = (open_udp_server env.udp_socket env.udp_bound shut).0 in
          Leaves env (all_served env listens w) file (main lay signed stray L handler env disk)
  unfolding main
  main-Leaves env args i disk parsed read loaded created ascii opens =
      let config = (env.ini_parse args.config_path (config_handler env.atoi) args.config).1 in
      rw (main, parsed, read, loaded)
        (start_main-Leaves env (record args { config = config }) i disk created ascii opens)
