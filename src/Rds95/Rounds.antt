-- ===== src/Rds95/Rounds.antt =====
-- The loops over the streams: what a round serves, and that they end, although a
-- hook may change the number of streams while they run.
use rds.Common.{
  ℕ, zero, suc, ◌+◌, ◌≤◌, ◌<◌, ◌≡◌, refl, ap, ◌∙◌, arith, List, [], ◌∷◌, Bool, true, false,
  if◌then◌else◌, ltb,
}
use rds.Common.{Bool-cases, inl, inr}
use rds.Model.{RdsEon, RdsEncoder}
use rds.Lua.{Lua, World}
use rds.Lua.Keeps.{HooksKeep}
use rds.Groups.Clock.{Tm}
use rds.Sequence.{get_rds_group}
use rds.Sequence.ByProgress.{ProgressKeeps, progress-GeneratorsKeep}
use rds.Sequence.Whole.{ChoicesKeep, get_rds_group-Keeps}
use rds.Ipc.{IpcClient}
use rds.Tcp.{Net, Answer}
use package.rds.Rds95.{ascii_stream, ascii_round}
use package.rds.Rds95.Modulator.{send_stream, send_round}

module _ (L : Lua) (signed : Bool) (stray : RdsEon) where
  -- Each of `n` streams from `i` on, once and in order, without a test: to the modulator, and printed.
  abbrev pub all_sent : ℕ → Tm → (ℕ → ℕ × List ℕ) → ℕ → World L × IpcClient → World L × IpcClient
  all_sent zero utc io i st = st
  all_sent (suc n) utc io i st =
      all_sent n utc io (i + 1) (send_stream L signed stray utc (io i) i st)

  abbrev pub all_printed :
      ℕ → Tm → (ℕ → Answer) → ℕ → World L × Net → List (List ℕ) × (World L × Net)
  all_printed zero utc answers i st = ([], st)
  all_printed (suc n) utc answers i st =
      let (text, st1) = ascii_stream L signed stray utc answers i st in
      let (texts, st2) = all_printed n utc answers (i + 1) st1 in (text ∷ texts, st2)

-- The encoder has `n` streams.
abbrev pub HasStreams : ℕ → RdsEncoder → Type 0
HasStreams n enc = enc.streams ≡ n

-- The hooks leave the number of streams as it is.
module _ (L : Lua) (signed : Bool) (stray : RdsEon) (n : ℕ) (h : HooksKeep L (HasStreams n)) where
  get_rds_group-HasStreams :
      (utc : Tm) (stream : ℕ) (w : World L)
      → HasStreams n w.0
      → HasStreams n (get_rds_group L signed stray utc stream w).0.0
  get_rds_group-HasStreams =
      let k : ProgressKeeps (HasStreams n) = record { put = λ enc s has p. has } in
      let c : ChoicesKeep (HasStreams n) = record {
        index = λ enc m has. has;
        taken = λ enc has. has;
        taken2 = λ enc has. has;
      } in
      get_rds_group-Keeps L signed stray (HasStreams n) h
        (progress-GeneratorsKeep L signed stray (HasStreams n) h k) c

  send_stream-HasStreams :
      (utc : Tm) (io : ℕ × List ℕ) (stream : ℕ) (st : World L × IpcClient)
      → HasStreams n st.0.0
      → HasStreams n (send_stream L signed stray utc io stream st).0.0
  unfolding send_stream
  send_stream-HasStreams utc io stream (w, client) has = elim (Bool-cases client.connected) [
    | inl on ↦ rw on (get_rds_group-HasStreams utc stream w has)
    | inr off ↦ rw off has
  ]

  send_round-eq-all_sent :
      (left count : ℕ) (utc : Tm) (io : ℕ → ℕ × List ℕ) (i : ℕ) (st : World L × IpcClient)
      → count < left
      → i + count ≡ n
      → HasStreams n st.0.0
      → send_round L signed stray left utc io i st ≡ all_sent L signed stray count utc io i st
  unfolding send_round
  send_round-eq-all_sent zero count utc io i st below e has = absurd (omega (arith, below))
  send_round-eq-all_sent (suc left) zero utc io i st below e has =
      let done : ltb i st.0.0.streams ≡ false = ground arith in rw (send_round, done) refl
  send_round-eq-all_sent (suc left) (suc count) utc io i st below e has =
      let going : ltb i st.0.0.streams ≡ true = ground arith in
      rw (send_round, going)
        (send_round-eq-all_sent left count utc io (i + 1) _ (omega arith) (omega arith)
          (send_stream-HasStreams utc (io i) i st has))

  ascii_round-eq-all_printed :
      (left count : ℕ) (utc : Tm) (answers : ℕ → Answer) (i : ℕ) (st : World L × Net)
      → count < left
      → i + count ≡ n
      → HasStreams n st.0.0
      → ascii_round L signed stray left utc answers i st
        ≡ all_printed L signed stray count utc answers i st
  unfolding ascii_round ascii_stream
  ascii_round-eq-all_printed zero count utc answers i st below e has = absurd (omega (arith, below))
  ascii_round-eq-all_printed (suc left) zero utc answers i st below e has =
      let done : ltb i st.0.0.streams ≡ false = ground arith in rw (ascii_round, done) refl
  ascii_round-eq-all_printed (suc left) (suc count) utc answers i st below e has =
      let going : ltb i st.0.0.streams ≡ true = ground arith in
      let (text, st1) = ascii_stream L signed stray utc answers i st in
      rw (ascii_round, going)
        (ap (λ (r : List (List ℕ) × (World L × Net)). (text ∷ r.0, r.1))
          (ascii_round-eq-all_printed left count utc answers (i + 1) st1 (omega arith) (omega arith)
            (get_rds_group-HasStreams utc i st.0 has)))

  -- Where the hooks leave the number of streams as it is, below 8, a round of the modulator mode sends
  -- one group for each stream from 0 on, in order and for no other, and a round of the ASCII G mode
  -- prints and sends one text for each of them, as a plain recursion over the number of streams does.
  pub streams_in_order :
      (utc : Tm) (io : ℕ → ℕ × List ℕ) (answers : ℕ → Answer) (w : World L) (client : IpcClient)
      (net : Net)
      → n < 8
      → HasStreams n w.0
      → (send_round L signed stray 8 utc io 0 (w, client)
          ≡ all_sent L signed stray n utc io 0 (w, client))
        × (ascii_round L signed stray 8 utc answers 0 (w, net)
            ≡ all_printed L signed stray n utc answers 0 (w, net))
  streams_in_order utc io answers w client net few has = (
    send_round-eq-all_sent 8 n utc io 0 (w, client) few (omega arith) has,
    ascii_round-eq-all_printed 8 n utc answers 0 (w, net) few (omega arith) has,
  )

-- The number of streams has three bits.
abbrev pub FewStreams : RdsEncoder → Type 0
FewStreams enc = enc.streams < 8

module _ (L : Lua) (signed : Bool) (stray : RdsEon) (h : HooksKeep L FewStreams) where
  get_rds_group-FewStreams :
      (utc : Tm) (stream : ℕ) (w : World L)
      → FewStreams w.0
      → FewStreams (get_rds_group L signed stray utc stream w).0.0
  get_rds_group-FewStreams =
      let k : ProgressKeeps FewStreams = record { put = λ enc s few p. few } in
      let c : ChoicesKeep FewStreams = record {
        index = λ enc n few. few;
        taken = λ enc few. few;
        taken2 = λ enc few. few;
      } in
      get_rds_group-Keeps L signed stray FewStreams h
        (progress-GeneratorsKeep L signed stray FewStreams h k) c

  send_stream-FewStreams :
      (utc : Tm) (io : ℕ × List ℕ) (stream : ℕ) (st : World L × IpcClient)
      → FewStreams st.0.0
      → FewStreams (send_stream L signed stray utc io stream st).0.0
  unfolding send_stream
  send_stream-FewStreams utc io stream (w, client) few = elim (Bool-cases client.connected) [
    | inl on ↦ rw on (get_rds_group-FewStreams utc stream w few)
    | inr off ↦ rw off few
  ]

  send_round_enough :
      (left more : ℕ) (utc : Tm) (io : ℕ → ℕ × List ℕ) (i : ℕ) (st : World L × IpcClient)
      → 8 ≤ left + i
      → FewStreams st.0.0
      → send_round L signed stray (more + left) utc io i st
        ≡ send_round L signed stray left utc io i st
  unfolding send_round
  send_round_enough zero zero utc io i st far few = refl
  send_round_enough zero (suc more) utc io i st far few =
      let done : ltb i st.0.0.streams ≡ false = ground arith in
      ap (λ n. send_round L signed stray n utc io i st) {x = suc more + zero} {y = suc more}
        (omega arith)
      ∙ rw (send_round, done) refl
  send_round_enough (suc left) more utc io i st far few =
      let rest =
        send_round_enough left more utc io (i + 1) (send_stream L signed stray utc (io i) i st)
          (omega arith) (send_stream-FewStreams utc (io i) i st few) in
      ap (λ n. send_round L signed stray n utc io i st) {x = more + suc left}
        {y = suc (more + left)} (omega arith)
      ∙ ap (λ r. if ltb i st.0.0.streams then r else st) rest

  ascii_round_enough :
      (left more : ℕ) (utc : Tm) (answers : ℕ → Answer) (i : ℕ) (st : World L × Net)
      → 8 ≤ left + i
      → FewStreams st.0.0
      → ascii_round L signed stray (more + left) utc answers i st
        ≡ ascii_round L signed stray left utc answers i st
  unfolding ascii_round ascii_stream
  ascii_round_enough zero zero utc answers i st far few = refl
  ascii_round_enough zero (suc more) utc answers i st far few =
      let done : ltb i st.0.0.streams ≡ false = ground arith in
      ap (λ n. ascii_round L signed stray n utc answers i st) {x = suc more + zero} {y = suc more}
        (omega arith)
      ∙ rw (ascii_round, done) refl
  ascii_round_enough (suc left) more utc answers i st far few =
      let (text, st1) = ascii_stream L signed stray utc answers i st in
      let rest =
        ascii_round_enough left more utc answers (i + 1) st1 (omega arith)
          (get_rds_group-FewStreams utc i st.0 few) in
      ap (λ n. ascii_round L signed stray n utc answers i st) {x = more + suc left}
        {y = suc (more + left)} (omega arith)
      ∙ ap
          (λ (r : List (List ℕ) × (World L × Net)).
            if ltb i st.0.0.streams then (text ∷ r.0, r.1) else ([], st))
          rest

  -- Both loops over the streams end within eight rounds, in the modulator mode and in the ASCII G mode:
  -- with more rounds left than eight they do the same. The number of streams is below 8 and the hooks
  -- keep it so, but may change it while the loop runs.
  pub rounds_end :
      (more : ℕ) (utc : Tm) (io : ℕ → ℕ × List ℕ) (answers : ℕ → Answer) (w : World L)
      (client : IpcClient) (net : Net)
      → FewStreams w.0
      → (send_round L signed stray (more + 8) utc io 0 (w, client)
          ≡ send_round L signed stray 8 utc io 0 (w, client))
        × (ascii_round L signed stray (more + 8) utc answers 0 (w, net)
            ≡ ascii_round L signed stray 8 utc answers 0 (w, net))
  rounds_end more utc io answers w client net few = (
    send_round_enough 8 more utc io 0 (w, client) (omega arith) few,
    ascii_round_enough 8 more utc answers 0 (w, net) (omega arith) few,
  )
