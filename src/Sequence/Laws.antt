-- ===== src/Sequence/Laws.antt =====
-- What every group of stream 0 gets before it is sent, and how the other streams repeat it.
use rds.Common.{◌*◌, ◌^◌, ◌<◌, [], ◌∷◌, Bool}
use rds.Common.{◌≡◌, ap, arith, if◌then◌else◌, length}
use rds.Common.{Bool-cases, inl, inr, get_or-set_self, length-set, bit_or, bit_or_twice}
use rds.Model.{RdsState, RdsEon, RdsEncoder, RdsGroup, data_at, state_at, zero_state}
use rds.Lua.{Lua, World, lua_call_tfunction, pre_tx}
use rds.Groups.{is_set}
use rds.Groups.Clock.{Tm, get_rdsp_ct_group}
use package.rds.Sequence.{finish_group, get_rds_group, clock_hooks, stream0_group}

-- The group `g` is finished for the encoder `enc`, and stored there for the other streams.
pub record Finished (enc : RdsEncoder) (g : RdsGroup) : Type 0 where
  pub stored : (state_at enc enc.program).last_stream0_group ≡ g.b ∷ g.c ∷ g.d ∷ []
  pub stored_type : (state_at enc enc.program).last_stream0_group_type_b ≡ g.is_type_b
  pub own_pi : (if is_set g.is_type_b then (data_at enc enc.program).pi else g.c) ≡ g.c
  pub fields :
      bit_or
        (bit_or g.b ((data_at enc enc.program).tp * 2 ^ 10))
        ((data_at enc enc.program).pty * 2 ^ 5)
      ≡ g.b

-- What a stream other than 0 starts from.
abbrev pub no_group : RdsGroup
no_group = record { a = 0; b = 0; c = 0; d = 0; is_type_b = 0 }

module _ (L : Lua) (signed : Bool) (stray : RdsEon) where
  finish_group-Finished :
      (enc : RdsEncoder) (g : RdsGroup)
      → let (enc', g') = finish_group L signed stray enc g in
        enc'.program < length enc'.state → Finished enc' g'
  unfolding finish_group
  finish_group-Finished enc g range =
      let d = data_at enc enc.program in
      let (enc', g') = finish_group L signed stray enc g in
      let s' : RdsState = record (state_at enc enc.program) {
        last_stream0_group = g'.b ∷ g'.c ∷ g'.d ∷ [];
        last_stream0_group_type_b = g.is_type_b;
      } in
      let at : state_at enc' enc.program ≡ s' =
        get_or-set_self enc.state enc.program s' zero_state
          (omega (arith, range, length-set enc.state enc.program s')) in
      record {
        stored = ap (λ (s : RdsState). s.last_stream0_group) at;
        stored_type = ap (λ (s : RdsState). s.last_stream0_group_type_b) at;
        own_pi = ground arith;
        fields = bit_or_twice g.b (d.tp * 2 ^ 10) (d.pty * 2 ^ 5);
      }

  -- The group that `get_rds_group` makes for stream 0 is stored for the other streams, in the state
  -- of the programme that is on the air at the end; its block B has the bits of that programme's TP
  -- and PTY set, and a version B group has that programme's PI in block C. This holds for clock,
  -- buffered and sequence groups alike and for every interpreter, as long as the programme is in
  -- range.
  pub get_rds_group-Finished :
      (utc : Tm) (w : World L)
      → (get_rds_group L signed stray utc 0 w).0.0.program
        < length (get_rds_group L signed stray utc 0 w).0.0.state
      → let (w', g) = get_rds_group L signed stray utc 0 w in Finished w'.0 g
  unfolding get_rds_group
  get_rds_group-Finished utc w =
      let blank : RdsGroup = record {
        a = (data_at w.0 w.0.program).pi;
        b = 0;
        c = 0;
        d = 0;
        is_type_b = 0;
      } in
      let w1 = (clock_hooks L signed stray utc 0 w).1 in
      let r = stream0_group L signed stray (lua_call_tfunction L pre_tx w1) blank in
      elim (Bool-cases (clock_hooks L signed stray utc 0 w).0) [
        | inl due ↦ rw due (finish_group-Finished w1.0 (get_rdsp_ct_group utc blank))
        | inr other ↦ rw other (finish_group-Finished r.0.0 r.1)
      ]
