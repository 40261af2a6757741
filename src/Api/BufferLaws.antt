-- ===== src/Api/BufferLaws.antt =====
-- The custom groups, from the buffer to the air.
use rds.Common.{ℕ, zero, suc, ◌%◌, ◌^◌, ◌<◌, ◌≡◌, refl, sym, ap, ◌∙◌, arith, List, [], ◌∷◌}
use rds.Common.{Bool, true, false, Option, none, some, length, get_or, set, get_or-set_self}
use rds.Model.{
  RdsData, RdsState, RdsEon, RdsEncoder, RdsGroup, zero_state, data_at, state_at, put_state,
}
use mathlib.Core.Path.{subst}
use rds.Lua.{Lua, World}
use rds.Groups.{is_set}
use rds.Groups.Custom.{type_bit, get_rds_custom_groups}
use rds.Sequence.{stream0_group, finish_group}
use rds.Common.{◌*◌, bit_or, if◌then◌else◌}
use package.rds.Api.{Api, Result, ok, raised, state_of, settings_of, change_state}
use package.rds.Api.Buffers.{put_word, lua_put_rds_custom_group}
use package.rds.Api.Valid.{IsValid, state_at-IsState}

set-set : {A : Type 0} (xs : List A) (i : ℕ) (a b : A) → set (set xs i a) i b ≡ set xs i b
set-set [] i a b = refl
set-set (x ∷ xs) zero a b = refl
set-set (x ∷ xs) (suc i) a b = ap (◌∷◌ x) (set-set xs i a b)

-- Four words of a buffer that has four places.
four_words :
    (xs : List ℕ) (m a b c : ℕ)
    → length xs ≡ 4
    → set (set (set (set xs 0 m) 1 a) 2 b) 3 c ≡ m ∷ a ∷ b ∷ c ∷ []
four_words [] m a b c e = absurd (omega arith)
four_words (x ∷ []) m a b c e = absurd (omega arith)
four_words (x ∷ y ∷ []) m a b c e = absurd (omega arith)
four_words (x ∷ y ∷ z ∷ []) m a b c e = absurd (omega arith)
four_words (x ∷ y ∷ z ∷ w ∷ []) m a b c e = refl
four_words (x ∷ y ∷ z ∷ w ∷ v ∷ xs) m a b c e = absurd (omega arith)

custom_groups_full :
    (d : RdsData) (t : RdsState) (b c e : ℕ)
    → t.custom_group ≡ 1 ∷ b ∷ c ∷ e ∷ []
    → get_rds_custom_groups d t
      ≡ some (
        record t { custom_group = 0 ∷ b ∷ c ∷ e ∷ [] },
        record { a = d.pi; b = b; c = c; d = e; is_type_b = type_bit b },
      )
unfolding get_rds_custom_groups
custom_groups_full d t b c e full = rw full refl

-- Stream 0 when the buffer of the programme on the air is full.
buffer_sent :
    (L : Lua) (signed : Bool) (stray : RdsEon) (i : L.Interp) (g : RdsGroup)
    → (enc : RdsEncoder) (b c d : ℕ) → (state_at enc enc.program).custom_group ≡ 1 ∷ b ∷ c ∷ d ∷ []
    → stream0_group L signed stray (enc, i) g ≡ (
      (
        put_state enc enc.program
            (record (state_at enc enc.program) { custom_group = 0 ∷ b ∷ c ∷ d ∷ [] }),
        i,
      ),
      record { a = (data_at enc enc.program).pi; b = b; c = c; d = d; is_type_b = type_bit b },
    )
unfolding stream0_group
buffer_sent L signed stray i g enc b c d full =
    rw
      (
        custom_groups_full (data_at enc enc.program) (state_at enc enc.program) b c d full,
        stream0_group,
      )
      refl

-- The same, where the state has just been stored.
stored_sent :
    (L : Lua) (signed : Bool) (stray : RdsEon) (i : L.Interp) (g : RdsGroup)
    → (enc : RdsEncoder) (t : RdsState) (b c d : ℕ) → t.custom_group ≡ 1 ∷ b ∷ c ∷ d ∷ []
    → (p : ℕ) → enc.program ≡ p
    → p < length enc.state
    → stream0_group L signed stray (put_state enc p t, i) g ≡ (
      (put_state enc p (record t { custom_group = 0 ∷ b ∷ c ∷ d ∷ [] }), i),
      record { a = (data_at enc p).pi; b = b; c = c; d = d; is_type_b = type_bit b },
    )
stored_sent L signed stray i g enc t b c d full p same =
    subst
      (λ p.
        p < length enc.state
        → stream0_group L signed stray (put_state enc p t, i) g ≡ (
          (put_state enc p (record t { custom_group = 0 ∷ b ∷ c ∷ d ∷ [] }), i),
          record { a = (data_at enc p).pi; b = b; c = c; d = d; is_type_b = type_bit b },
        ))
      same
      λ h.
        let q = enc.program in
        let read : get_or (set enc.state q t) q zero_state ≡ t =
          get_or-set_self enc.state q t zero_state h in
        buffer_sent L signed stray i g (put_state enc q t) b c d
          (ap (λ (u : RdsState). u.custom_group) read ∙ full)
        ∙ ap
            (λ (states : List RdsState). (
              (record enc { state = states }, i),
              record { a = (data_at enc q).pi; b = b; c = c; d = d; is_type_b = type_bit b },
            ))
            (set-set enc.state q t _
              ∙ ap
                  (λ (u : RdsState).
                    set enc.state q (record u { custom_group = 0 ∷ b ∷ c ∷ d ∷ [] }))
                  read)

module _ (s : Api) (valid : IsValid s) where
  has_state : s.writing_program < length s.encoder.state
  has_state = omega (arith, valid.writing_program, valid.encoder.states)

  -- Two changes of the state are one.
  change_state-change_state :
      (f g : RdsState → RdsState)
      → (change_state g (change_state f s).1).1 ≡ (change_state (λ t. g (f t)) s).1
  change_state-change_state f g =
      let p = s.writing_program in
      let xs = s.encoder.state in
      let t = f (get_or xs p zero_state) in
      ap (λ ys. record s { encoder = record s.encoder { state = ys } })
        (set-set xs p t (g (get_or (set xs p t) p zero_state))
          ∙ ap (λ u. set xs p (g u)) (get_or-set_self xs p t zero_state has_state))

  -- The mark and three words, one after the other.
  word_at : ℕ → ℕ → RdsState → RdsState
  word_at i w t = record t { custom_group = set t.custom_group i w }

  four_changes :
      (a b c d : ℕ)
      → let put = λ (i w : ℕ) (t : Api). (change_state (word_at i w) t).1 in
        put 3 d (put 2 c (put 1 b (put 0 a s)))
        ≡ (change_state (λ t. word_at 3 d (word_at 2 c (word_at 1 b (word_at 0 a t)))) s).1
  four_changes a b c d =
      ap (λ (t : Api). (change_state (word_at 3 d) (change_state (word_at 2 c) t).1).1)
        (change_state-change_state (word_at 0 a) (word_at 1 b))
      ∙ ap (λ (t : Api). (change_state (word_at 3 d) t).1)
          (change_state-change_state (λ t. word_at 1 b (word_at 0 a t)) (word_at 2 c))
      ∙ change_state-change_state (λ t. word_at 2 c (word_at 1 b (word_at 0 a t))) (word_at 3 d)

  length-custom_group : length (state_of s).custom_group ≡ 4
  length-custom_group = (state_at-IsState s.encoder s.writing_program valid.encoder).custom_group.0

  -- Three words are put into an empty buffer.
  put_lem :
      (b c d : ℕ)
      → is_set (get_or (state_of s).custom_group 0 0) ≡ false
      → lua_put_rds_custom_group (some b) (some c) (some d) s ≡ (
        ok tt,
        (change_state
            (λ t. record t { custom_group = 1 ∷ b % 2 ^ 16 ∷ c % 2 ^ 16 ∷ d % 2 ^ 16 ∷ [] })
            s).1,
      )
  unfolding lua_put_rds_custom_group word_at
  put_lem b c d free = rw free (
      ap (λ (t : Api). (ok tt, t))
        (four_changes 1 (b % 2 ^ 16) (c % 2 ^ 16) (d % 2 ^ 16)
          ∙ ap (λ words. (change_state (λ t. record t { custom_group = words }) s).1)
              (four_words (state_of s).custom_group 1 (b % 2 ^ 16) (c % 2 ^ 16) (d % 2 ^ 16)
                length-custom_group)))

  custom_group_chosen :
      (L : Lua) (signed : Bool) (stray : RdsEon) (i : L.Interp) (g : RdsGroup) (b c d : ℕ)
      → is_set (get_or (state_of s).custom_group 0 0) ≡ false
      → s.writing_program ≡ s.encoder.program
      → let s' = (lua_put_rds_custom_group (some b) (some c) (some d) s).1 in
        let words = b % 2 ^ 16 ∷ c % 2 ^ 16 ∷ d % 2 ^ 16 ∷ [] in
        stream0_group L signed stray (s'.encoder, i) g ≡ (
          ((change_state (λ t. record t { custom_group = 0 ∷ words }) s).1.encoder, i),
          record {
            a = (settings_of s).pi;
            b = b % 2 ^ 16;
            c = c % 2 ^ 16;
            d = d % 2 ^ 16;
            is_type_b = type_bit (b % 2 ^ 16);
          },
        )
  custom_group_chosen L signed stray i g b c d free same =
      let words = b % 2 ^ 16 ∷ c % 2 ^ 16 ∷ d % 2 ^ 16 ∷ [] in
      ap (λ (r : Result (Unit {0}) × Api). stream0_group L signed stray (r.1.encoder, i) g)
        (put_lem b c d free)
      ∙ stored_sent L signed stray i g s.encoder (record (state_of s) { custom_group = 1 ∷ words })
          (b % 2 ^ 16) (c % 2 ^ 16) (d % 2 ^ 16) refl s.writing_program (sym same) has_state

  -- Three words that a script puts into the empty buffer of the programme on the air are what
  -- `stream0_group` chooses next: it changes nothing but the mark of the buffer, which is then empty with
  -- the words in place. What `finish_group` makes of them has the PI in block A, the first word with the
  -- bits of TP and PTY added in block B, the second word in block C, or the PI where bit 11 of the first
  -- word makes it version B, and the third word in block D.
  pub lua_put_rds_custom_group_sent :
      (L : Lua) (signed : Bool) (stray : RdsEon) (i : L.Interp) (g : RdsGroup) (b c d : ℕ)
      → is_set (get_or (state_of s).custom_group 0 0) ≡ false
      → s.writing_program ≡ s.encoder.program
      → let s' = (lua_put_rds_custom_group (some b) (some c) (some d) s).1 in
        let words = b % 2 ^ 16 ∷ c % 2 ^ 16 ∷ d % 2 ^ 16 ∷ [] in
        let (w', g') = stream0_group L signed stray (s'.encoder, i) g in
        let version_b = type_bit (b % 2 ^ 16) in
        let own = settings_of s in
        (w' ≡ ((change_state (λ t. record t { custom_group = 0 ∷ words }) s).1.encoder, i))
        × ((finish_group L signed stray w'.0 g').1 ≡ record {
          a = own.pi;
          b = bit_or (bit_or (b % 2 ^ 16) (own.tp * 2 ^ 10)) (own.pty * 2 ^ 5);
          c = if is_set version_b then own.pi else c % 2 ^ 16;
          d = d % 2 ^ 16;
          is_type_b = version_b;
        })
  unfolding finish_group
  lua_put_rds_custom_group_sent L signed stray i g b c d free same =
      let chosen = custom_group_chosen L signed stray i g b c d free same in
      (
        ap (λ (r : World L × RdsGroup). r.0) chosen,
        ap (λ (r : World L × RdsGroup). (finish_group L signed stray r.0.0 r.1).1) chosen
            ∙ (rw same refl),
      )

  -- The buffer is marked full before the arguments are looked at: where the first of them is no
  -- integer, an error is raised with the mark set and the old words in place, and until the group
  -- has been sent every other call raises an error too and changes nothing.
  pub lua_put_rds_custom_group_refused :
      (arg2 arg3 : Option ℕ) (args : Option ℕ × Option ℕ × Option ℕ)
      → is_set (get_or (state_of s).custom_group 0 0) ≡ false
      → let s' = (lua_put_rds_custom_group none arg2 arg3 s).1 in
        (s' ≡ (put_word 0 1 s).1)
        × (lua_put_rds_custom_group args.0 args.1 args.2 s' ≡ (raised, s'))
  unfolding lua_put_rds_custom_group
  lua_put_rds_custom_group_refused arg2 arg3 args free =
      let xs = (state_of s).custom_group in
      let t1 = record (state_of s) { custom_group = set xs 0 1 } in
      let marked : is_set (get_or (state_of (put_word 0 1 s).1).custom_group 0 0) ≡ true =
        ap (λ (t : RdsState). is_set (get_or t.custom_group 0 0))
          (get_or-set_self s.encoder.state s.writing_program t1 zero_state has_state)
        ∙ ap is_set (get_or-set_self xs 0 1 0 (omega (arith, length-custom_group))) in
      rw free (refl, rw marked refl)
