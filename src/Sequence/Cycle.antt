-- ===== src/Sequence/Cycle.antt =====
-- The group sequence as a cycle: which kind of group each call on stream 0 makes.
use rds.Common.{
  ℕ, zero, suc, ◌+◌, ◌-◌, ◌*◌, ◌/◌, ◌≤◌, leb, ◌%◌, ◌^◌, ◌<◌, ◌≡◌, ◌≢◌, refl, sym, ap, ◌∙◌, arith,
  List, length, get_or, set, Bool,
}
use rds.Common.{false, ltb, ◌==◌, if◌then◌else◌, Bool-cases, inl, inr, get_or-set_self, length-set}
use native.Mathlib.Nat.{
  div-add-mod, mul-add-mod_self_left, add-mod_right, suc-mod, mod_self, mod-eq_of_lt, mod-lt,
}
use rds.Model.{
  RdsData, RdsState, RdsEon, RdsEncoder, RdsGroup, data_at, state_at, put_state, zero_state,
}
use rds.Lua.{Lua, World}
use rds.Lua.Keeps.{HooksKeep}
use rds.Groups.Custom.{get_rds_custom_groups}
use rds.Groups.Progress.{Kept}
use package.rds.Sequence.{stream0_group, finish_group, get_rds_sequence_group, check_rds_good_group}
use package.rds.Sequence.ByProgress.{ProgressKeeps, progress-GeneratorsKeep}
use package.rds.Sequence.Keeps.{get_rds_sequence_group-Keeps, finish_group-Keeps}

-- The entry that a stored index stands for; the one that a call has used is followed by the next.
place : ℕ → ℕ → ℕ
place len index = if ltb len index then 0 else index

next_place :
    (len index : ℕ)
    → len < 256
    → place len ((place len index + 1) % 256)
      ≡ (if place len index == len then 0 else place len index + 1)
unfolding place
next_place len index h = ground arith

first_place : (len : ℕ) → place len 0 ≡ 0 % suc len
unfolding place
first_place len = ground arith

next_turn : (len n : ℕ) → suc n % suc len ≡ (if n % suc len == len then 0 else n % suc len + 1)
next_turn len n =
    let below : n % suc len < suc len = mod-lt n (omega arith) in
    let at : suc n % suc len ≡ suc (n % suc len) % suc len = suc-mod n (suc len) in
    elim (Bool-cases (n % suc len == len)) [
      | inl last ↦
          let e : n % suc len ≡ len = ground arith in
          rw last (at ∙ ap (λ k. suc k % suc len) e ∙ mod_self (suc len))
      | inr before ↦
          let less : suc (n % suc len) < suc len = ground arith in
          rw before (at ∙ mod-eq_of_lt less ∙ omega arith)
    ]

-- From any turn on, every entry comes within one round.
turn_of : (len n e : ℕ) → e ≤ len → (m : ℕ) × (m ≤ len) × ((n + m) % suc len ≡ e)
turn_of len n e h =
    let q = n / suc len in
    let r = n % suc len in
    let split : suc len * q + r ≡ n = div-add-mod n (suc len) in
    let below : r < suc len = mod-lt n (omega arith) in
    let small : e % suc len ≡ e = mod-eq_of_lt (omega arith) in
    elim (Bool-cases (leb r e)) [
      | inl ahead ↦
          let up : r ≤ e = ground arith in
          let total : n + (e - r) ≡ suc len * q + e = omega (arith, split, up) in
          (
            e - r,
            omega arith,
            ap (λ k. k % suc len) total ∙ mul-add-mod_self_left (suc len) q e ∙ small,
          )
      | inr behind ↦
          let down : e < r = ground arith in
          let total : n + (e + suc len - r) ≡ suc len * q + (e + suc len) =
            omega (arith, split, down, below) in
          (
            e + suc len - r,
            omega (arith, down),
            ap (λ k. k % suc len) total
                ∙ mul-add-mod_self_left (suc len) q (e + suc len)
                ∙ add-mod_right e (suc len)
                ∙ small,
          )
    ]

-- The programme `p` is on the air with the settings `d` and no buffered group, at the stored index `k`.
pub record AtEntry (p : ℕ) (d : RdsData) (k : ℕ) (enc : RdsEncoder) : Type 0 where
  pub programme : enc.program ≡ p
  pub in_range : p < length enc.state
  pub settings : data_at enc p ≡ d
  pub index : (state_at enc p).grp_seq_idx ≡ k
  pub buffer : get_or (state_at enc p).custom_group 0 0 ≢ 1

module _ (p : ℕ) (d : RdsData) where
  put-AtEntry :
      (enc : RdsEncoder) (s : RdsState) (k k' : ℕ)
      → AtEntry p d k enc
      → s.grp_seq_idx ≡ k'
      → s.custom_group ≡ (state_at enc p).custom_group
      → AtEntry p d k' (put_state enc enc.program s)
  put-AtEntry enc s k k' a index buffer =
      let at : state_at (put_state enc enc.program s) p ≡ s =
        ap (λ (q : ℕ). get_or (set enc.state q s) p zero_state) a.programme
        ∙ get_or-set_self enc.state p s zero_state a.in_range in
      record {
        programme = a.programme;
        in_range = omega (arith, a.in_range, length-set enc.state enc.program s);
        settings = a.settings;
        index = ap (λ (t : RdsState). t.grp_seq_idx) at ∙ index;
        buffer = λ e. a.buffer (
            ap (λ (words : List ℕ). get_or words 0 0)
              (sym (ap (λ (t : RdsState). t.custom_group) at ∙ buffer))
            ∙ e);
      }

  AtEntry-ProgressKeeps : (k : ℕ) → ProgressKeeps (AtEntry p d k)
  AtEntry-ProgressKeeps k = record {
    put = λ enc s a progress.
        let same : state_at enc enc.program ≡ state_at enc p =
          ap (λ (q : ℕ). state_at enc q) a.programme in
        put-AtEntry enc s k k a
          (ap (λ (q : Kept). q.4) progress.rest
            ∙ ap (λ (t : RdsState). t.grp_seq_idx) same
            ∙ a.index)
          (ap (λ (q : Kept). q.5) progress.rest ∙ ap (λ (t : RdsState). t.custom_group) same);
  }

module _ (L : Lua) (signed : Bool) (stray : RdsEon) where
  -- A group of stream 0 is made and finished; `n` of them.
  abbrev pub stream0_step : RdsGroup → World L → World L
  stream0_step g w =
      let (w', made) = stream0_group L signed stray w g in
      ((finish_group L signed stray w'.0 made).0, w'.1)

  pub stream0_steps : RdsGroup → ℕ → World L → World L
  stream0_steps g zero w = w
  stream0_steps g (suc n) w = stream0_step g (stream0_steps g n w)

  -- The encoder with another stored index.
  abbrev pub at_index : ℕ → World L → World L
  at_index k w =
      (put_state w.0 w.0.program (record (state_at w.0 w.0.program) { grp_seq_idx = k }), w.1)

  -- The kind `entry` of the sequence, or else what is sent in its place.
  abbrev pub entry_group : RdsData → ℕ → World L → RdsGroup → World L × RdsGroup
  entry_group d entry w g =
      let kind = get_or d.grp_sqc entry 0 in
      get_rds_sequence_group L signed stray (check_rds_good_group d kind) kind
        (at_index ((entry + 1) % 2 ^ 8) w) g

  module _ (p : ℕ) (d : RdsData) where
    stream0_group_entry :
        (k : ℕ) (w : World L) (g : RdsGroup)
        → AtEntry p d k w.0
        → stream0_group L signed stray w g ≡ entry_group d (place d.grp_sqc_len k) w g
    unfolding stream0_group get_rds_custom_groups place
    stream0_group_entry k w g a =
        let s = state_at w.0 w.0.program in
        let same : s ≡ state_at w.0 p = ap (λ (q : ℕ). state_at w.0 q) a.programme in
        let settings : data_at w.0 w.0.program ≡ d =
          ap (λ (q : ℕ). data_at w.0 q) a.programme ∙ a.settings in
        let index : s.grp_seq_idx ≡ k = ap (λ (t : RdsState). t.grp_seq_idx) same ∙ a.index in
        let word : get_or s.custom_group 0 0 ≡ get_or (state_at w.0 p).custom_group 0 0 =
          ap (λ (t : RdsState). get_or t.custom_group 0 0) same in
        let empty : (get_or s.custom_group 0 0 == 1) ≡ false = let b = a.buffer in ground arith in
        rw (stream0_group, get_rds_custom_groups, empty, settings, index) refl

    module _ (h : (k : ℕ) → HooksKeep L (AtEntry p d k)) where
      -- A group takes the stored index on by one, whatever was sent in place of the entry.
      entry_kept :
          (k : ℕ) (w : World L) (g : RdsGroup)
          → AtEntry p d k w.0
          → AtEntry p d ((place d.grp_sqc_len k + 1) % 2 ^ 8) (stream0_step g w).0
      entry_kept k w g a =
          let k' = (place d.grp_sqc_len k + 1) % 2 ^ 8 in
          let keeps =
            progress-GeneratorsKeep L signed stray (AtEntry p d k') (h k')
              (AtEntry-ProgressKeeps p d k') in
          let same : state_at w.0 w.0.program ≡ state_at w.0 p =
            ap (λ (q : ℕ). state_at w.0 q) a.programme in
          let set_up =
            put-AtEntry p d w.0 _ k k' a refl (ap (λ (t : RdsState). t.custom_group) same) in
          rw (stream0_group_entry k w g a) (
            finish_group-Keeps L signed stray (AtEntry p d k') (h k') keeps _ _ (
              get_rds_sequence_group-Keeps L signed stray (AtEntry p d k') (h k') keeps _ _ _ g
                set_up))

      -- The index that is stored after `n` groups stands for the entry `n`, counted around.
      entry_after :
          (n : ℕ) (w : World L) (g : RdsGroup)
          → d.grp_sqc_len < 256
          → AtEntry p d 0 w.0
          → (k : ℕ) × (AtEntry p d k (stream0_steps g n w).0)
            × (place d.grp_sqc_len k ≡ n % suc d.grp_sqc_len)
      unfolding stream0_steps
      entry_after zero w g small a = (0, a, first_place d.grp_sqc_len)
      entry_after (suc n) w g small a =
          let (k, at, e) = entry_after n w g small a in
          (
            (place d.grp_sqc_len k + 1) % 2 ^ 8,
            entry_kept k (stream0_steps g n w) g at,
            next_place d.grp_sqc_len k small
                ∙ ap (λ (q : ℕ). if q == d.grp_sqc_len then 0 else q + 1) e
                ∙ sym (next_turn d.grp_sqc_len n),
          )

      -- The group sequence is a cycle of `grp_sqc_len + 1` entries: the group behind `n` others is the
      -- one of the entry `n` modulo `grp_sqc_len + 1`, or what is sent where there is nothing of its
      -- kind to send. It starts at the first entry, no group is buffered, and the hooks leave the
      -- programme on the air, its settings, its place in the sequence and its buffer alone.
      pub stream0_group_cycle :
          (n : ℕ) (w : World L) (g : RdsGroup)
          → d.grp_sqc_len < 256
          → AtEntry p d 0 w.0
          → let w' = stream0_steps g n w in
            stream0_group L signed stray w' g ≡ entry_group d (n % suc d.grp_sqc_len) w' g
      stream0_group_cycle n w g small a =
          let (k, at, e) = entry_after n w g small a in
          stream0_group_entry k (stream0_steps g n w) g at
          ∙ ap (λ q. entry_group d q (stream0_steps g n w) g) e

      -- No entry of the sequence starves: after any number of groups, each of the entries up to
      -- `grp_sqc_len` gets its turn within the next `grp_sqc_len + 1` groups, under the conditions of
      -- the cycle.
      pub entry_served :
          (n e : ℕ) (w : World L) (g : RdsGroup)
          → e ≤ d.grp_sqc_len
          → d.grp_sqc_len < 256
          → AtEntry p d 0 w.0
          → (m : ℕ) × (m ≤ d.grp_sqc_len)
            × (let w' = stream0_steps g (n + m) w in
                stream0_group L signed stray w' g ≡ entry_group d e w' g)
      entry_served n e w g h small a =
          let (m, within, turn) = turn_of d.grp_sqc_len n e h in
          (
            m,
            within,
            stream0_group_cycle (n + m) w g small a
                ∙ ap (λ q. entry_group d q (stream0_steps g (n + m) w) g) turn,
          )
