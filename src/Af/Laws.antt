-- ===== src/Af/Laws.antt =====
-- Which blocks the lists of alternative frequencies give, call after call.
use rds.Common.{ℕ, zero, suc, ◌+◌, ◌-◌, ◌/◌, ◌%◌, ◌≤◌, ◌<◌, List, [], ◌∷◌, Bool, false}
use rds.Common.{◌≡◌, ◌≢◌, refl, ap, ap₂, ◌∙◌, arith, ◌==◌, leb, if◌then◌else◌, replicate}
use rds.Common.{get_or, inl, inr, Bool-cases}
use rds.Model.{RdsAfs, af_code_filler}
use rds.Af.{af_pair, af_head, af_wrap, get_next_af, get_next_af_eon}

-- The blocks of `n` calls, from a state on, and the state after them.
abbrev pub af_blocks : (ℕ → ℕ × ℕ) → ℕ → ℕ → List ℕ × ℕ
af_blocks next zero state = ([], state)
af_blocks next (suc n) state =
    let (block, state') = next state in
    let (blocks, last) = af_blocks next n state' in (block ∷ blocks, last)

-- The `n` codes from index `k` on, two to a block, with a filler behind an odd one.
abbrev pub af_pairs : List ℕ → ℕ → ℕ → List ℕ
af_pairs afs k zero = []
af_pairs afs k (suc zero) = af_pair (get_or afs k 0) af_code_filler ∷ []
af_pairs afs k (suc (suc n)) =
    af_pair (get_or afs k 0) (get_or afs (k + 1) 0) ∷ af_pairs afs (k + 2) n

-- A list with `n` codes in use: none of these is zero, and the place behind them is.
pub record IsAfList (af : RdsAfs) : Type 0 where
  pub some_afs : 0 < af.num_afs
  pub some_entries : 0 < af.num_entries
  pub small : af.num_entries ≤ 25
  pub used : (i : ℕ) → i < af.num_entries → get_or af.afs i 0 ≢ 0
  pub free : get_or af.afs af.num_entries 0 ≡ 0

af_blocks-cons :
    (next : ℕ → ℕ × ℕ) (c k k' m block : ℕ) (blocks : List ℕ) (last : ℕ)
    → m ≡ suc c
    → next k ≡ (block, k')
    → af_blocks next c k' ≡ (blocks, last)
    → af_blocks next m k ≡ (block ∷ blocks, last)
af_blocks-cons next c k k' m block blocks last e first rest =
    ap (λ i. af_blocks next i k) e
    ∙ ap (λ (r : ℕ × ℕ). let (bs, l) = af_blocks next c r.1 in (r.0 ∷ bs, l)) first
    ∙ ap (λ (q : List ℕ × ℕ). (block ∷ q.0, q.1)) rest

module _ (af : RdsAfs) (v : IsAfList af) where
  -- A pair inside the list, and the last pair, which may be half empty.
  af_step :
      (k n : ℕ)
      → 0 < k
      → k + n ≡ af.num_entries
      → 0 < n
      → get_next_af af k ≡ (
        af_pair (get_or af.afs k 0) (if n == 1 then af_code_filler else get_or af.afs (k + 1) 0),
        if leb n 2 then 0 else k + 2,
      )
  unfolding get_next_af
  af_step k n pos e some =
      let sent : (af.num_afs == 0) ≡ false = let p = v.some_afs in ground arith in
      let later : (k == 0) ≡ false = ground arith in
      let state : (k + 2) % 64 ≡ k + 2 = omega (arith, v.small) in
      let last : leb af.num_entries (k + 2) ≡ leb n 2 = ground arith in
      elim (Bool-cases (n == 1)) [
        | inl one ↦
            let empty : get_or af.afs (k + 1) 0 ≡ 0 =
              ap (λ (j : ℕ). get_or af.afs j 0) {x = k + 1} {y = af.num_entries} (ground arith)
              ∙ v.free in
            rw (sent, later, state, last, one, empty) refl
        | inr more ↦
            let full : (get_or af.afs (k + 1) 0 == 0) ≡ false =
              let u = v.used (k + 1) (ground arith) in ground arith in
            rw (sent, later, state, last, more, full) refl
      ]

  af_full :
      (k n : ℕ)
      → 0 < k
      → k + n ≡ af.num_entries
      → 2 < n
      → get_next_af af k ≡ (af_pair (get_or af.afs k 0) (get_or af.afs (k + 1) 0), k + 2)
  af_full k n pos e more =
      let more_than_one : (n == 1) ≡ false = ground arith in
      let more_than_two : leb n 2 ≡ false = ground arith in
      af_step k n pos e (omega arith)
      ∙ ap₂
          (λ (one two : Bool). (
            af_pair (get_or af.afs k 0) (if one then af_code_filler else get_or af.afs (k + 1) 0),
            if two then 0 else k + 2,
          ))
          more_than_one more_than_two

  head_step :
      get_next_af af 0
      ≡ (af_head af.num_afs (get_or af.afs 0 0), if leb af.num_entries 1 then 0 else 1)
  unfolding get_next_af
  head_step =
      let sent : (af.num_afs == 0) ≡ false = let p = v.some_afs in ground arith in rw sent refl

  -- The pairs from state `k` on, with `n` codes left.
  af_rest :
      (n k : ℕ)
      → 0 < k
      → k + n ≡ af.num_entries
      → 0 < n
      → af_blocks (get_next_af af) ((n + 1) / 2) k ≡ (af_pairs af.afs k n, 0)
  af_rest zero k pos e some = absurd (omega arith)
  af_rest (suc zero) k pos e some = rw (af_step k 1 pos e some) refl
  af_rest (suc (suc zero)) k pos e some = rw (af_step k 2 pos e some) refl
  af_rest (suc (suc (suc n))) k pos e some =
      let rest = af_rest (suc n) (k + 2) (omega arith) (omega arith) (omega arith) in
      af_blocks-cons _ ((suc n + 1) / 2) k (k + 2) _ _ _ 0 (omega arith)
        (af_full k (suc (suc (suc n))) pos e (omega arith)) rest

  -- A list of alternative frequencies is sent in a cycle: from state 0 on, `get_next_af` gives the
  -- head, with the number of frequencies and the first code, then the other codes in order, two to a
  -- block, with a filler behind an odd one, and is back in state 0. The list has a frequency, its
  -- codes in use are not zero, and the place behind them is.
  pub get_next_af_cycle :
      af_blocks (get_next_af af) (1 + af.num_entries / 2) 0
      ≡ (af_head af.num_afs (get_or af.afs 0 0) ∷ af_pairs af.afs 1 (af.num_entries - 1), 0)
  get_next_af_cycle = elim (Bool-cases (leb af.num_entries 1)) [
    | inl one ↦
        let n : af.num_entries ≡ 1 = let p = v.some_entries in ground arith in
        let first : get_next_af af 0 ≡ (af_head af.num_afs (get_or af.afs 0 0), 0) =
          head_step ∙ rw one refl in
        af_blocks-cons (get_next_af af) 0 0 0 (1 + af.num_entries / 2) _ [] 0 (omega (arith, n))
          first refl
        ∙ ap (λ k. (af_head af.num_afs (get_or af.afs 0 0) ∷ af_pairs af.afs 1 k, 0)) {x = 0}
            {y = af.num_entries - 1} (omega (arith, n))
    | inr more ↦
        let first : get_next_af af 0 ≡ (af_head af.num_afs (get_or af.afs 0 0), 1) =
          head_step ∙ rw more refl in
        af_blocks-cons (get_next_af af) ((af.num_entries - 1 + 1) / 2) 0 1 (1 + af.num_entries / 2)
          _ _ 0 (ground arith) first
          (af_rest (af.num_entries - 1) 1 (omega arith) (ground arith) (ground arith))
  ]

module _ (own : ℕ) (af : RdsAfs) (some_afs : af.num_afs ≢ 0) (two : 1 < af.num_entries)
    (third : get_or af.afs 2 0 ≢ 0) where
  eon_head : get_next_af_eon own af 0 ≡ (af_head own (get_or af.afs 0 0), 1)
  unfolding get_next_af_eon af_wrap
  eon_head =
      let sent : (af.num_afs == 0) ≡ false = ground arith in
      let more : leb af.num_entries 1 ≡ false = ground arith in rw (sent, more) refl

  eon_step : get_next_af_eon own af 1 ≡ (af_pair (get_or af.afs 1 0) (get_or af.afs 2 0), 1)
  unfolding get_next_af_eon af_wrap
  eon_step =
      let sent : (af.num_afs == 0) ≡ false = ground arith in
      let more : leb af.num_entries 1 ≡ false = ground arith in
      let full : (get_or af.afs 2 0 == 0) ≡ false = ground arith in rw (sent, more, full) refl

  eon_rest :
      (n : ℕ)
      → af_blocks (get_next_af_eon own af) n 1
        ≡ (replicate n (af_pair (get_or af.afs 1 0) (get_or af.afs 2 0)), 1)
  eon_rest zero = refl
  eon_rest (suc n) = af_blocks-cons _ n 1 1 (suc n) _ _ 1 refl eon_step (eon_rest n)

  -- The list of another network with at least three codes is not sent in a cycle: however often
  -- `get_next_af_eon` is called from state 0 on, it gives the head, with the number of the
  -- programme's own frequencies, and then the second and third code in every block.
  pub get_next_af_eon_stuck :
      (n : ℕ)
      → af_blocks (get_next_af_eon own af) (suc n) 0 ≡ (
        af_head own (get_or af.afs 0 0)
            ∷ replicate n (af_pair (get_or af.afs 1 0) (get_or af.afs 2 0)),
        1,
      )
  get_next_af_eon_stuck n = af_blocks-cons _ n 0 1 (suc n) _ _ 1 refl eon_head (eon_rest n)
