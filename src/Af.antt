-- ===== src/Af.antt =====
-- The lists of alternative frequencies: `get_next_af` and `get_next_af_eon` of src/rds_groups.c.
pub mod Laws
pub mod Add
use rds.Common.{ℕ, ◌+◌, ◌*◌, ◌%◌, ◌^◌, ◌==◌, leb, if◌then◌else◌, get_or, bit_or}
use rds.Model.{RdsAfs, af_code_filler, af_code_num_afs_base}

-- Two codes in one block.
unfoldable pub af_pair : ℕ → ℕ → ℕ
af_pair x y = bit_or (x * 2 ^ 8) y % 2 ^ 16

-- The head of a list: how many frequencies follow, and the first code.
unfoldable pub af_head : ℕ → ℕ → ℕ
unfolding af_pair
af_head num_afs first = af_pair (af_code_num_afs_base + num_afs) first

-- `if (af_state >= num_entries) af_state = 0;`
unfoldable pub af_wrap : RdsAfs → ℕ → ℕ
af_wrap af state = if leb af.num_entries state then 0 else state

-- `get_next_af`: the block, and the new `af_state`. `afs` is read out of range at no state below
-- `num_entries ≤ max_afs - 1`.
unfoldable pub get_next_af : RdsAfs → ℕ → ℕ × ℕ
unfolding af_pair af_head af_wrap
get_next_af af state =
    let first = get_or af.afs state 0 in
    let second = get_or af.afs (state + 1) 0 in
    if af.num_afs == 0
    then (af_pair af_code_num_afs_base af_code_filler, state)
    else if state == 0
    then (af_head af.num_afs (get_or af.afs 0 0), af_wrap af ((state + 1) % 2 ^ 6))
    else (
      af_pair first (if second == 0 then af_code_filler else second),
      af_wrap af ((state + 2) % 2 ^ 6),
    )

-- `get_next_af_eon`, for the list `af` of the other network. The head announces the number `own`
-- of the programme's own frequencies, and the state moves on only behind a filler.
unfoldable pub get_next_af_eon : ℕ → RdsAfs → ℕ → ℕ × ℕ
unfolding af_pair af_head af_wrap
get_next_af_eon own af state =
    let first = get_or af.afs state 0 in
    let second = get_or af.afs (state + 1) 0 in
    if af.num_afs == 0
    then (af_pair af_code_num_afs_base af_code_filler, state)
    else if state == 0
    then (af_head own (get_or af.afs 0 0), af_wrap af ((state + 1) % 2 ^ 6))
    else if second == 0
    then (af_pair first af_code_filler, af_wrap af ((state + 2) % 2 ^ 6))
    else (af_pair first second, af_wrap af state)
