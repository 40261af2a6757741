-- ===== src/Api/Buffers.antt =====
-- The one-place buffers for groups. The mark is set before the arguments are looked at.
use rds.Common.{ℕ, ◌%◌, ◌^◌, Option, get_or, set}
use rds.Groups.{is_set}
use package.rds.Api.{Action, gets, check, raise_if, ◌>>=◌, ◌>>◌, state_of, change_state}

abbrev pub put_word : ℕ → ℕ → Action (Unit {0})
put_word i n = change_state (λ t. record t { custom_group = set t.custom_group i (n % 2 ^ 16) })

abbrev pub put_word2 : ℕ → ℕ → Action (Unit {0})
put_word2 i n = change_state (λ t. record t { custom_group2 = set t.custom_group2 i (n % 2 ^ 16) })

unfoldable pub lua_put_rds_custom_group : Option ℕ → Option ℕ → Option ℕ → Action (Unit {0})
lua_put_rds_custom_group arg1 arg2 arg3 = do
  full ← gets (λ s. is_set (get_or (state_of s).custom_group 0 0))
  raise_if full
  put_word 0 1
  b ← check arg1
  put_word 1 b
  c ← check arg2
  put_word 2 c
  d ← check arg3
  put_word 3 d

unfoldable pub lua_put_rds2_custom_group :
    Option ℕ → Option ℕ → Option ℕ → Option ℕ → Action (Unit {0})
lua_put_rds2_custom_group arg1 arg2 arg3 arg4 = do
  full ← gets (λ s. is_set (get_or (state_of s).custom_group2 0 0))
  raise_if full
  put_word2 0 1
  a ← check arg1
  put_word2 1 a
  b ← check arg2
  put_word2 2 b
  c ← check arg3
  put_word2 3 c
  d ← check arg4
  put_word2 4 d
