-- ===== src/Tests/Setters.antt =====
-- The text setters on short texts.
use rds.Common.{ℕ, ◌≡◌, List, [], ◌∷◌, replicate}
use rds.Model.{zero_data, zero_state}
use rds.Setters.{rt_setter, ps_setter, lps_setter, is_nul, is_line_end}
use rds.Setters.Laws.{rt_setter_lem, ps_setter_lem, lps_setter_lem}

-- "Hi  ", and "Hi" without its spaces
abbrev pub hi : List ℕ
hi = 0x48 ∷ 0x69 ∷ 0x20 ∷ 0x20 ∷ []

rt_setter_lem_example : rt_setter zero_data zero_state hi ≡ (
  record zero_data { rt = 0x48 ∷ 0x69 ∷ 0x0d ∷ replicate 61 0x20 },
  record zero_state { rt_update = 1; rt_segments = 1 },
)
unfolding is_line_end
rt_setter_lem_example = rt_setter_lem zero_data zero_state hi

ps_of_hi : ps_setter zero_data zero_state hi ≡ (
  record zero_data { ps = 0x48 ∷ 0x69 ∷ replicate 6 0x20 },
  record zero_state { ps_update = 1 },
)
unfolding is_nul
ps_of_hi = ps_setter_lem zero_data zero_state hi

lps_setter_lem_example : lps_setter zero_data zero_state hi ≡ (
  record zero_data { lps = 0x48 ∷ 0x69 ∷ 0x20 ∷ 0x20 ∷ 0x0d ∷ replicate 27 0x20 },
  record zero_state { lps_update = 1; lps_segments = 2 },
)
unfolding is_line_end
lps_setter_lem_example = lps_setter_lem zero_data zero_state hi
