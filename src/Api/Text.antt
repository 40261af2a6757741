-- ===== src/Api/Text.antt =====
-- The setters of texts and of the group sequence, and the lists of alternative frequencies.
use rds.Common.{ℕ, ◌+◌, List, [], ◌∷◌, ◌++◌, Option, none, some, ltb, length}
use rds.Model.{RdsAfs, RdsEncoder, zero_afs, ps_length, rt_length, ptyn_length}
use rds.Charset.{convert_to_rdscharset}
use rds.Setters.{set_rds_ptyn, set_rds_ps, set_rds_tps, set_rds_rt, set_rds_lps, set_rds_grpseq}
use rds.Af.Add.{add_rds_af}
use package.rds.Api.{Action, gets, check, raise_if, ◌>>=◌, ◌>>◌}
use package.rds.Api.{settings_of, change_encoder, change_settings}

-- STR_RAW_SETTER
abbrev pub raw_setter : (RdsEncoder → List ℕ → ℕ → RdsEncoder) → Option (List ℕ) → Action (Unit {0})
raw_setter store arg = do str ← check arg; change_encoder (λ p enc. store enc str p)

-- STR_SETTER. The text is converted first; `stray` is the memory behind the NUL of the string.
abbrev pub setter :
    (RdsEncoder → List ℕ → ℕ → RdsEncoder) → ℕ → List ℕ → Option (List ℕ) → Action (Unit {0})
setter store buffer_size stray arg = do
  str ← check arg
  let converted = convert_to_rdscharset (str ++ (0 ∷ stray)) (buffer_size + 1)
  change_encoder (λ p enc. store enc converted p)

unfoldable pub lua_set_rds_ptyn : List ℕ → Option (List ℕ) → Action (Unit {0})
lua_set_rds_ptyn = setter set_rds_ptyn ptyn_length

unfoldable pub lua_set_rds_ptyn_raw : Option (List ℕ) → Action (Unit {0})
lua_set_rds_ptyn_raw = raw_setter set_rds_ptyn

unfoldable pub lua_set_rds_ps : List ℕ → Option (List ℕ) → Action (Unit {0})
lua_set_rds_ps = setter set_rds_ps ps_length

unfoldable pub lua_set_rds_ps_raw : Option (List ℕ) → Action (Unit {0})
lua_set_rds_ps_raw = raw_setter set_rds_ps

unfoldable pub lua_set_rds_tps : List ℕ → Option (List ℕ) → Action (Unit {0})
lua_set_rds_tps = setter set_rds_tps ps_length

unfoldable pub lua_set_rds_tps_raw : Option (List ℕ) → Action (Unit {0})
lua_set_rds_tps_raw = raw_setter set_rds_tps

unfoldable pub lua_set_rds_rt : List ℕ → Option (List ℕ) → Action (Unit {0})
lua_set_rds_rt = setter set_rds_rt rt_length

unfoldable pub lua_set_rds_rt_raw : Option (List ℕ) → Action (Unit {0})
lua_set_rds_rt_raw = raw_setter set_rds_rt

unfoldable pub lua_set_rds_lps : Option (List ℕ) → Action (Unit {0})
lua_set_rds_lps = raw_setter set_rds_lps

-- STR_RAW_GETTER
unfoldable pub lua_get_rds_lps : Action (List ℕ)
lua_get_rds_lps = gets (λ s. (settings_of s).lps)

-- STR_RAW_SETTER_LEN
unfoldable pub lua_set_rds_grp_sqc : Option (List ℕ) → Action (Unit {0})
lua_set_rds_grp_sqc arg = do str ← check arg; change_encoder (λ p enc. set_rds_grpseq enc str p)

unfoldable pub lua_get_rds_grp_sqc : Action (List ℕ)
lua_get_rds_grp_sqc = gets (λ s. (settings_of s).grp_sqc)

-- The loop over the table: an entry is a frequency, or `none` where it is no number. What
-- `add_rds_af` refuses is left out.
unfoldable pub add_frequencies : List (Option ℕ) → RdsAfs → Option RdsAfs
add_frequencies [] af = some af
add_frequencies (none ∷ entries) af = none
add_frequencies (some freq ∷ entries) af =
    add_frequencies entries (elim (add_rds_af af freq) [ none ↦ af | some af' ↦ af' ])

-- The list that a table of frequencies gives, for AF_SETTER and `lua_set_rds_eon`.
unfoldable pub af_of_table : Option (List (Option ℕ)) → Action RdsAfs
unfolding add_frequencies
af_of_table arg = do
  entries ← check arg
  raise_if (ltb 25 (length entries))
  check (add_frequencies entries zero_afs)

-- AF_SETTER
unfoldable pub lua_set_rds_af_group0 : Option (List (Option ℕ)) → Action (Unit {0})
lua_set_rds_af_group0 arg = do af ← af_of_table arg; change_settings (λ d. record d { af = af })
