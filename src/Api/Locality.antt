-- ===== src/Api/Locality.antt =====
-- A call that writes changes nothing but the writing programme.
use rds.Common.{ℕ, ◌%◌, ◌^◌, ◌+◌, List, false, Option, none, some}
use rds.Common.{ltb, ◌||◌, length}
use rds.Model.{RdsData, RdsState, RdsEncoder, put}
use rds.Setters.{set_rds_ptyn, set_rds_ps, set_rds_tps, set_rds_rt, set_rds_lps, set_rds_grpseq}
use package.rds.Api.{Api, pure}
use package.rds.Api.Fields.{Field, Given, set_field, set_named, bit_of}
use package.rds.Api.Fields.{pi, pty, ecc, slc_data, ct, dpty, tp, ta, rt_enabled, ptyn_enabled}
use package.rds.Api.Userdata.{write_at, lua_set_userdata, lua_set_userdata_offset}
use package.rds.Api.Text.{raw_setter, setter}
use package.rds.Api.Eon.{}
use package.rds.Api.Steps.{bind-Keeps, check-Keeps, raise_if-Keeps}
use package.rds.Api.Frame.{IsFrame, IsLocal, put_data-IsFrame, put_state-IsFrame}
use package.rds.Api.Frame.{change_settings-IsLocal}

module _ (s0 : Api) where
  abbrev P : Api → Type 0
  P s = IsFrame s0 s

  pub set_field-IsLocal : (field : Field) (v : Given) → IsLocal s0 (set_field field v)
  unfolding set_field
  set_field-IsLocal pi v =
      check-Keeps P v.as_integer _
        λ n. change_settings-IsLocal s0 (λ d. record d { pi = n % 2 ^ 16 })
  set_field-IsLocal pty v =
      check-Keeps P v.as_integer _
        λ n. change_settings-IsLocal s0 (λ d. record d { pty = n % 2 ^ 5 })
  set_field-IsLocal ecc v =
      check-Keeps P v.as_integer _
        λ n. change_settings-IsLocal s0 (λ d. record d { ecc = n % 2 ^ 8 })
  set_field-IsLocal slc_data v =
      check-Keeps P v.as_integer _
        λ n. change_settings-IsLocal s0 (λ d. record d { slc_data = n % 2 ^ 12 })
  set_field-IsLocal ct v = change_settings-IsLocal s0 (λ d. record d { ct = bit_of v.as_boolean })
  set_field-IsLocal dpty v =
      change_settings-IsLocal s0 (λ d. record d { dpty = bit_of v.as_boolean })
  set_field-IsLocal tp v = change_settings-IsLocal s0 (λ d. record d { tp = bit_of v.as_boolean })
  set_field-IsLocal ta v = change_settings-IsLocal s0 (λ d. record d { ta = bit_of v.as_boolean })
  set_field-IsLocal rt_enabled v =
      change_settings-IsLocal s0 (λ d. record d { rt_enabled = bit_of v.as_boolean })
  set_field-IsLocal ptyn_enabled v =
      change_settings-IsLocal s0 (λ d. record d { ptyn_enabled = bit_of v.as_boolean })

  pub named : (r : Option Field) (v : Given) → IsLocal s0 (set_named r v)
  named none v s h = h
  named (some field) v s h =
      bind-Keeps P (set_field field v) (λ _. pure false) (set_field-IsLocal field v) (λ _ s h. h) s
        h

  pub lua_set_userdata-IsLocal : (arg : Option (List ℕ)) → IsLocal s0 (lua_set_userdata arg)
  unfolding lua_set_userdata
  lua_set_userdata-IsLocal arg = check-Keeps P arg _ λ text.
      raise_if-Keeps P (ltb 1280 (length text)) _ λ _.
        change_settings-IsLocal s0 (λ d. record d { lua_data = write_at 0 1280 text d.lua_data })

  pub lua_set_userdata_offset-IsLocal :
      (arg1 arg2 : Option ℕ) (arg3 : Option (List ℕ))
      → IsLocal s0 (lua_set_userdata_offset arg1 arg2 arg3)
  unfolding lua_set_userdata_offset
  lua_set_userdata_offset-IsLocal arg1 arg2 arg3 = check-Keeps P arg1 _ λ n.
      check-Keeps P arg2 _ λ m. check-Keeps P arg3 _ λ text.
        raise_if-Keeps P (ltb (m % 2 ^ 16) (length text) || ltb 1280 (n % 2 ^ 16 + m % 2 ^ 16)) _
          λ _.
            change_settings-IsLocal s0
              (λ d. record d { lua_data = write_at (n % 2 ^ 16) (m % 2 ^ 16) text d.lua_data })

  -- The setters of texts.
  put-IsFrame :
      (s : Api) (r : RdsData × RdsState)
      → P s
      → P (record s { encoder = put s.encoder s.writing_program r })
  put-IsFrame s (d, t) v = put_state-IsFrame s0 _ t (put_data-IsFrame s0 s d v)

  abbrev Writes : (RdsEncoder → List ℕ → ℕ → RdsEncoder) → Type 0
  Writes store =
      (src : List ℕ) (s : Api)
      → P s
      → P (record s { encoder = store s.encoder src s.writing_program })

  pub setter-IsLocal :
      (store : RdsEncoder → List ℕ → ℕ → RdsEncoder)
      → Writes store
      → (size : ℕ) (stray : List ℕ) (arg : Option (List ℕ))
      → IsLocal s0 (setter store size stray arg)
  setter-IsLocal store h size stray arg = check-Keeps P arg _ λ str. h _

  pub raw_setter-IsLocal :
      (store : RdsEncoder → List ℕ → ℕ → RdsEncoder)
      → Writes store
      → (arg : Option (List ℕ)) → IsLocal s0 (raw_setter store arg)
  raw_setter-IsLocal store h arg = check-Keeps P arg _ λ str. h str

  pub set_rds_ps-Writes : Writes set_rds_ps
  unfolding set_rds_ps
  set_rds_ps-Writes src s = put-IsFrame s _

  pub set_rds_tps-Writes : Writes set_rds_tps
  unfolding set_rds_tps
  set_rds_tps-Writes src s = put-IsFrame s _

  pub set_rds_ptyn-Writes : Writes set_rds_ptyn
  unfolding set_rds_ptyn
  set_rds_ptyn-Writes src s = put-IsFrame s _

  pub set_rds_rt-Writes : Writes set_rds_rt
  unfolding set_rds_rt
  set_rds_rt-Writes src s = put-IsFrame s _

  pub set_rds_lps-Writes : Writes set_rds_lps
  unfolding set_rds_lps
  set_rds_lps-Writes src s = put-IsFrame s _

  pub set_rds_grpseq-Writes : Writes set_rds_grpseq
  unfolding set_rds_grpseq
  set_rds_grpseq-Writes src s = put-IsFrame s _
