-- ===== src/Api/Frame.antt =====
-- Which part of the encoder the calls change: the writing programme.
use rds.Common.{ℕ, ◌≡◌, ◌≢◌, refl, sym, ◌∙◌, get_or-set_ne}
use rds.Model.{RdsData, RdsState, zero_data, zero_state, data_at, state_at, put_data, put_state}
use package.rds.Api.{Api, Action, change_settings, change_state}
use package.rds.Api.Steps.{Keeps}

-- The two states agree but for the settings and the state of the writing programme.
pub record IsFrame (s s' : Api) : Type 0 where
  pub writing_program : s'.writing_program ≡ s.writing_program
  pub program : s'.encoder.program ≡ s.encoder.program
  pub streams : s'.encoder.streams ≡ s.encoder.streams
  pub settings : (p : ℕ) → p ≢ s.writing_program → data_at s'.encoder p ≡ data_at s.encoder p
  pub state : (p : ℕ) → p ≢ s.writing_program → state_at s'.encoder p ≡ state_at s.encoder p

pub same-IsFrame : (s : Api) → IsFrame s s
same-IsFrame s = record {
  writing_program = refl;
  program = refl;
  streams = refl;
  settings = λ p h. refl;
  state = λ p h. refl;
}

module _ (s0 : Api) where
  abbrev pub IsLocal : {A : Type 0} → Action A → Type 0
  IsLocal m = Keeps (IsFrame s0) m

  other :
      (s : Api) (p : ℕ)
      → s.writing_program ≡ s0.writing_program
      → p ≢ s0.writing_program
      → s.writing_program ≢ p
  other s p e h same = h (sym same ∙ e)

  pub put_data-IsFrame :
      (s : Api) (d : RdsData)
      → IsFrame s0 s
      → IsFrame s0 (record s { encoder = put_data s.encoder s.writing_program d })
  put_data-IsFrame s d v = record {
    writing_program = v.writing_program;
    program = v.program;
    streams = v.streams;
    settings = λ p h.
        get_or-set_ne s.encoder.settings s.writing_program p d zero_data
          (other s p v.writing_program h)
        ∙ v.settings p h;
    state = v.state;
  }

  pub put_state-IsFrame :
      (s : Api) (t : RdsState)
      → IsFrame s0 s
      → IsFrame s0 (record s { encoder = put_state s.encoder s.writing_program t })
  put_state-IsFrame s t v = record {
    writing_program = v.writing_program;
    program = v.program;
    streams = v.streams;
    settings = v.settings;
    state = λ p h.
        get_or-set_ne s.encoder.state s.writing_program p t zero_state
          (other s p v.writing_program h)
        ∙ v.state p h;
  }

  pub change_settings-IsLocal : (f : RdsData → RdsData) → IsLocal (change_settings f)
  change_settings-IsLocal f s v = put_data-IsFrame s (f (data_at s.encoder s.writing_program)) v

  pub change_state-IsLocal : (f : RdsState → RdsState) → IsLocal (change_state f)
  change_state-IsLocal f s v = put_state-IsFrame s (f (state_at s.encoder s.writing_program)) v
