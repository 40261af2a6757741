-- ===== src/Api.antt =====
-- src/lua_api.c: the functions that Lua scripts call. What the Lua library makes of an argument is
-- the parameter of each: `none` where it raises an error, as for a value of the wrong type. Errors
-- keep what was written before.
pub mod Fields
pub mod Userdata
pub mod Text
pub mod Programs
pub mod Buffers
pub mod Eon
pub mod Hooks
pub mod Valid
pub mod TextValid
pub mod Calls
pub mod Laws
pub mod BufferLaws
pub mod Steps
pub mod Preserve
pub mod Invariant
pub mod EonValid
pub mod ProgramsValid
pub mod Runs
pub mod Frame
pub mod Locality
pub mod LocalRuns
pub mod Start
pub mod HookLaws
pub mod Delivered
use rds.Common.{ℕ, Bool, true, false, Option, none, some, if◌then◌else◌}
use rds.Model.{RdsData, RdsState, RdsEncoder, data_at, state_at, put_data, put_state}

-- The encoder, and the static `writing_program`, which is the programme that the functions change.
pub record Api : Type 0 where
  pub encoder : RdsEncoder
  pub writing_program : ℕ

-- A function returns, or raises a Lua error.
pub data Result (A : Type 0) : Type 0 where
  ok : A → Result A
  raised : Result A

abbrev pub Action : Type 0 → Type 0
Action A = Api → Result A × Api

module _ {A : Type 0} where
  abbrev pub pure : A → Action A
  pure a s = (ok a, s)

  abbrev pub raise : Action A
  raise s = (raised, s)

  abbrev pub gets : (Api → A) → Action A
  gets f s = (ok (f s), s)

  -- An argument.
  abbrev pub check : Option A → Action A
  check none = raise
  check (some a) = pure a

abbrev pub go_on : {A B : Type 0} → Result A × Api → (A → Action B) → Result B × Api
go_on (ok a, s) f = f a s
go_on (raised, s) f = (raised, s)

infixl 5 ◌>>=◌ ◌>>◌
abbrev pub ◌>>=◌ : {A B : Type 0} → Action A → (A → Action B) → Action B
◌>>=◌ m f s = go_on (m s) f

abbrev pub ◌>>◌ : {A B : Type 0} → Action A → Action B → Action B
m >> k = m >>= λ _. k

abbrev pub raise_if : Bool → Action (Unit {0})
raise_if c s = (if c then raised else ok tt, s)

-- The settings and the state of the writing programme.
abbrev pub settings_of : Api → RdsData
settings_of s = data_at s.encoder s.writing_program

abbrev pub state_of : Api → RdsState
state_of s = state_at s.encoder s.writing_program

abbrev pub change_encoder : (ℕ → RdsEncoder → RdsEncoder) → Action (Unit {0})
change_encoder f s = (ok tt, record s { encoder = f s.writing_program s.encoder })

abbrev pub change_settings : (RdsData → RdsData) → Action (Unit {0})
change_settings f = change_encoder (λ p enc. put_data enc p (f (data_at enc p)))

abbrev pub change_state : (RdsState → RdsState) → Action (Unit {0})
change_state f = change_encoder (λ p enc. put_state enc p (f (state_at enc p)))
