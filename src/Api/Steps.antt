-- ===== src/Api/Steps.antt =====
-- A property of the state that a function keeps, whether it returns or raises an error.
use rds.Common.{Bool, true, false, Option, none, some, ◌≡◌, refl}
use package.rds.Api.{Api, Result, ok, raised, Action, check, raise_if, go_on, ◌>>=◌}

module _ (P : Api → Type 0) where
  abbrev pub Keeps : {A : Type 0} → Action A → Type 0
  Keeps m = (s : Api) → P s → P (m s).1

  go_on-Keeps :
      {A B : Type 0} (r : Result A × Api) (f : A → Action B)
      → P r.1
      → ((a : A) → Keeps (f a))
      → P (go_on r f).1
  go_on-Keeps (ok a, s) f v h = h a s v
  go_on-Keeps (raised, s) f v h = v

  pub bind-Keeps :
      {A B : Type 0} (m : Action A) (f : A → Action B)
      → Keeps m
      → ((a : A) → Keeps (f a))
      → Keeps (m >>= f)
  bind-Keeps m f hm hf s v = go_on-Keeps (m s) f (hm s v) hf

  -- An argument, and a test.
  pub check-Keeps :
      {A B : Type 0} (arg : Option A) (f : A → Action B)
      → ((a : A) → Keeps (f a))
      → Keeps (check arg >>= f)
  check-Keeps none f h s v = v
  check-Keeps (some a) f h s v = h a s v

  pub raise_if-Keeps :
      {B : Type 0} (c : Bool) (f : Unit {0} → Action B)
      → (c ≡ false → Keeps (f tt))
      → Keeps (raise_if c >>= f)
  raise_if-Keeps true f h s v = v
  raise_if-Keeps false f h s v = h refl s v
