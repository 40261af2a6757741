-- ===== src/Api/LocalRuns.antt =====
-- The remaining calls, and all of them: which part of the encoder a call changes.
use package.rds.Api.{Api}
use package.rds.Api.Frame.{IsFrame}

module _ (s0 : Api) where
  abbrev P : Api → Type 0
  P s = IsFrame s0 s
