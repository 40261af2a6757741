-- ===== src/System/Groups.antt =====
-- Every group keeps the sizes of the arrays and the widths of the fields.
use rds.Common.{ℕ, ap, sym, ◌∙◌, arith, List, Bool}
use rds.Common.{set, length-set}
use mathlib.Core.Path.{subst}
use rds.Model.{RdsState, RdsEon, state_at}
use rds.Lua.{Lua, World}
use rds.Lua.Keeps.{HooksKeep}
use rds.Groups.Clock.{Tm}
use rds.Groups.Progress.{Progress, Kept}
use rds.Sequence.{get_rds_group}
use rds.Sequence.Keeps.{GeneratorsKeep}
use rds.Sequence.ByProgress.{ProgressKeeps, progress-GeneratorsKeep}
use rds.Sequence.Whole.{ChoicesKeep, get_rds_group-Keeps}
use rds.Api.Valid.{IsEncoder, IsState, IsBuffer, IsWord, All-set}
use rds.Api.Valid.{state_at-IsState, put_state-IsEncoder}

-- A state that has progressed is still within its fields.
pub Progress-IsState : (s t : RdsState) → Progress s t → IsState s → IsState t
Progress-IsState s t p v =
    let (ps, (tps, (rt, (ab, (rt_segments, (ptyn, (lps, (lps_segments, (link, _))))))))) =
      v.numbers in
    record {
      numbers = (
        omega (arith, ps, p.ps_update),
        (
          omega (arith, tps, p.tps_update),
          (
            omega (arith, rt, p.rt_update),
            (
              omega (arith, ab, ap (λ (k : Kept). k.0) p.rest),
              (
                omega (arith, rt_segments, ap (λ (k : Kept). k.1) p.rest),
                (
                  omega (arith, ptyn, p.ptyn_update),
                  (
                    omega (arith, lps, p.lps_update),
                    (
                      omega (arith, lps_segments, ap (λ (k : Kept). k.2) p.rest),
                      (omega (arith, link, ap (λ (k : Kept). k.3) p.rest), tt),
                    ),
                  ),
                ),
              ),
            ),
          ),
        ),
      );
      custom_group = subst (IsBuffer 3) (sym (ap (λ (k : Kept). k.5) p.rest)) v.custom_group;
      custom_group2 = subst (IsBuffer 4) (sym (ap (λ (k : Kept). k.6) p.rest)) v.custom_group2;
    }

pub IsEncoder-ProgressKeeps : ProgressKeeps IsEncoder
IsEncoder-ProgressKeeps = record {
  put = λ enc s v p.
      put_state-IsEncoder enc enc.program s v
        (Progress-IsState _ s p (state_at-IsState enc enc.program v));
}

pub IsEncoder-GeneratorsKeep :
    (L : Lua) (signed : Bool) (stray : RdsEon)
    → HooksKeep L IsEncoder
    → GeneratorsKeep L signed stray IsEncoder
IsEncoder-GeneratorsKeep L signed stray h =
    progress-GeneratorsKeep L signed stray IsEncoder h IsEncoder-ProgressKeeps

-- A buffer whose mark is taken away.
unmarked : (n : ℕ) (words : List ℕ) → IsBuffer n words → IsBuffer n (set words 0 0)
unmarked n words (size, h) = (length-set words 0 0 ∙ size, All-set IsWord words 0 0 h (omega arith))

pub IsEncoder-ChoicesKeep : ChoicesKeep IsEncoder
IsEncoder-ChoicesKeep = record {
  index = λ enc n v.
      let t = state_at-IsState enc enc.program v in
      put_state-IsEncoder enc enc.program _ v (record {
        numbers = t.numbers;
        custom_group = t.custom_group;
        custom_group2 = t.custom_group2;
      });
  taken = λ enc v.
      let t = state_at-IsState enc enc.program v in
      put_state-IsEncoder enc enc.program _ v (record {
        numbers = t.numbers;
        custom_group = unmarked 3 (state_at enc enc.program).custom_group t.custom_group;
        custom_group2 = t.custom_group2;
      });
  taken2 = λ enc v.
      let t = state_at-IsState enc enc.program v in
      put_state-IsEncoder enc enc.program _ v (record {
        numbers = t.numbers;
        custom_group = t.custom_group;
        custom_group2 = unmarked 4 (state_at enc enc.program).custom_group2 t.custom_group2;
      });
}

-- Every group, for any stream and at any time, keeps the sizes of the arrays and the widths of the
-- fields, if every hook does.
pub get_rds_group-IsEncoder :
    (L : Lua) (signed : Bool) (stray : RdsEon)
    → HooksKeep L IsEncoder
    → (utc : Tm) (stream : ℕ) (w : World L) → IsEncoder w.0
    → IsEncoder (get_rds_group L signed stray utc stream w).0.0
get_rds_group-IsEncoder L signed stray h =
    get_rds_group-Keeps L signed stray IsEncoder h (IsEncoder-GeneratorsKeep L signed stray h)
      IsEncoder-ChoicesKeep
