-- ===== src/Api/ProgramsValid.antt =====
-- The functions of the programmes, the streams and the single flags keep what the others rely on.
use rds.Common.{ℕ, zero, suc, ◌%◌, ◌^◌, ◌<◌, ◌≡◌, refl, arith}
use rds.Common.{Bool, Option, set, All}
use rds.Common.{if◌then◌else◌, ltb, ◌==◌, bit_xor, sym, Bool-cases, inl, inr}
use mathlib.Core.Path.{subst}
use rds.Model.{RdsData, RdsState, RdsEncoder, programs, data_at, put_data}
use package.rds.Api.{Api}
use package.rds.Api.Programs.{program_of, select_program, lua_set_rds_program, lua_set_rds_streams}
use package.rds.Api.Programs.{lua_set_rds_writing_program, lua_set_rds_link, lua_toggle_rt_ab}
use package.rds.Api.Invariant.{}
use package.rds.Api.Invariant.{}
use package.rds.Api.Valid.{IsValid, IsSettings, IsState, IsEncoder, Fits}
use package.rds.Api.Valid.{All-set, flags, with_flags, numbers}
use package.rds.Api.Valid.{data_at-IsSettings, put_data-IsEncoder}
use package.rds.Api.Preserve.{Preserves, check-Preserves, raise_if-Preserves}
use package.rds.Api.Preserve.{change_state-Preserves, change_encoder-Preserves}

-- A flag of the state, at its position in `numbers`.
flag-IsState :
    (t t' : RdsState) (i : ℕ) (n : ℕ)
    → IsState t
    → n < 2
    → numbers t' ≡ set (numbers t) i (n, 1)
    → IsState (record t' { custom_group = t.custom_group; custom_group2 = t.custom_group2 })
flag-IsState t t' i n v h e = record {
  numbers = subst (All Fits) (sym e) (All-set Fits (numbers t) i (n, 1) v.numbers h);
  custom_group = v.custom_group;
  custom_group2 = v.custom_group2;
}

toggled : (n : ℕ) → n < 2 → bit_xor n 1 < 2
toggled zero h = omega arith
toggled (suc zero) h = omega arith
toggled (suc (suc n)) h = absurd (omega arith)

pub lua_toggle_rt_ab-Preserves : Preserves lua_toggle_rt_ab
unfolding lua_toggle_rt_ab
lua_toggle_rt_ab-Preserves =
    change_state-Preserves (λ t. record t { rt_ab = bit_xor t.rt_ab 1 })
      λ t v.
        let (_, (_, (_, (ab, _)))) = v.numbers in
        flag-IsState t (record t { rt_ab = bit_xor t.rt_ab 1 }) 3 (bit_xor t.rt_ab 1) v
          (toggled t.rt_ab ab) refl

pub lua_set_rds_link-Preserves : (arg : Option Bool) → Preserves (lua_set_rds_link arg)
unfolding lua_set_rds_link
lua_set_rds_link-Preserves arg = check-Preserves arg _ λ link.
    change_state-Preserves (λ t. record t { eon_linkage = if link then 1 else 0 })
      λ t v.
        flag-IsState t (record t { eon_linkage = if link then 1 else 0 }) 8 (if link then 1 else 0)
          v (ground arith) refl

pub program_of-lt : (n : ℕ) → program_of n < programs
unfolding program_of
program_of-lt n = ground arith

pub lua_set_rds_writing_program-Preserves :
    (arg : Option ℕ) → Preserves (lua_set_rds_writing_program arg)
unfolding lua_set_rds_writing_program
lua_set_rds_writing_program-Preserves arg =
    check-Preserves arg _ λ n s v. record { encoder = v.encoder; writing_program = program_of-lt n }

pub lua_set_rds_streams-Preserves : (arg : Option ℕ) → Preserves (lua_set_rds_streams arg)
unfolding lua_set_rds_streams
lua_set_rds_streams-Preserves arg s v =
    raise_if-Preserves (ltb 4 s.encoder.streams) _
      (λ _. check-Preserves arg _ λ n.
        change_encoder-Preserves (λ p enc. record enc { streams = n % 2 ^ 3 })
          λ p enc v. record {
            programmes = v.programmes;
            settings = v.settings;
            states = v.states;
            state = v.state;
            program = v.program;
            streams = omega arith;
          })
      s v

cleared : (d : RdsData) → IsSettings d → IsSettings (record d { ta = 0 })
cleared d v =
    with_flags d (record d { ta = 0 }) v refl
      (All-set Fits (flags d) 3 (0, 1) v.flags (omega arith))

-- Both programmes, with their announcements ended.
both_cleared :
    (enc : RdsEncoder) (p : ℕ)
    → IsEncoder enc
    → let enc1 = put_data enc enc.program (record (data_at enc enc.program) { ta = 0 }) in
      IsEncoder (put_data enc1 p (record (data_at enc1 p) { ta = 0 }))
both_cleared enc p v =
    let v1 =
      put_data-IsEncoder enc enc.program _ v
        (cleared (data_at enc enc.program) (data_at-IsSettings enc enc.program v)) in
    put_data-IsEncoder _ p _ v1 (cleared _ (data_at-IsSettings _ p v1))

select_program-IsValid : (p : ℕ) (s : Api) → p < programs → IsValid s → IsValid (select_program p s)
unfolding select_program
select_program-IsValid p s h v =
    let c = both_cleared s.encoder p v.encoder in
    elim (Bool-cases (s.encoder.program == p)) [
      | inl same ↦ rw same v
      | inr other ↦ rw other (record {
        encoder = record {
          programmes = c.programmes;
          settings = c.settings;
          states = c.states;
          state = c.state;
          program = h;
          streams = c.streams;
        };
        writing_program = h;
      })
    ]

pub lua_set_rds_program-Preserves : (arg : Option ℕ) → Preserves (lua_set_rds_program arg)
unfolding lua_set_rds_program
lua_set_rds_program-Preserves arg =
    check-Preserves arg _ λ n s v. select_program-IsValid (program_of n) s (program_of-lt n) v
