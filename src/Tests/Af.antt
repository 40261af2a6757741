-- ===== src/Tests/Af.antt =====
-- A list of five frequencies.
use rds.Common.{ℕ, zero, suc, ◌≡◌, ◌≢◌, ◌<◌, refl, [], ◌∷◌, ◌++◌, arith, replicate, get_or, ◌*◌}
use rds.Model.{RdsAfs}
use rds.Af.{af_pair, af_head, get_next_af, get_next_af_eon}
use rds.Common.{some}
use rds.Af.Add.{
  unit, channel_float, add_rds_af, af_code, fmul10, add_rds_af_channel, add_rds_af_overflow,
}
use rds.Af.Laws.{IsAfList, af_blocks, get_next_af_cycle, get_next_af_eon_stuck}

abbrev five : RdsAfs
five = record {
  num_entries = 5;
  num_afs = 5;
  afs = (10 ∷ 20 ∷ 30 ∷ 40 ∷ 50 ∷ []) ++ replicate 20 0;
}

five-used : (i : ℕ) → i < 5 → get_or five.afs i 0 ≢ 0
five-used zero h = omega arith
five-used (suc zero) h = omega arith
five-used (suc (suc zero)) h = omega arith
five-used (suc (suc (suc zero))) h = omega arith
five-used (suc (suc (suc (suc zero)))) h = omega arith
five-used (suc (suc (suc (suc (suc i))))) h = absurd (omega arith)

five-IsAfList : IsAfList five
five-IsAfList = record {
  some_afs = omega arith;
  some_entries = omega arith;
  small = omega arith;
  used = five-used;
  free = refl;
}

get_next_af_cycle_example : af_blocks (get_next_af five) 3 0 ≡ (0xe50a ∷ 0x141e ∷ 0x2832 ∷ [], 0)
unfolding af_pair af_head
get_next_af_cycle_example = get_next_af_cycle five five-IsAfList

get_next_af_eon_stuck_run :
    af_blocks (get_next_af_eon 2 five) 4 0 ≡ (0xe20a ∷ 0x141e ∷ 0x141e ∷ 0x141e ∷ [], 1)
unfolding af_pair af_head
get_next_af_eon_stuck_run = get_next_af_eon_stuck 2 five (omega arith) (omega arith) (omega arith) 3

add_rds_af_channel_example :
    add_rds_af five (channel_float 1001)
    ≡ some (record {
      num_entries = 6;
      num_afs = 6;
      afs = (10 ∷ 20 ∷ 30 ∷ 40 ∷ 50 ∷ 126 ∷ []) ++ replicate 19 0;
    })
add_rds_af_channel_example =
    add_rds_af_channel five 1001 (omega arith) (omega arith) (omega arith) (omega arith)

-- 531 kHz, behind its mark.
medium_wave :
    add_rds_af five (531 * unit)
    ≡ some (record {
      num_entries = 7;
      num_afs = 6;
      afs = (10 ∷ 20 ∷ 30 ∷ 40 ∷ 50 ∷ 250 ∷ 16 ∷ []) ++ replicate 18 0;
    })
unfolding add_rds_af af_code fmul10
medium_wave = refl

-- Thirteen frequencies on long wave.
abbrev thirteen : RdsAfs
thirteen = record { num_entries = 26; num_afs = 13; afs = replicate 25 250 }

add_rds_af_overflow_example :
    add_rds_af thirteen (162 * unit) ≡ some (record thirteen { num_entries = 28; num_afs = 14 })
add_rds_af_overflow_example =
    add_rds_af_overflow thirteen (162 * unit) (omega arith) (omega arith) refl (omega arith)
      (omega arith) (omega arith)
