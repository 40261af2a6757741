-- ===== src/Tests/Delivery.antt =====
-- A name, a text and a reset, up to the groups.
use rds.Common.{◌≡◌, refl, [], ◌∷◌, map, arith, false}
use rds.Model.{RdsEncoder, zero_data, zero_state}
use rds.Setters.{is_nul, is_line_end, set_rds_ps, set_rds_rt}
use rds.Reset.{reset_rds_state}
use rds.Groups.{text_block}
use rds.Groups.PsCycle.{segments_sent, ps_groups}
use rds.Groups.RtCycle.{rt_segment, rt_groups}
use rds.Delivery.{set_rds_ps_delivered, set_rds_rt_delivered, reset_rds_state_delivered}
use rds.Common.{All}
use rds.Groups.Ps.{IsByte}
use package.rds.Tests.Groups.{silent, worded, name, name-IsByte, worded-IsByte}
use package.rds.Tests.Setters.{hi}
use package.rds.Tests.Sequence.{noon}

hi-IsByte : All IsByte hi
hi-IsByte = ((omega arith, (omega arith, (omega arith, (omega arith, tt)))))

set_rds_ps_delivered_run :
    segments_sent (ps_groups silent false 0 4 (set_rds_ps worded hi 0, tt))
    ≡ (0, 0x4869) ∷ (1, 0x2020) ∷ (2, 0x2020) ∷ (3, 0x2020) ∷ []
unfolding text_block is_nul
set_rds_ps_delivered_run =
    set_rds_ps_delivered silent false 0 worded hi tt
      (record { has_settings = omega arith; has_state = omega arith }) refl refl (omega arith)
      hi-IsByte

set_rds_rt_delivered_run :
    map rt_segment (rt_groups silent false 0 1 (set_rds_rt worded hi 0, tt))
    ≡ record { ab = 1; address = 0; first = 0x4869; second = 0x0d20 } ∷ []
unfolding text_block is_line_end
set_rds_rt_delivered_run =
    set_rds_rt_delivered silent false 0 worded hi tt
      (record { has_settings = omega arith; has_state = omega arith }) (omega arith) (omega arith)
      hi-IsByte

-- In the middle of a name and of a text.
abbrev running : RdsEncoder
running = record worded {
  settings =
      record zero_data {
        ps = name;
        ta = 1;
        rt = 0x48 ∷ 0x45 ∷ 0x4c ∷ 0x4c ∷ 0x4f ∷ 0x0d ∷ 0x20 ∷ 0x20 ∷ [];
        rt_enabled = 1;
      }
      ∷ [];
  state = record zero_state { ps_csegment = 2; rt_state = 1; rt_segments = 5; rt_ab = 1 } ∷ [];
}

reset_rds_state_delivered_example :
    (segments_sent (ps_groups silent false 0 4 (reset_rds_state noon running 0, tt))
      ≡ (0, 0x5244) ∷ (1, 0x5320) ∷ (2, 0x3935) ∷ (3, 0x2020) ∷ [])
    × (map rt_segment (rt_groups silent false 0 2 (reset_rds_state noon running 0, tt))
        ≡ record { ab = 0; address = 0; first = 0x4845; second = 0x4c4c }
          ∷ record { ab = 0; address = 1; first = 0x4f0d; second = 0x2020 }
          ∷ [])
unfolding text_block is_line_end
reset_rds_state_delivered_example =
    reset_rds_state_delivered silent false 0 noon running tt
      (record { has_settings = omega arith; has_state = omega arith }) (omega arith) (omega arith)
      name-IsByte worded-IsByte
