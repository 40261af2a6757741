-- ===== src/Tests/Delivered.antt =====
-- "Š10 €" as a name and as a radiotext, from a script to the groups.
use rds.Common.{◌≡◌, refl, [], ◌∷◌, map, arith, false, some, All}
use rds.Charset.Repertoire.{utf8}
use rds.Charset.Laws.{InRepertoire}
use rds.Groups.{text_block}
use rds.Groups.PsCycle.{segments_sent, ps_groups}
use rds.Groups.RtCycle.{rt_segment, rt_groups}
use rds.Api.{Api}
use rds.Api.Text.{lua_set_rds_ps, lua_set_rds_rt}
use rds.Api.Delivered.{lua_set_rds_ps_sent, lua_set_rds_rt_sent}
use package.rds.Tests.Groups.{silent, worded}
use package.rds.Tests.Charset.{price}

abbrev writing : Api
writing = record { encoder = worded; writing_program = 0 }

price-InRepertoire : All InRepertoire price
unfolding utf8
price-InRepertoire = (
  (omega arith, λ e. cc),
  (
    (omega arith, λ e. cc),
    ((omega arith, λ e. cc), ((omega arith, λ e. cc), ((omega arith, λ e. cc), tt))),
  ),
)

lua_set_rds_ps_sent_example :
    segments_sent (
      ps_groups silent false 0 4 (
        (lua_set_rds_ps []
            (some (0xc5 ∷ 0xa0 ∷ 0x31 ∷ 0x30 ∷ 0x20 ∷ 0xe2 ∷ 0x82 ∷ 0xac ∷ []))
            writing).1.encoder,
        tt,
      ))
    ≡ (0, 0xcc31) ∷ (1, 0x3020) ∷ (2, 0xa920) ∷ (3, 0x2020) ∷ []
unfolding text_block utf8
lua_set_rds_ps_sent_example =
    lua_set_rds_ps_sent silent false 0 writing price [] tt price-InRepertoire refl
      (record { has_settings = omega arith; has_state = omega arith }) refl refl (omega arith)

lua_set_rds_rt_sent_example :
    map rt_segment (
      rt_groups silent false 0 2 (
        (lua_set_rds_rt []
            (some (0xc5 ∷ 0xa0 ∷ 0x31 ∷ 0x30 ∷ 0x20 ∷ 0xe2 ∷ 0x82 ∷ 0xac ∷ []))
            writing).1.encoder,
        tt,
      ))
    ≡ record { ab = 1; address = 0; first = 0xcc31; second = 0x3020 }
      ∷ record { ab = 1; address = 1; first = 0xa90d; second = 0x2020 }
      ∷ []
unfolding text_block utf8
lua_set_rds_rt_sent_example =
    lua_set_rds_rt_sent silent false 0 writing price [] tt price-InRepertoire
      (omega arith, (omega arith, (omega arith, (omega arith, (omega arith, tt))))) refl
      (record { has_settings = omega arith; has_state = omega arith }) (omega arith) (omega arith)
