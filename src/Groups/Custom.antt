-- ===== src/Groups/Custom.antt =====
-- Groups that Lua has put into the one-place buffers, or makes itself.
use rds.Common.{ℕ, ◌==◌, if◌then◌else◌, Option, none, some, get_or, set, bit_and}
use rds.Model.{RdsData, RdsState, RdsGroup}
use rds.Lua.{Lua, World, lua_group}
use package.rds.Groups.{is_set}

-- IS_TYPE_B(b) != 0
abbrev pub type_bit : ℕ → ℕ
type_bit b = if is_set (bit_and b 0x0800) then 1 else 0

-- `get_rds_custom_groups`; `none` is the result 0.
unfoldable pub get_rds_custom_groups : RdsData → RdsState → Option (RdsState × RdsGroup)
get_rds_custom_groups d s =
    let word = λ (i : ℕ). get_or s.custom_group i 0 in
    if word 0 == 1
    then some (
      record s { custom_group = set s.custom_group 0 0 },
      record { a = d.pi; b = word 1; c = word 2; d = word 3; is_type_b = type_bit (word 1) },
    )
    else none

-- `get_rds_custom_groups2`, for the RDS2 streams: block A comes from the buffer too.
unfoldable pub get_rds_custom_groups2 : RdsState → Option (RdsState × RdsGroup)
get_rds_custom_groups2 s =
    let word = λ (i : ℕ). get_or s.custom_group2 i 0 in
    if word 0 == 1
    then some (
      record s { custom_group2 = set s.custom_group2 0 0 },
      record {
        a = word 1;
        b = word 2;
        c = word 3;
        d = word 4;
        is_type_b = if word 1 == 0 then type_bit (word 2) else 0;
      },
    )
    else none

-- `get_rdsp_lua_group`; `none` is the result 0.
unfoldable pub get_rdsp_lua_group : (L : Lua) → RdsGroup → ℕ → World L → Option RdsGroup × World L
get_rdsp_lua_group L g grp w =
    let (reply, w') = lua_group L grp g w in
    elim reply [
      | none ↦ (none, w')
      | some g' ↦ (some (record g' { is_type_b = type_bit g'.b }), w')
    ]
