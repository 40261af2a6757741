-- ===== src/Tests/Names.antt =====
-- Every function is found under its name, in the order of the tables.
use Prim.Native.String.{String}
use text.Mathlib.Text.{◌==◌}
use rds.Common.{◌≡◌, refl, List, [], ◌∷◌, map, Option, none, some, if◌then◌else◌}
use rds.Lua.Names.{CFunction, userdata_table, data_table, rds_table}

-- The function that a script finds under a name: the last one that was stored there.
find_function : String → List (String × CFunction) → Option CFunction
find_function name [] = none
find_function name ((key, f) ∷ rest) =
    let later = find_function name rest in
    elim later [ none ↦ if key == name then some f else none | some g ↦ some g ]

abbrev found : List (String × CFunction) → List (Option CFunction)
found fs = map (λ (e : String × CFunction). find_function e.0 fs) fs

abbrev listed : List (String × CFunction) → List (Option CFunction)
listed fs = map (λ (e : String × CFunction). some e.1) fs

names_apart :
    (found userdata_table.functions ≡ listed userdata_table.functions)
    × (found data_table.functions ≡ listed data_table.functions)
    × (found rds_table.functions ≡ listed rds_table.functions)
unfolding userdata_table data_table rds_table find_function
names_apart = (refl, refl, refl)
