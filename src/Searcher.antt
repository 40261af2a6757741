-- ===== src/Searcher.antt =====
-- `my_searcher` of src/lua_rds.c: the file of a Lua module.
use rds.Common.{none-some}
use rds.Common.{ℕ, suc, ◌+◌, ◌≤◌, ◌<◌, ◌≡◌, refl, ap, ◌∙◌, arith, List, [], ◌∷◌, ◌++◌, Bool, not}
use rds.Common.{
  Option, none, some, if◌then◌else◌, leb, ◌==◌, length, map, length-append, Bool-cases, inl, inr,
}
use mathlib.Core.Option.{some-injective}

-- "/etc/rds95/" and ".lua"
abbrev pub prefix : List ℕ
prefix = 0x2f ∷ 0x65 ∷ 0x74 ∷ 0x63 ∷ 0x2f ∷ 0x72 ∷ 0x64 ∷ 0x73 ∷ 0x39 ∷ 0x35 ∷ 0x2f ∷ []

abbrev pub suffix : List ℕ
suffix = 0x2e ∷ 0x6c ∷ 0x75 ∷ 0x61 ∷ []

-- A point of the name is a slash of the path.
unfoldable pub path_char : ℕ → ℕ
path_char c = if c == 0x2e then 0x2f else c

-- `none` is a name that is too long for `path`.
unfoldable pub module_path : List ℕ → Option (List ℕ)
unfolding path_char
module_path name =
    if leb 512 (length prefix + length name + 4)
    then none
    else some (prefix ++ (map path_char name ++ suffix))

-- What the searcher leaves on the stack: the loaded chunk, or one of its three messages.
pub data Found : Type 0 where
  too_long : Found
  no_file error_loading chunk : List ℕ → Found

-- `opens` and `loads` are the answers of `fopen` and `luaL_loadfile` for a path.
unfoldable pub my_searcher : (List ℕ → Bool) → (List ℕ → Bool) → List ℕ → Found
unfolding module_path
my_searcher opens loads name = elim (module_path name) [
  | none ↦ too_long
  | some path ↦
      if not (opens path)
      then no_file path
      else if loads path
      then chunk path
      else error_loading path
]

length-map : (f : ℕ → ℕ) (xs : List ℕ) → length (map f xs) ≡ length xs
length-map f [] = refl
length-map f (x ∷ xs) = ap suc (length-map f xs)

-- The path of a module and the NUL behind it fit the 512 characters of `path`.
pub module_path_fits : (name path : List ℕ) → module_path name ≡ some path → length path + 1 ≤ 512
unfolding module_path
module_path_fits name path e = elim (Bool-cases (leb 512 (length prefix + length name + 4))) [
  | inl long ↦ absurd (none-some (simp long at e))
  | inr short ↦
      let same : prefix ++ (map path_char name ++ suffix) ≡ path =
        some-injective _ path (simp short at e) in
      let size : length (map path_char name ++ suffix) ≡ length name + 4 =
        length-append (map path_char name) suffix ∙ ap (λ n. n + 4) (length-map path_char name) in
      let fits : length name < 497 = ground arith in omega (arith, ap length same, size)
]
