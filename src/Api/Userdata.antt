-- ===== src/Api/Userdata.antt =====
-- The user data of a programme, 1280 bytes.
use rds.Common.{ℕ, ◌+◌, ◌-◌, ◌%◌, ◌^◌, List, ◌++◌, Option, ltb, ◌||◌, length, take, drop, replicate}
use rds.Model.{lua_user_data}
use package.rds.Api.{Action, gets, check, raise_if, ◌>>=◌, ◌>>◌, settings_of, change_settings}

-- `memset(p + offset, 0, size); memcpy(p + offset, text, len);` with `len ≤ size`.
unfoldable pub write_at : ℕ → ℕ → List ℕ → List ℕ → List ℕ
write_at offset size text bytes =
    take offset bytes ++ (text ++ (replicate (size - length text) 0 ++ drop (offset + size) bytes))

unfoldable pub lua_get_userdata : Action (List ℕ)
lua_get_userdata = gets (λ s. (settings_of s).lua_data)

unfoldable pub lua_get_userdata_offset : Option ℕ → Option ℕ → Action (List ℕ)
lua_get_userdata_offset arg1 arg2 = do
  n ← check arg1
  let offset = n % 2 ^ 16
  m ← check arg2
  let size = m % 2 ^ 16
  raise_if (ltb lua_user_data (offset + size))
  gets (λ s. take size (drop offset (settings_of s).lua_data))

unfoldable pub lua_set_userdata : Option (List ℕ) → Action (Unit {0})
unfolding write_at
lua_set_userdata arg = do
  text ← check arg
  raise_if (ltb lua_user_data (length text))
  change_settings (λ d. record d { lua_data = write_at 0 lua_user_data text d.lua_data })

unfoldable pub lua_set_userdata_offset : Option ℕ → Option ℕ → Option (List ℕ) → Action (Unit {0})
unfolding write_at
lua_set_userdata_offset arg1 arg2 arg3 = do
  n ← check arg1
  let offset = n % 2 ^ 16
  m ← check arg2
  let size = m % 2 ^ 16
  text ← check arg3
  raise_if (ltb size (length text) || ltb lua_user_data (offset + size))
  change_settings (λ d. record d { lua_data = write_at offset size text d.lua_data })
