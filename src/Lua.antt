-- ===== src/Lua.antt =====
-- src/lua_rds.c: how the encoder calls the Lua hooks. The Lua library and the scripts that it runs
-- are not modelled: they are the record `Lua`, of which nothing is assumed.
pub mod Keeps
pub mod Names
use rds.Common.{ℕ, zero, suc, ◌+◌, ◌%◌, ◌^◌, Bool, true, Option, none, some}
use rds.Common.{if◌then◌else◌}
use rds.Model.{RdsEncoder, RdsGroup}

-- The tables of `hooks` that `lua_call_tfunction` is called for.
pub data Hook : Type 0 where
  on_init on_start on_state tick minute_tick rt_transmission ps_transmission pre_tx : Hook

-- A value that a hook returns. An integer is its 64-bit pattern.
pub data LuaValue : Type 0 where
  boolean : Bool → LuaValue
  integer : ℕ → LuaValue
  other : LuaValue

-- The interpreter, with the scripts that it has loaded. A call may change the encoder through the
-- functions of src/lua_api.c. `pcall` drops the results and the error; the others give `none` for
-- an error.
pub record Lua : Type 1 where
  pub Interp : Type 0
  pub Table : Type 0
  pub Fn : Type 0
  -- `pthread_mutex_trylock(&lua_mutex) == 0`: no other thread is in the interpreter.
  pub try_lock : Interp → Bool
  -- `hooks[name]`, where both are tables; its length; an entry that is a function.
  pub hook_table : Hook → Interp → Option Table
  pub group_table : Interp → Option Table
  pub raw_len : Table → Interp → ℕ
  pub raw_get : Table → ℕ → Interp → Option Fn
  pub rds2_function : Interp → Option Fn
  pub pcall : Fn → RdsEncoder × Interp → RdsEncoder × Interp
  pub pcall_group :
      Fn
      → ℕ
      → RdsEncoder × Interp
      → Option (LuaValue × LuaValue × LuaValue × LuaValue) × (RdsEncoder × Interp)
  pub pcall_rds2 :
      Fn
      → ℕ
      → RdsEncoder × Interp
      → Option (LuaValue × LuaValue × LuaValue × LuaValue × LuaValue) × (RdsEncoder × Interp)

module _ (L : Lua) where
  -- The encoder and the interpreter, which every step passes on.
  abbrev pub World : Type 0
  World = RdsEncoder × L.Interp

  -- The loop of `lua_call_tfunction_nolock`, with `left` entries left from entry `i` on.
  unfoldable pub call_entries : L.Table → ℕ → ℕ → World → World
  call_entries t zero i w = w
  call_entries t (suc left) i w =
      call_entries t left (i + 1) (elim (L.raw_get t i w.1) [ none ↦ w | some f ↦ L.pcall f w ])

  unfoldable pub lua_call_tfunction_nolock : Hook → World → World
  unfolding call_entries
  lua_call_tfunction_nolock name w = elim (L.hook_table name w.1) [
    | none ↦ w
    | some t ↦ call_entries t (L.raw_len t w.1) 1 w
  ]

  -- A hook is skipped while another thread is in the interpreter.
  unfoldable pub lua_call_tfunction : Hook → World → World
  unfolding lua_call_tfunction_nolock
  lua_call_tfunction name w = if L.try_lock w.1 then lua_call_tfunction_nolock name w else w

  -- `lua_call_function`, with what `lua_getglobal` finds where it is a function. Nothing calls it.
  unfoldable pub lua_call_function : (L.Interp → Option L.Fn) → World → World
  lua_call_function global w =
      if L.try_lock w.1 then elim (global w.1) [ none ↦ w | some f ↦ L.pcall f w ] else w

  -- What `lua_group` takes from the four results of a hook.
  unfoldable pub group_reply :
      RdsGroup → Option (LuaValue × LuaValue × LuaValue × LuaValue) → Option RdsGroup
  group_reply g (some (boolean true, integer b, integer c, integer d)) =
      some (record g { b = b % 2 ^ 16; c = c % 2 ^ 16; d = d % 2 ^ 16 })
  group_reply g _ = none

  -- The loop of `lua_group`: the first hook that answers makes the group.
  unfoldable pub ask_entries : L.Table → ℕ → ℕ → ℕ → RdsGroup → World → Option RdsGroup × World
  ask_entries t zero i grp g w = (none, w)
  ask_entries t (suc left) i grp g w = elim (L.raw_get t i w.1) [
    | none ↦ ask_entries t left (i + 1) grp g w
    | some f ↦
        let (reply, w') = L.pcall_group f grp w in
        elim (group_reply g reply) [
          | none ↦ ask_entries t left (i + 1) grp g w'
          | some g' ↦ (some g', w')
        ]
  ]

  -- `none` is the result 0, with the group as it was.
  unfoldable pub lua_group : ℕ → RdsGroup → World → Option RdsGroup × World
  unfolding ask_entries group_reply
  lua_group grp g w = elim (L.group_table w.1) [
    | none ↦ (none, w)
    | some t ↦ ask_entries t (L.raw_len t w.1) 1 grp g w
  ]

  unfoldable pub rds2_reply :
      RdsGroup → LuaValue × LuaValue × LuaValue × LuaValue × LuaValue → Option RdsGroup
  rds2_reply g (boolean true, integer a, integer b, integer c, integer d) =
      some (record g { a = a % 2 ^ 16; b = b % 2 ^ 16; c = c % 2 ^ 16; d = d % 2 ^ 16 })
  rds2_reply g _ = none

  -- Without a function, and after an error, the result is 1 with the group as it was.
  unfoldable pub lua_rds2_group : RdsGroup → ℕ → World → Option RdsGroup × World
  unfolding rds2_reply
  lua_rds2_group g stream w = elim (L.rds2_function w.1) [
    | none ↦ (some g, w)
    | some f ↦
        let (reply, w') = L.pcall_rds2 f stream w in
        elim reply [ none ↦ (some g, w') | some values ↦ (rds2_reply g values, w') ]
  ]
