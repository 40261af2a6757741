-- ===== src/Lua/Keeps.antt =====
-- What every hook keeps of the encoder, the loops over the hooks keep too.
use rds.Common.{ℕ, zero, suc, ◌+◌, Bool-cases, Option-cases, inl, inr}
use rds.Model.{RdsEncoder, RdsGroup}
use package.rds.Lua.{Lua, World, Hook, call_entries, lua_call_tfunction_nolock}
use package.rds.Lua.{lua_call_tfunction, group_reply, ask_entries, lua_group, lua_rds2_group}

-- What scripts have to keep of the encoder.
pub record HooksKeep (L : Lua) (P : RdsEncoder → Type 0) : Type 0 where
  pub pcall : (f : L.Fn) (w : World L) → P w.0 → P (L.pcall f w).0
  pub pcall_group : (f : L.Fn) (grp : ℕ) (w : World L) → P w.0 → P (L.pcall_group f grp w).1.0
  pub pcall_rds2 : (f : L.Fn) (stream : ℕ) (w : World L) → P w.0 → P (L.pcall_rds2 f stream w).1.0

module _ (L : Lua) (P : RdsEncoder → Type 0) (h : HooksKeep L P) where
  call_entries-Keeps :
      (t : L.Table) (left i : ℕ) (w : World L) → P w.0 → P (call_entries L t left i w).0
  unfolding call_entries
  call_entries-Keeps t zero i w p = p
  call_entries-Keeps t (suc left) i w p = elim (Option-cases (L.raw_get t i w.1)) [
    | inl absent ↦ rw (call_entries, absent) (call_entries-Keeps t left (i + 1) w p)
    | inr (f, found) ↦
        rw (call_entries, found) (call_entries-Keeps t left (i + 1) (L.pcall f w) (h.pcall f w p))
  ]

  pub lua_call_tfunction_nolock-Keeps :
      (name : Hook) (w : World L) → P w.0 → P (lua_call_tfunction_nolock L name w).0
  unfolding lua_call_tfunction_nolock
  lua_call_tfunction_nolock-Keeps name w p = elim (Option-cases (L.hook_table name w.1)) [
    | inl absent ↦ rw (lua_call_tfunction_nolock, absent) p
    | inr (t, found) ↦
        rw (lua_call_tfunction_nolock, found) (call_entries-Keeps t (L.raw_len t w.1) 1 w p)
  ]

  pub lua_call_tfunction-Keeps :
      (name : Hook) (w : World L) → P w.0 → P (lua_call_tfunction L name w).0
  unfolding lua_call_tfunction
  lua_call_tfunction-Keeps name w p = elim (Bool-cases (L.try_lock w.1)) [
    | inl free ↦ rw free (lua_call_tfunction_nolock-Keeps name w p)
    | inr locked ↦ rw locked p
  ]

  ask_entries-Keeps :
      (t : L.Table) (left i grp : ℕ) (g : RdsGroup) (w : World L)
      → P w.0
      → P (ask_entries L t left i grp g w).1.0
  unfolding ask_entries
  ask_entries-Keeps t zero i grp g w p = p
  ask_entries-Keeps t (suc left) i grp g w p = elim (Option-cases (L.raw_get t i w.1)) [
    | inl absent ↦ rw (ask_entries, absent) (ask_entries-Keeps t left (i + 1) grp g w p)
    | inr (f, found) ↦
        let (reply, w') = L.pcall_group f grp w in
        let q : P w'.0 = h.pcall_group f grp w p in
        elim (Option-cases (group_reply L g reply)) [
          | inl refused ↦
              rw (ask_entries, found, refused) (ask_entries-Keeps t left (i + 1) grp g w' q)
          | inr (g', made) ↦ rw (ask_entries, found, made) q
        ]
  ]

  pub lua_group-Keeps : (grp : ℕ) (g : RdsGroup) (w : World L) → P w.0 → P (lua_group L grp g w).1.0
  unfolding lua_group
  lua_group-Keeps grp g w p = elim (Option-cases (L.group_table w.1)) [
    | inl absent ↦ rw (lua_group, absent) p
    | inr (t, found) ↦ rw (lua_group, found) (ask_entries-Keeps t (L.raw_len t w.1) 1 grp g w p)
  ]

  pub lua_rds2_group-Keeps :
      (g : RdsGroup) (stream : ℕ) (w : World L) → P w.0 → P (lua_rds2_group L g stream w).1.0
  unfolding lua_rds2_group
  lua_rds2_group-Keeps g stream w p = elim (Option-cases (L.rds2_function w.1)) [
    | inl absent ↦ rw (lua_rds2_group, absent) p
    | inr (f, found) ↦
        let (reply, w') = L.pcall_rds2 f stream w in
        let q : P w'.0 = h.pcall_rds2 f stream w p in
        elim (Option-cases reply) [
          | inl refused ↦ rw (lua_rds2_group, found, refused) q
          | inr (values, made) ↦ rw (lua_rds2_group, found, made) q
        ]
  ]
