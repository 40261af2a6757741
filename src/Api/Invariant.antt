-- ===== src/Api/Invariant.antt =====
-- The functions one by one, and any sequence of calls.
use rds.Common.{ℕ, ◌+◌, ◌-◌, ◌%◌, ◌^◌, ◌≤◌, ◌≡◌, refl, ◌∙◌, arith}
use rds.Common.{List, ◌++◌, Option, none, some, length, get_or, set}
use rds.Common.{length-append, length-take, length-drop, length-replicate, length-set}
use rds.Common.{ltb, ◌||◌, take, drop, replicate, Bool-cases, inl, inr}
use rds.Model.{RdsAfs, RdsData, RdsState, RdsEncoder, zero_afs, data_at, state_at, put}
use rds.Setters.{set_rds_ptyn, set_rds_ps, set_rds_tps, set_rds_rt, set_rds_lps, set_rds_grpseq}
use rds.Groups.{is_set}
use package.rds.Api.{Action, state_of, check, ◌>>=◌}
use package.rds.Api.Userdata.{write_at, lua_set_userdata, lua_set_userdata_offset}
use package.rds.Api.Text.{raw_setter, setter, af_of_table, add_frequencies, lua_set_rds_af_group0}
use package.rds.Api.Buffers.{
  put_word, put_word2, lua_put_rds_custom_group, lua_put_rds2_custom_group,
}
use package.rds.Api.Valid.{IsSettings, IsState, IsAfs, IsEncoder, IsSized, IsWord}
use package.rds.Api.Valid.{All-set, with_sizes, sizes, zero_afs-IsAfs}
use package.rds.Api.Valid.{data_at-IsSettings, state_at-IsState}
use package.rds.Api.TextValid.{
  IsPair, put-IsEncoder, ps_setter-IsPair, tps_setter-IsPair, rt_setter-IsPair,
}
use package.rds.Api.TextValid.{
  lps_setter-IsPair, ptyn_setter-IsPair, grpseq-IsSettings, add_frequencies-IsAfs, or_same,
}
use package.rds.Api.Preserve.{
  Preserves, check-Preserves, raise_if-Preserves, change_settings-Preserves,
}
use package.rds.Api.Preserve.{change_state-Preserves, change_encoder-Preserves}

pub length-write_at :
    (offset size : ℕ) (text bytes : List ℕ)
    → length text ≤ size
    → offset + size ≤ length bytes
    → length (write_at offset size text bytes) ≡ length bytes
unfolding write_at
length-write_at offset size text bytes fits room = omega (
  arith,
  length-append (take offset bytes)
      (text ++ (replicate (size - length text) 0 ++ drop (offset + size) bytes)),
  length-append text (replicate (size - length text) 0 ++ drop (offset + size) bytes),
  length-append (replicate (size - length text) 0) (drop (offset + size) bytes),
  length-replicate {A = ℕ} (size - length text) 0,
  length-take offset bytes,
  length-drop (offset + size) bytes,
)

lua_data_written :
    (offset size : ℕ) (text : List ℕ)
    → length text ≤ size
    → offset + size ≤ 1280
    → (d : RdsData) → IsSettings d
    → IsSettings (record d { lua_data = write_at offset size text d.lua_data })
lua_data_written offset size text fits room d v =
    let (_, (_, (_, (_, (_, (_, (_, (e, _)))))))) = v.sizes in
    let bytes = write_at offset size text d.lua_data in
    with_sizes d (record d { lua_data = bytes }) v refl
      (All-set IsSized (sizes d) 7 (length bytes, 1280) v.sizes
        (length-write_at offset size text d.lua_data fits (omega (arith, e)) ∙ e))

pub lua_set_userdata-Preserves : (arg : Option (List ℕ)) → Preserves (lua_set_userdata arg)
unfolding lua_set_userdata
lua_set_userdata-Preserves arg = check-Preserves arg _ λ text.
    raise_if-Preserves (ltb 1280 (length text)) _ λ small.
      change_settings-Preserves _ (lua_data_written 0 1280 text (ground arith) (omega arith))

pub lua_set_userdata_offset-Preserves :
    (arg1 arg2 : Option ℕ) (arg3 : Option (List ℕ))
    → Preserves (lua_set_userdata_offset arg1 arg2 arg3)
unfolding lua_set_userdata_offset
lua_set_userdata_offset-Preserves arg1 arg2 arg3 = check-Preserves arg1 _ λ n.
    check-Preserves arg2 _ λ m. check-Preserves arg3 _ λ text.
      raise_if-Preserves (ltb (m % 2 ^ 16) (length text) || ltb 1280 (n % 2 ^ 16 + m % 2 ^ 16)) _
        λ small.
          change_settings-Preserves _
            (lua_data_written (n % 65536) (m % 65536) text (ground arith) (ground arith))

-- The setters of texts.
store_IsEncoder :
    (store : RdsData → RdsState → List ℕ → RdsData × RdsState)
    → ((d : RdsData) (t : RdsState)
        → IsSettings d
        → IsState t
        → (src : List ℕ) → IsPair (store d t src))
    → (src : List ℕ) (p : ℕ) (enc : RdsEncoder) → IsEncoder enc
    → IsEncoder (put enc p (store (data_at enc p) (state_at enc p) src))
store_IsEncoder store h src p enc v =
    put-IsEncoder enc p _ v (h _ _ (data_at-IsSettings enc p v) (state_at-IsState enc p v) src)

-- A setter, with the conversion of the text or without it.
abbrev pub Stores : (RdsEncoder → List ℕ → ℕ → RdsEncoder) → Type 0
Stores store =
    (src : List ℕ) (p : ℕ) (enc : RdsEncoder) → IsEncoder enc → IsEncoder (store enc src p)

pub setter-Preserves :
    (store : RdsEncoder → List ℕ → ℕ → RdsEncoder)
    → Stores store
    → (size : ℕ) (stray : List ℕ) (arg : Option (List ℕ)) → Preserves (setter store size stray arg)
setter-Preserves store h size stray arg =
    check-Preserves arg _ λ str. change_encoder-Preserves _ (h _)

pub raw_setter-Preserves :
    (store : RdsEncoder → List ℕ → ℕ → RdsEncoder)
    → Stores store
    → (arg : Option (List ℕ)) → Preserves (raw_setter store arg)
raw_setter-Preserves store h arg = check-Preserves arg _ λ str. change_encoder-Preserves _ (h str)

pub set_rds_ps-Stores : Stores set_rds_ps
unfolding set_rds_ps
set_rds_ps-Stores = store_IsEncoder _ ps_setter-IsPair

pub set_rds_tps-Stores : Stores set_rds_tps
unfolding set_rds_tps
set_rds_tps-Stores = store_IsEncoder _ tps_setter-IsPair

pub set_rds_ptyn-Stores : Stores set_rds_ptyn
unfolding set_rds_ptyn
set_rds_ptyn-Stores = store_IsEncoder _ ptyn_setter-IsPair

pub set_rds_rt-Stores : Stores set_rds_rt
unfolding set_rds_rt
set_rds_rt-Stores = store_IsEncoder _ rt_setter-IsPair

pub set_rds_lps-Stores : Stores set_rds_lps
unfolding set_rds_lps
set_rds_lps-Stores = store_IsEncoder _ lps_setter-IsPair

pub set_rds_grpseq-Stores : Stores set_rds_grpseq
unfolding set_rds_grpseq
set_rds_grpseq-Stores src p enc v =
    let d = data_at-IsSettings enc p v in
    let t = state_at-IsState enc p v in put-IsEncoder enc p _ v (grpseq-IsSettings _ _ d t src, t)

frequencies :
    {B : Type 0} (r : Option RdsAfs)
    → IsAfs (or_same zero_afs r)
    → (f : RdsAfs → Action B) → ((af : RdsAfs) → IsAfs af → Preserves (f af))
    → Preserves (check r >>= f)
frequencies none a f h s v = v
frequencies (some af) a f h s v = h af a s v

-- A table of frequencies that is refused leaves the list as it was.
pub af_of_table-Preserves :
    {B : Type 0} (arg : Option (List (Option ℕ))) (f : RdsAfs → Action B)
    → ((af : RdsAfs) → IsAfs af → Preserves (f af))
    → Preserves (af_of_table arg >>= f)
unfolding af_of_table
af_of_table-Preserves none f h s v = v
af_of_table-Preserves (some entries) f h s v = elim (Bool-cases (ltb 25 (length entries))) [
  | inl long ↦ rw long v
  | inr short ↦ rw short (
      frequencies (add_frequencies entries zero_afs)
        (add_frequencies-IsAfs zero_afs entries zero_afs zero_afs-IsAfs zero_afs-IsAfs) f h s v)
]

pub lua_set_rds_af_group0-Preserves :
    (arg : Option (List (Option ℕ))) → Preserves (lua_set_rds_af_group0 arg)
unfolding lua_set_rds_af_group0
lua_set_rds_af_group0-Preserves arg = af_of_table-Preserves arg _ λ af h.
    change_settings-Preserves (λ d. record d { af = af })
      λ d v. record { integers = v.integers; flags = v.flags; sizes = v.sizes; af = h; eon = v.eon }

put_word-Preserves : (i n : ℕ) → Preserves (put_word i n)
put_word-Preserves i n =
    change_state-Preserves (λ t. record t { custom_group = set t.custom_group i (n % 2 ^ 16) })
      λ t v. record {
        numbers = v.numbers;
        custom_group = (
          length-set t.custom_group i (n % 2 ^ 16) ∙ v.custom_group.0,
          All-set IsWord t.custom_group i (n % 2 ^ 16) v.custom_group.1 (omega arith),
        );
        custom_group2 = v.custom_group2;
      }

pub lua_put_rds_custom_group-Preserves :
    (arg1 arg2 arg3 : Option ℕ) → Preserves (lua_put_rds_custom_group arg1 arg2 arg3)
unfolding lua_put_rds_custom_group
lua_put_rds_custom_group-Preserves arg1 arg2 arg3 s v =
    raise_if-Preserves (is_set (get_or (state_of s).custom_group 0 0)) _
      (λ free s v.
        check-Preserves arg1 _
          (λ n s v.
            check-Preserves arg2 _
              (λ n s v.
                check-Preserves arg3 _ (λ n s v. put_word-Preserves 3 n s v) _
                  (put_word-Preserves 2 n s v))
              _ (put_word-Preserves 1 n s v))
          _ (put_word-Preserves 0 1 s v))
      s v

put_word2-Preserves : (i n : ℕ) → Preserves (put_word2 i n)
put_word2-Preserves i n =
    change_state-Preserves (λ t. record t { custom_group2 = set t.custom_group2 i (n % 2 ^ 16) })
      λ t v. record {
        numbers = v.numbers;
        custom_group2 = (
          length-set t.custom_group2 i (n % 2 ^ 16) ∙ v.custom_group2.0,
          All-set IsWord t.custom_group2 i (n % 2 ^ 16) v.custom_group2.1 (omega arith),
        );
        custom_group = v.custom_group;
      }

pub lua_put_rds2_custom_group-Preserves :
    (arg1 arg2 arg3 arg4 : Option ℕ) → Preserves (lua_put_rds2_custom_group arg1 arg2 arg3 arg4)
unfolding lua_put_rds2_custom_group
lua_put_rds2_custom_group-Preserves arg1 arg2 arg3 arg4 s v =
    raise_if-Preserves (is_set (get_or (state_of s).custom_group2 0 0)) _
      (λ free s v.
        check-Preserves arg1 _
          (λ n s v.
            check-Preserves arg2 _
              (λ n s v.
                check-Preserves arg3 _
                  (λ n s v.
                    check-Preserves arg4 _ (λ n s v. put_word2-Preserves 4 n s v) _
                      (put_word2-Preserves 3 n s v))
                  _ (put_word2-Preserves 2 n s v))
              _ (put_word2-Preserves 1 n s v))
          _ (put_word2-Preserves 0 1 s v))
      s v
