-- ===== src/Setters.antt =====
-- src/rds_setters.c: the operations that store a text in the settings of a programme and mark it
-- for transmission. A C string is the list of its characters; the end of the list is its NUL.
pub mod Copy
pub mod Laws
pub mod Sizes
use rds.Common.{ℕ, zero, suc, ◌+◌, ◌/◌, ◌%◌, List, [], ◌∷◌, Bool, true, false, ◌||◌, ◌&&◌}
use rds.Common.{ltb, leb, ◌==◌, if◌then◌else◌, length, get_or, set, replicate}
use rds.Model.{RdsData, RdsState, RdsEncoder, data_at, state_at, put}
use rds.Model.{rt_length, ps_length, ptyn_length, lps_length}

-- What ends a text: NUL, or NUL and carriage return.
unfoldable pub is_nul : ℕ → Bool
is_nul c = c == 0

unfoldable pub is_line_end : ℕ → Bool
is_line_end c = c == 0x0d || c == 0

-- `while (!stop(*src) && len < limit) dest[len++] = *src++;`, with the final `len` and `dest`.
pub copy_chars : (ℕ → Bool) → ℕ → List ℕ → ℕ → List ℕ → ℕ × List ℕ
copy_chars stop limit dest len [] = (len, dest)
copy_chars stop limit dest len (c ∷ cs) =
    let rest = copy_chars stop limit (set dest len c) (len + 1) cs in
    if stop c || leb limit len then (len, dest) else rest

-- `while (len > 0 && buf[len - 1] == ' ') len--;`
pub trim_spaces : List ℕ → ℕ → ℕ
trim_spaces buf zero = 0
trim_spaces buf (suc len) = if get_or buf len 0 == 0x20 then trim_spaces buf len else suc len

-- `while (i < len) { i += 4; segments++; }` on a counter of `2 ^ w = m` values. `fuel` bounds the
-- rounds: with `len ≤ 64` there are at most 16.
pub count_segments : ℕ → ℕ → ℕ → ℕ → ℕ → ℕ
count_segments zero m i len segments = segments
count_segments (suc fuel) m i len segments =
    let rest = count_segments fuel m (i + 4) len ((segments + 1) % m) in
    if ltb i len then rest else segments

-- The end of both `set_rds_rt` and `set_rds_lps`: a text of `len < limit` characters gets a
-- carriage return, which counts for the segments; these are at most `limit / 4`.
pub end_text : ℕ → List ℕ → ℕ → List ℕ
end_text limit buf len = if ltb len limit then set buf len 0x0d else buf

pub text_segments : ℕ → ℕ → ℕ → ℕ
text_segments m limit len =
    let n = count_segments 16 m 0 (len + 1) 0 in
    if ltb len limit then (if ltb (limit / 4) n then limit / 4 else n) else limit / 4

-- `set_rds_rt`, on the settings and the state of the programme.
unfoldable pub rt_setter : RdsData → RdsState → List ℕ → RdsData × RdsState
rt_setter d s rt =
    let (copied, buf) = copy_chars is_line_end rt_length (replicate rt_length 0x20) 0 rt in
    let len = trim_spaces buf copied in
    (
      record d { rt = end_text rt_length buf len },
      record s { rt_update = 1; rt_segments = text_segments 32 rt_length len },
    )

unfoldable pub set_rds_rt : RdsEncoder → List ℕ → ℕ → RdsEncoder
unfolding rt_setter
set_rds_rt enc rt program =
    put enc program (rt_setter (data_at enc program) (state_at enc program) rt)

-- `set_rds_ps`
unfoldable pub ps_setter : RdsData → RdsState → List ℕ → RdsData × RdsState
ps_setter d s ps = (
  record d { ps = (copy_chars is_nul ps_length (replicate ps_length 0x20) 0 ps).1 },
  record s { ps_update = 1 },
)

unfoldable pub set_rds_ps : RdsEncoder → List ℕ → ℕ → RdsEncoder
unfolding ps_setter
set_rds_ps enc ps program =
    put enc program (ps_setter (data_at enc program) (state_at enc program) ps)

-- `set_rds_tps`: an empty text clears the field.
unfoldable pub tps_setter : RdsData → RdsState → List ℕ → RdsData × RdsState
tps_setter d s tps =
    let text =
      if get_or tps 0 0 == 0
      then replicate ps_length 0
      else (copy_chars is_nul ps_length (replicate ps_length 0x20) 0 tps).1 in
    (record d { tps = text }, record s { tps_update = 1 })

unfoldable pub set_rds_tps : RdsEncoder → List ℕ → ℕ → RdsEncoder
unfolding tps_setter
set_rds_tps enc tps program =
    put enc program (tps_setter (data_at enc program) (state_at enc program) tps)

-- `set_rds_lps`: an empty text clears the field and leaves the number of segments as it was.
unfoldable pub lps_setter : RdsData → RdsState → List ℕ → RdsData × RdsState
lps_setter d s lps =
    let (len, buf) = copy_chars is_line_end lps_length (replicate lps_length 0x20) 0 lps in
    if get_or lps 0 0 == 0
    then (record d { lps = replicate lps_length 0 }, record s { lps_update = 1 })
    else (
      record d { lps = end_text lps_length buf len },
      record s { lps_update = 1; lps_segments = text_segments 16 lps_length len },
    )

unfoldable pub set_rds_lps : RdsEncoder → List ℕ → ℕ → RdsEncoder
unfolding lps_setter
set_rds_lps enc lps program =
    put enc program (lps_setter (data_at enc program) (state_at enc program) lps)

-- `set_rds_ptyn`: an empty text clears the field.
unfoldable pub ptyn_setter : RdsData → RdsState → List ℕ → RdsData × RdsState
ptyn_setter d s ptyn =
    let text =
      if get_or ptyn 0 0 == 0
      then replicate ptyn_length 0
      else (copy_chars is_nul ptyn_length (replicate ptyn_length 0x20) 0 ptyn).1 in
    (record d { ptyn = text }, record s { ptyn_update = 1 })

unfoldable pub set_rds_ptyn : RdsEncoder → List ℕ → ℕ → RdsEncoder
unfolding ptyn_setter
set_rds_ptyn enc ptyn program =
    put enc program (ptyn_setter (data_at enc program) (state_at enc program) ptyn)

-- `while (len < size && len < 32) grp_sqc[len++] = *grpseq++;` with `32 - len` rounds left. The
-- source is `size` characters long.
pub copy_sequence : ℕ → List ℕ → ℕ → List ℕ → List ℕ
copy_sequence zero dest len src = dest
copy_sequence (suc n) dest len [] = dest
copy_sequence (suc n) dest len (c ∷ cs) = copy_sequence n (set dest len c) (len + 1) cs

-- `set_rds_grpseq`: the length is stored in 8 bits, whatever fits the array.
unfoldable pub set_rds_grpseq : RdsEncoder → List ℕ → ℕ → RdsEncoder
set_rds_grpseq enc grpseq program =
    let d = data_at enc program in
    put enc program (
      record d {
        grp_sqc_len = length grpseq % 256;
        grp_sqc = copy_sequence 32 (replicate 32 0) 0 grpseq;
      },
      state_at enc program,
    )
