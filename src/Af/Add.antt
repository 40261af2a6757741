-- ===== src/Af/Add.antt =====
-- `add_rds_af` of src/lib.c: the code of a frequency goes to the end of a list.
use rds.Common.{ℕ, ◌+◌, ◌-◌, ◌*◌, ◌/◌, ◌%◌, ◌^◌, ◌≤◌, ◌<◌, Bool, true, false, ◌&&◌, ◌||◌}
use rds.Common.{◌≡◌, refl, sym, ap, ◌∙◌, arith, ◌==◌, leb, ltb, if◌then◌else◌, length, set, List}
use rds.Common.{
  Option, set_outside, length-set, none, some, Bool-cases, inl, inr, all_below, all_below_sound,
  ==_iff,
}
use rds.Model.{RdsAfs, max_afs, af_code_lfmf_follows}

-- A frequency is a `float`, in MHz or in kHz. It is modelled as the number of units of `2 ^ -17`: from
-- 64 on every `float` is a whole number of them, and what is below 87.6 is refused alike.
abbrev pub unit : ℕ
unit = 131072

-- The constants `87.6f` and `107.9f`.
abbrev pub fm_low : ℕ
fm_low = 11481907

abbrev pub fm_high : ℕ
fm_high = 14142669

-- A number rounded to a multiple of `m`, half to even.
abbrev pub round_even : ℕ → ℕ → ℕ
round_even m p =
    let q = p / m in
    if ltb (p % m * 2) m || ((p % m * 2 == m) && (q % 2 == 0)) then q * m else (q + 1) * m

-- `(uint16_t)(freq * 10.0f)`: the product has 24 digits, so below 1024 it is a multiple of 8 units,
-- and above of 16.
unfoldable pub fmul10 : ℕ → ℕ
fmul10 freq = let p = freq * 10 in round_even (if ltb p (2 ^ 27) then 8 else 16) p / unit

-- The code of one entry, or of the second of two, behind the mark of long and medium waves; `none`
-- is a frequency outside the bands. The differences `freq - 153.0f` and `freq - 531.0f` are exact.
unfoldable pub af_code : ℕ → Option (Bool × ℕ)
unfolding fmul10
af_code freq =
    if leb fm_low freq && leb freq fm_high
    then some (false, fmul10 freq - 875)
    else if leb (153 * unit) freq && leb freq (279 * unit)
    then some (true, (freq - 153 * unit) / unit / 9 + 1)
    else if leb (531 * unit) freq && leb freq (1602 * unit)
    then some (true, (freq - 531 * unit) / unit / 9 + 16)
    else none

-- `none` is the result 1, with the list as it was. A write past the end of `afs` changes nothing here.
unfoldable pub add_rds_af : RdsAfs → ℕ → Option RdsAfs
unfolding af_code
add_rds_af af freq =
    let entries_reqd = if ltb freq fm_low || ltb fm_high freq then 2 else 1 in
    let n = af.num_entries in
    let counted : List ℕ → RdsAfs = λ afs. record {
      num_entries = (n + entries_reqd) % 2 ^ 6;
      num_afs = (af.num_afs + 1) % 2 ^ 5;
      afs = afs;
    } in
    if ltb max_afs (af.num_afs + entries_reqd) then none else elim (af_code freq) [
      | none ↦ none
      | some (false, code) ↦ some (counted (set af.afs n (code % 2 ^ 8)))
      | some (true, code) ↦
          some (counted (set (set af.afs n af_code_lfmf_follows) (n + 1) (code % 2 ^ 8)))
    ]

-- The `float` nearest to `channel / 10`.
abbrev pub channel_float : ℕ → ℕ
channel_float channel = (channel * unit + 5) / 10

channel_table : all_below 204 (λ k. fmul10 (channel_float (876 + k)) == 876 + k) ≡ true
unfolding all_below fmul10
channel_table = refl

fmul10-channel_float :
    (channel : ℕ) → 876 ≤ channel → channel ≤ 1079 → fmul10 (channel_float channel) ≡ channel
fmul10-channel_float channel low high =
    let same : 876 + (channel - 876) ≡ channel = omega arith in
    ap (λ c. fmul10 (channel_float c)) (sym same)
    ∙ (==_iff _ _).0 (all_below_sound 204 (channel - 876) _ channel_table (omega arith))
    ∙ same

af_code-channel_float :
    (channel : ℕ)
    → 876 ≤ channel
    → channel ≤ 1079
    → af_code (channel_float channel) ≡ some (false, channel - 875)
unfolding af_code
af_code-channel_float channel low high =
    let above : leb fm_low (channel_float channel) ≡ true = ground arith in
    let below : leb (channel_float channel) fm_high ≡ true = ground arith in
    rw (above, below) (ap (λ c. some (false, c - 875)) (fmul10-channel_float channel low high))

af_code_long_wave :
    (freq : ℕ)
    → 153 * unit ≤ freq
    → freq ≤ 279 * unit
    → af_code freq ≡ some (true, (freq - 153 * unit) / unit / 9 + 1)
unfolding af_code
af_code_long_wave freq low high =
    let fm : leb freq fm_high ≡ false = ground arith in
    let above : leb (153 * unit) freq ≡ true = ground arith in
    let below : leb freq (279 * unit) ≡ true = ground arith in
    elim (Bool-cases (leb fm_low freq)) [
      | inl x ↦ rw (x, fm, above, below) refl
      | inr x ↦ rw (x, above, below) refl
    ]

-- For each of the 204 channels from 87.6 to 107.9 MHz, given as the nearest `float`, `add_rds_af`
-- stores the channel's code, 1 to 204, behind the codes in use, and counts one code and one
-- frequency more, as long as there is room for a 25th.
pub add_rds_af_channel :
    (af : RdsAfs) (channel : ℕ)
    → 876 ≤ channel
    → channel ≤ 1079
    → af.num_entries < 25
    → af.num_afs < 25
    → add_rds_af af (channel_float channel)
      ≡ some (record {
        num_entries = af.num_entries + 1;
        num_afs = af.num_afs + 1;
        afs = set af.afs af.num_entries (channel - 875);
      })
unfolding add_rds_af
add_rds_af_channel af channel low high entries room =
    let above : ltb (channel_float channel) fm_low ≡ false = ground arith in
    let below : ltb fm_high (channel_float channel) ≡ false = ground arith in
    let fits : ltb max_afs (af.num_afs + 1) ≡ false = ground arith in
    let n : (af.num_entries + 1) % 2 ^ 6 ≡ af.num_entries + 1 = omega arith in
    let m : (af.num_afs + 1) % 2 ^ 5 ≡ af.num_afs + 1 = omega arith in
    let code : (channel - 875) % 2 ^ 8 ≡ channel - 875 = omega arith in
    rw (above, below, fits, af_code-channel_float channel low high, above, below, n, m, code) refl

-- The guard of `add_rds_af` counts frequencies, not codes: with all 25 places in use, but at most 23
-- frequencies, a long-wave frequency is accepted. Both its codes are written past the end of `afs`,
-- where the list keeps nothing of them, while the counts grow. (`num_entries` is below 62, so that
-- its six bits hold the sum.)
pub add_rds_af_overflow :
    (af : RdsAfs) (freq : ℕ)
    → 153 * unit ≤ freq
    → freq ≤ 279 * unit
    → length af.afs ≡ 25
    → 25 ≤ af.num_entries
    → af.num_entries < 62
    → af.num_afs ≤ 23
    → add_rds_af af freq
      ≡ some (record af { num_entries = af.num_entries + 2; num_afs = af.num_afs + 1 })
unfolding add_rds_af
add_rds_af_overflow af freq low high size full entries room =
    let above : ltb fm_high freq ≡ true = ground arith in
    let fits : ltb max_afs (af.num_afs + 2) ≡ false = ground arith in
    let n : (af.num_entries + 2) % 2 ^ 6 ≡ af.num_entries + 2 = omega arith in
    let m : (af.num_afs + 1) % 2 ^ 5 ≡ af.num_afs + 1 = omega arith in
    let long = af_code_long_wave freq low high in
    let code = ((freq - 153 * unit) / unit / 9 + 1) % 2 ^ 8 in
    let marked = set af.afs af.num_entries af_code_lfmf_follows in
    let first : marked ≡ af.afs = set_outside af.afs af.num_entries _ (omega (arith, size)) in
    let second : set marked (af.num_entries + 1) code ≡ af.afs =
      set_outside marked (af.num_entries + 1) code
        (omega (arith, size, length-set af.afs af.num_entries af_code_lfmf_follows))
      ∙ first in
    elim (Bool-cases (ltb freq fm_low)) [
      | inl x ↦ rw (x, fits, long, x, n, m, second) refl
      | inr x ↦ rw (x, above, fits, long, x, above, n, m, second) refl
    ]
