-- ===== src/Groups/Ps.antt =====
-- The programme service name: what four PS groups in a row carry.
use rds.Common.{
  ℕ, zero, suc, ◌+◌, ◌*◌, ◌%◌, ◌^◌, ◌≤◌, ◌<◌, List, [], ◌∷◌, All, leb, Bool, true, false,
}
use rds.Common.{Bool-cases, inl, inr}
use rds.Common.{◌≡◌, ◌≢◌, ◌⊎◌, refl, ap₂, ◌∙◌, arith, ◌==◌, if◌then◌else◌, ◌&&◌, get_or}
use rds.Common.{
  bit_or, bit_or_low, bit_or_high, bit_or_sum, bit_or_sum_right, all_below, all_below_sound, ==_iff,
  zero-bit_or,
}
use rds.Model.{RdsData, RdsState, RdsGroup}
use rds.Model.Char.{promote, char_pair}
use package.rds.Groups.{is_set, text_block, ps_load, ps_send}

-- An empty group.
abbrev pub blank : ℕ → RdsGroup
blank pi = record { a = pi; b = 0; c = 0; d = 0; is_type_b = 0 }

-- On a platform with unsigned characters, or for a second character below 0x80, a block holds its
-- two characters.
pub char_pair-eq-add :
    (signed : Bool) (hi lo : ℕ)
    → hi < 256
    → lo < 256
    → (signed ≡ false) ⊎ (lo < 128)
    → char_pair signed hi lo ≡ hi * 256 + lo
unfolding char_pair
char_pair-eq-add signed hi lo h k plain =
    let low : promote signed lo ≡ lo = ground arith in
    let high : promote signed hi * 2 ^ 8 % 2 ^ 16 ≡ hi * 2 ^ 8 = ground arith in
    ap₂ bit_or high low ∙ bit_or_low 8 hi lo k

ones_table : all_below 256 (λ x. bit_or x 0xff == 0xff) ≡ true
unfolding all_below
ones_table = refl

-- Otherwise the sign of the second character overwrites the first one with 0xff.
pub char_pair_lost :
    (hi lo : ℕ) → hi < 256 → 128 ≤ lo → lo < 256 → char_pair true hi lo ≡ 0xff00 + lo
unfolding char_pair
char_pair_lost hi lo h k l =
    let low : promote true lo ≡ 0xff * 2 ^ 8 + lo = ground arith in
    let high : promote true hi * 2 ^ 8 % 2 ^ 16 ≡ hi * 2 ^ 8 = ground arith in
    let ones : bit_or hi 0xff ≡ 0xff = (==_iff _ _).0 (all_below_sound 256 hi _ ones_table h) in
    ap₂ bit_or high low ∙ bit_or_high 8 hi 0xff lo l ∙ omega (arith, ones)

abbrev pub IsByte : ℕ → Type 0
IsByte c = c < 256

-- What a block says of the characters `i` and `i + 1` of a text, by the numbers: the first one is in the
-- high byte, unless `char` is signed and the second one is 0x80 or above, which leaves 0xff there.
abbrev pub aired : Bool → List ℕ → ℕ → ℕ
aired signed text i =
    let lo = get_or text (i + 1) 0 in
    if signed && leb 128 lo then 0xff00 + lo else get_or text i 0 * 256 + lo

get_or-IsByte : (text : List ℕ) (i : ℕ) → All IsByte text → get_or text i 0 < 256
get_or-IsByte [] i h = omega arith
get_or-IsByte (c ∷ cs) zero (hc, h) = hc
get_or-IsByte (c ∷ cs) (suc i) (hc, h) = get_or-IsByte cs i h

pub text_block-aired :
    (signed : Bool) (text : List ℕ) (i : ℕ)
    → All IsByte text
    → text_block signed text i ≡ aired signed text i
unfolding text_block
text_block-aired true text i h =
    let hi = get_or text i 0 in
    let lo = get_or text (i + 1) 0 in
    let k = get_or-IsByte text i h in
    let l = get_or-IsByte text (i + 1) h in
    elim (Bool-cases (leb 128 lo)) [
      | inl high ↦ rw high (char_pair_lost hi lo k (ground arith) l)
      | inr low ↦ rw low (char_pair-eq-add true hi lo k l (inr (ground arith)))
    ]
text_block-aired false text i h =
    char_pair-eq-add false (get_or text i 0) (get_or text (i + 1) 0) (get_or-IsByte text i h)
      (get_or-IsByte text (i + 1) h) (inl refl)

-- Block B of a PS group, without the programme fields.
ps_block_b :
    (signed : Bool) (d : RdsData) (s : RdsState) (pi : ℕ)
    → d.ta < 2
    → d.dpty < 2
    → s.ps_csegment < 4
    → (ps_send signed d s (blank pi)).1.b
      ≡ d.ta * 16
        + (if s.ps_csegment == 0 then d.dpty * 4 else 0)
        + s.ps_csegment
        + (if d.af.num_afs == 0 then 2048 else 0)
unfolding ps_send
ps_block_b signed d s pi ta dpty seg = ground (
  arith,
  zero-bit_or (d.ta * 2 ^ 4),
  bit_or_sum 4 d.ta (d.ta * 2 ^ 4) (d.dpty * 2 ^ 2),
  bit_or_sum 2 (d.ta * 4 + d.dpty) (d.ta * 2 ^ 4 + d.dpty * 2 ^ 2) s.ps_csegment,
  bit_or_sum 2 (d.ta * 4) (d.ta * 2 ^ 4) s.ps_csegment,
  bit_or_sum_right 11 1 (1 * 2 ^ 11) (d.ta * 2 ^ 4 + d.dpty * 2 ^ 2 + s.ps_csegment),
  bit_or_sum_right 11 1 (1 * 2 ^ 11) (d.ta * 2 ^ 4 + s.ps_csegment),
)

-- The text that is sent: the traffic text during a traffic announcement, if there is one.
abbrev pub shown_text : RdsData → RdsState → List ℕ
shown_text d s = if is_set d.ta && is_set (get_or s.tps_text 0 0) then s.tps_text else s.ps_text

-- What one group does to the state and carries, behind the taking over of new texts.
pub record Sends (signed : Bool) (d : RdsData) (s : RdsState) (r : RdsState × RdsGroup)
    : Type 0 where
  pub segment : r.0.ps_csegment ≡ s.ps_csegment + 1
  pub ps_kept : r.0.ps_text ≡ s.ps_text
  pub tps_kept : r.0.tps_text ≡ s.tps_text
  pub address : r.1.b % 4 ≡ s.ps_csegment
  pub chars : r.1.d ≡ text_block signed (shown_text d s) (s.ps_csegment * 2)

pub ps_send-Sends :
    (signed : Bool) (d : RdsData) (s : RdsState) (pi : ℕ)
    → d.ta < 2
    → d.dpty < 2
    → s.ps_csegment < 4
    → Sends signed d s (ps_send signed d s (blank pi))
ps_send-Sends signed d s pi ta dpty seg = record {
  segment = unfold ps_send in ground arith;
  ps_kept = unfold ps_send in ground arith;
  tps_kept = unfold ps_send in ground arith;
  address = ground (arith, ps_block_b signed d s pi ta dpty seg);
  chars = unfold ps_send in ground arith;
}

pub segment-ps_load : (d : RdsData) (s : RdsState) → (ps_load d s).ps_csegment ≡ s.ps_csegment
unfolding ps_load
segment-ps_load d s = ground arith

pub ps_load_later : (d : RdsData) (s : RdsState) → s.ps_csegment ≢ 0 → ps_load d s ≡ s
unfolding ps_load
ps_load_later d s ne = let later : (s.ps_csegment == 0) ≡ false = ground arith in rw later
