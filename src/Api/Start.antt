-- ===== src/Api/Start.antt =====
-- The encoder that `init_rds_encoder` starts from, and a reset, are what the functions rely on.
use rds.Common.{ℕ, suc, ◌^◌, ◌<◌, ◌≡◌, refl, ◌∙◌, ap, arith, List, [], ◌∷◌, map, length, All}
use rds.Model.{RdsData, RdsEon, RdsEncoder, zero_data, zero_state, zero_encoder}
use rds.Model.{data_at, put_data}
use rds.Groups.Clock.{Tm}
use rds.Reset.{fresh_state, clear_ta, reset_rds_state, default_data, set_rds_defaults}
use package.rds.Api.Valid.{IsSettings, IsState, IsEon, IsEncoder, Fits, IsSized, All-set}
use package.rds.Api.Valid.{
  integers, flags, sizes, eon_numbers, zero_data-IsSettings, zero_state-IsState,
}
use package.rds.Api.Valid.{put_data-IsEncoder, data_at-IsSettings}
use package.rds.Api.TextValid.{put-IsEncoder, rt_setter-IsPair, ps_setter-IsPair, tps_setter-IsPair}
use package.rds.Api.TextValid.{lps_setter-IsPair, ptyn_setter-IsPair}

quiet_eon : RdsEon → RdsEon
quiet_eon e = record e { ta = 0 }

quiet_eon-IsEon : (e : RdsEon) → IsEon e → IsEon (quiet_eon e)
unfolding quiet_eon
quiet_eon-IsEon e v = record {
  numbers = All-set Fits (eon_numbers e) 2 (0, 1) v.numbers (omega arith);
  ps = v.ps;
  af = v.af;
}

All-map : (es : List RdsEon) → All IsEon es → All IsEon (map quiet_eon es)
All-map [] h = tt
All-map (e ∷ es) (v, h) = (quiet_eon-IsEon e v, All-map es h)

length-map : (es : List RdsEon) → length (map quiet_eon es) ≡ length es
length-map [] = refl
length-map (e ∷ es) = ap suc (length-map es)

pub clear_ta-IsSettings : (d : RdsData) → IsSettings d → IsSettings (clear_ta d)
unfolding clear_ta quiet_eon
clear_ta-IsSettings d v =
    let (_, (_, (_, (_, (_, (_, (count, _))))))) = v.sizes in
    record {
      integers = v.integers;
      flags = All-set Fits (flags d) 3 (0, 1) v.flags (omega arith);
      sizes =
          All-set IsSized (sizes d) 6 (length (map quiet_eon d.eon), 4) v.sizes
            (length-map d.eon ∙ count);
      af = v.af;
      eon = All-map d.eon v.eon;
    }

-- The setters of `reset_rds_state` one after the other, each on what the last one left.
pub fresh_state-IsState : (utc : Tm) (d : RdsData) → IsState (fresh_state utc d)
unfolding fresh_state
fresh_state-IsState utc d =
    let t0 : IsState (record zero_state { ptyn_ab = 1 }) = record {
      numbers = zero_state-IsState.numbers;
      custom_group = zero_state-IsState.custom_group;
      custom_group2 = zero_state-IsState.custom_group2;
    } in
    let (v1, w1) = rt_setter-IsPair _ _ zero_data-IsSettings t0 d.rt in
    let (v2, w2) = ps_setter-IsPair _ _ v1 w1 d.ps in
    let (v3, w3) = tps_setter-IsPair _ _ v2 w2 d.tps in
    let (v4, w4) = lps_setter-IsPair _ _ v3 w3 d.lps in
    let (v5, w5) = ptyn_setter-IsPair _ _ v4 w4 d.ptyn in
    record {
      numbers = w5.numbers;
      custom_group = w5.custom_group;
      custom_group2 = w5.custom_group2;
    }

-- A reset of a programme keeps the sizes of the arrays and the widths of the fields.
pub reset_rds_state-IsEncoder :
    (utc : Tm) (enc : RdsEncoder) (p : ℕ) → IsEncoder enc → IsEncoder (reset_rds_state utc enc p)
unfolding reset_rds_state
reset_rds_state-IsEncoder utc enc p v = put-IsEncoder enc p _ v (
  clear_ta-IsSettings (data_at enc p) (data_at-IsSettings enc p v),
  fresh_state-IsState utc (data_at enc p),
)

default_data-IsSettings : IsSettings default_data
unfolding default_data
default_data-IsSettings =
    let z = zero_data-IsSettings in
    let bit : 1 < 2 ^ 1 = omega arith in
    let no : 0 < 2 ^ 1 = omega arith in
    record {
      integers = All-set Fits (integers zero_data) 0 (0xffff, 16) z.integers (omega arith);
      flags = (bit, (no, (bit, (no, (bit, (no, tt))))));
      sizes = z.sizes;
      af = z.af;
      eon = z.eon;
    }

pub set_rds_defaults-IsEncoder :
    (utc : Tm) (enc : RdsEncoder) (p : ℕ) → IsEncoder enc → IsEncoder (set_rds_defaults utc enc p)
unfolding set_rds_defaults
set_rds_defaults-IsEncoder utc enc p v =
    let w = put_data-IsEncoder enc p default_data v default_data-IsSettings in
    reset_rds_state-IsEncoder utc (record (put_data enc p default_data) { streams = 1 }) p
      (record {
        programmes = w.programmes;
        settings = w.settings;
        states = w.states;
        state = w.state;
        program = w.program;
        streams = omega arith;
      })

pub zero_encoder-IsEncoder : IsEncoder zero_encoder
unfolding zero_encoder
zero_encoder-IsEncoder =
    let z = zero_data-IsSettings in
    let t = zero_state-IsState in
    record {
      programmes = refl;
      settings = (z, (z, (z, tt)));
      states = refl;
      state = (t, (t, (t, tt)));
      program = omega arith;
      streams = omega arith;
    }
