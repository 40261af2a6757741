-- ===== src/Model.antt =====
-- src/rds.h: the state of the encoder. A field of `w` bits is a number below `2 ^ w`; every
-- assignment writes the wrap-around out. A `char` is its byte; what it becomes when C promotes it
-- to `int` is `Model.Char.promote`.
pub mod Char
use mathlib.Core.List.{List, [], ◌∷◌}
use rds.Common.{ℕ, ◌+◌, get_or, set, replicate}

-- LUA_USER_DATA, GROUP_LENGTH, BLOCK_SIZE, POLY_DEG, BITS_PER_GROUP
abbrev pub lua_user_data : ℕ
lua_user_data = 1280

abbrev pub group_length : ℕ
group_length = 4

abbrev pub block_size : ℕ
block_size = 16

abbrev pub poly_deg : ℕ
poly_deg = 10

abbrev pub bits_per_group : ℕ
bits_per_group = 104

-- RT_LENGTH, PS_LENGTH, PTYN_LENGTH, LPS_LENGTH, MAX_AFS
abbrev pub rt_length : ℕ
rt_length = 64

abbrev pub ps_length : ℕ
ps_length = 8

abbrev pub ptyn_length : ℕ
ptyn_length = 8

abbrev pub lps_length : ℕ
lps_length = 32

abbrev pub max_afs : ℕ
max_afs = 25

-- AF_CODE_FILLER, AF_CODE_NUM_AFS_BASE, AF_CODE_LFMF_FOLLOWS
abbrev pub af_code_filler : ℕ
af_code_filler = 205

abbrev pub af_code_num_afs_base : ℕ
af_code_num_afs_base = 224

abbrev pub af_code_lfmf_follows : ℕ
af_code_lfmf_follows = 250

-- PROGRAMS, EONs
abbrev pub programs : ℕ
programs = 3

abbrev pub eons : ℕ
eons = 4

-- The alternative frequencies of a programme.
pub record RdsAfs : Type 0 where
  pub num_entries : ℕ
  pub num_afs : ℕ
  pub afs : List ℕ

-- What is sent about another network.
pub record RdsEon : Type 0 where
  pub pi : ℕ
  pub enabled : ℕ
  pub ta : ℕ
  pub tp : ℕ
  pub pty : ℕ
  pub ps : List ℕ
  pub af : RdsAfs
  pub word : ℕ

-- The settings of a programme.
pub record RdsData : Type 0 where
  pub pi : ℕ
  pub ps : List ℕ
  pub rt : List ℕ
  pub ecc : ℕ
  pub slc_data : ℕ
  pub ta : ℕ
  pub pty : ℕ
  pub tp : ℕ
  pub dpty : ℕ
  pub tps : List ℕ
  pub rt_enabled : ℕ
  pub ptyn_enabled : ℕ
  pub ptyn : List ℕ
  pub af : RdsAfs
  pub ct : ℕ
  pub lps : List ℕ
  pub grp_sqc_len : ℕ
  pub grp_sqc : List ℕ
  pub grp_sqc_rds2_len : ℕ
  pub grp_sqc_rds2 : List ℕ
  pub eon : List RdsEon
  pub lua_data : List ℕ

-- Where the transmission of a programme stands. `eon_states` holds the `af_state` of each network.
pub record RdsState : Type 0 where
  pub ps_update : ℕ
  pub tps_update : ℕ
  pub ps_text : List ℕ
  pub tps_text : List ℕ
  pub ps_csegment : ℕ
  pub rt_text : List ℕ
  pub rt_state : ℕ
  pub rt_update : ℕ
  pub rt_ab : ℕ
  pub rt_segments : ℕ
  pub ptyn_text : List ℕ
  pub ptyn_state : ℕ
  pub ptyn_update : ℕ
  pub ptyn_ab : ℕ
  pub lps_text : List ℕ
  pub lps_state : ℕ
  pub lps_update : ℕ
  pub lps_segments : ℕ
  pub custom_group : List ℕ
  pub custom_group2 : List ℕ
  pub data_ecc : ℕ
  pub grp_seq_idx : ℕ
  pub fasttuning_state : ℕ
  pub last_minute : ℕ
  pub last_second : ℕ
  pub eon_index : ℕ
  pub eon_state : ℕ
  pub eon_states : List ℕ
  pub af_state : ℕ
  pub eon_linkage : ℕ
  pub last_stream0_group : List ℕ
  pub last_stream0_group_type_b : ℕ

-- The encoder. `settings` and `state` are the source's arrays `data` and `state`.
pub record RdsEncoder : Type 0 where
  pub settings : List RdsData
  pub state : List RdsState
  pub program : ℕ
  pub streams : ℕ

-- The four blocks of a group without their checkwords.
pub record RdsGroup : Type 0 where
  pub a : ℕ
  pub b : ℕ
  pub c : ℕ
  pub d : ℕ
  pub is_type_b : ℕ

-- What `memset` to zero leaves.
abbrev pub zero_afs : RdsAfs
zero_afs = record { num_entries = 0; num_afs = 0; afs = replicate max_afs 0 }

abbrev pub zero_eon : RdsEon
zero_eon = record {
  pi = 0;
  enabled = 0;
  ta = 0;
  tp = 0;
  pty = 0;
  ps = replicate 8 0;
  af = zero_afs;
  word = 0;
}

abbrev pub zero_data : RdsData
zero_data = record {
  pi = 0;
  ps = replicate ps_length 0;
  rt = replicate rt_length 0;
  ecc = 0;
  slc_data = 0;
  ta = 0;
  pty = 0;
  tp = 0;
  dpty = 0;
  tps = replicate ps_length 0;
  rt_enabled = 0;
  ptyn_enabled = 0;
  ptyn = replicate ptyn_length 0;
  af = zero_afs;
  ct = 0;
  lps = replicate lps_length 0;
  grp_sqc_len = 0;
  grp_sqc = replicate 32 0;
  grp_sqc_rds2_len = 0;
  grp_sqc_rds2 = replicate 32 0;
  eon = replicate eons zero_eon;
  lua_data = replicate lua_user_data 0;
}

abbrev pub zero_state : RdsState
zero_state = record {
  ps_update = 0;
  tps_update = 0;
  ps_text = replicate ps_length 0;
  tps_text = replicate ps_length 0;
  ps_csegment = 0;
  rt_text = replicate rt_length 0;
  rt_state = 0;
  rt_update = 0;
  rt_ab = 0;
  rt_segments = 0;
  ptyn_text = replicate ptyn_length 0;
  ptyn_state = 0;
  ptyn_update = 0;
  ptyn_ab = 0;
  lps_text = replicate lps_length 0;
  lps_state = 0;
  lps_update = 0;
  lps_segments = 0;
  custom_group = replicate group_length 0;
  custom_group2 = replicate (group_length + 1) 0;
  data_ecc = 0;
  grp_seq_idx = 0;
  fasttuning_state = 0;
  last_minute = 0;
  last_second = 0;
  eon_index = 0;
  eon_state = 0;
  eon_states = replicate 4 0;
  af_state = 0;
  eon_linkage = 0;
  last_stream0_group = replicate 3 0;
  last_stream0_group_type_b = 0;
}

unfoldable pub zero_encoder : RdsEncoder
zero_encoder = record {
  settings = replicate programs zero_data;
  state = replicate programs zero_state;
  program = 0;
  streams = 0;
}

-- `enc->data[p]` and `enc->state[p]`. `p` is a programme number.
-- Beyond the arrays a read gives zeros and a write changes nothing.
abbrev pub data_at : RdsEncoder → ℕ → RdsData
data_at enc p = get_or enc.settings p zero_data

abbrev pub state_at : RdsEncoder → ℕ → RdsState
state_at enc p = get_or enc.state p zero_state

abbrev pub put_data : RdsEncoder → ℕ → RdsData → RdsEncoder
put_data enc p d = record enc { settings = set enc.settings p d }

abbrev pub put_state : RdsEncoder → ℕ → RdsState → RdsEncoder
put_state enc p s = record enc { state = set enc.state p s }

-- The programme `p` after an operation on its settings and its state.
abbrev pub put : RdsEncoder → ℕ → RdsData × RdsState → RdsEncoder
put enc p r = put_state (put_data enc p r.0) p r.1
