-- ===== src/System/Invariant.antt =====
-- Whatever happens in whatever order, also across a restart from the file: the encoder stays within its
-- arrays and fields.
use rds.Common.{
  ℕ, ◌^◌, ◌<◌, ◌≡◌, sym, List, [], ◌∷◌, Bool, ◌==◌, ◌&&◌, not, if◌then◌else◌, length, take, All,
}
use rds.Common.{none, some, Option, Option-cases, Bool-cases, inl, inr}
use mathlib.Core.Path.{subst}
use rds.Model.{RdsEon, RdsEncoder, programs, zero_encoder}
use rds.Lua.{Lua, World, on_init, on_start, on_state, lua_call_tfunction}
use rds.Lua.Keeps.{HooksKeep, lua_call_tfunction-Keeps}
use rds.Groups.Clock.{Tm}
use rds.Reset.{reset_rds_state, set_rds_defaults}
use rds.Crc.{crc16_ccitt}
use rds.Store.{EncoderFile, Layout, Answers, file_of, encoder_save_to_file, encoder_load_from_file}
use rds.Store.{init_rds_encoder}
use rds.Udp.{Handler, run_lua, poll_udp_server}
use rds.Api.Valid.{IsEncoder, IsSettings}
use rds.Api.Start.{reset_rds_state-IsEncoder, set_rds_defaults-IsEncoder, zero_encoder-IsEncoder}
use package.rds.System.{System, Reached, started, restarted, sent, commanded, saved}
use package.rds.System.{called, defaulted, reset, encoded}
use rds.Model.{RdsGroup}
use rds.Sequence.Keeps.{get_rds_sequence_group-Keeps}
use rds.Lua.Keeps.{lua_call_tfunction_nolock-Keeps}
use rds.Api.Runs.{run-IsValid}
use rds.Api.Hooks.{Statics, lua_set_rds_program_defaults, lua_reset_rds, lua_encode_group}
use package.rds.System.Groups.{get_rds_group-IsEncoder, IsEncoder-GeneratorsKeep}

-- A file that an encoder can take over.
pub record Loads (file : EncoderFile) : Type 0 where
  pub programmes : length file.settings ≡ programs
  pub settings : All IsSettings file.settings
  pub program : file.program < programs
  pub streams : file.streams < 2 ^ 3

abbrev pub FileFits : Layout → Option (List ℕ) → Type 0
FileFits lay none = Unit
FileFits lay (some bytes) = Loads (lay.view bytes)

-- Settings that fit their arrays and fields can be stored in the file.
abbrev pub StoresSettings : Layout → Type 0
StoresSettings lay = (file : EncoderFile) → Loads file → lay.IsStorable file

-- What the handler of datagrams has to keep of the encoder.
abbrev pub HandlerKeeps : (L : Lua) → Handler L → Type 0
HandlerKeeps L handler =
    (f : L.Fn) (text : List ℕ) (w : World L)
    → IsEncoder w.0
    → IsEncoder (handler.pcall_data f text w).1.0

taken_over :
    (enc : RdsEncoder) (file : EncoderFile)
    → IsEncoder enc
    → Loads file
    → IsEncoder
        (record enc { settings = file.settings; program = file.program; streams = file.streams })
taken_over enc file v l = record {
  programmes = l.programmes;
  settings = l.settings;
  states = v.states;
  state = v.state;
  program = l.program;
  streams = l.streams;
}

module _ (lay : Layout) (signed : Bool) where
  pub encoder_load_from_file-IsEncoder :
      (disk : Option (List ℕ)) (enc : RdsEncoder)
      → FileFits lay disk
      → IsEncoder enc
      → IsEncoder (encoder_load_from_file lay signed disk enc).1
  unfolding encoder_load_from_file
  encoder_load_from_file-IsEncoder none enc l v = v
  encoder_load_from_file-IsEncoder (some bytes) enc l v =
      let file = lay.view bytes in
      let format =
        (file.file_starter == 225) && (file.file_ender == 95) && (file.file_middle == 160) in
      elim (Bool-cases (not format)) [
        | inl other ↦ rw (encoder_load_from_file, other) v
        | inr right ↦
            elim (Bool-cases (not (crc16_ccitt signed bytes lay.crc_offset == file.crc))) [
              | inl wrong ↦ rw (encoder_load_from_file, right, wrong) v
              | inr good ↦ rw (encoder_load_from_file, right, good) (taken_over enc file v l)
            ]
      ]

  file_of-Loads :
      (enc : RdsEncoder) (disk : Option (List ℕ))
      → IsEncoder enc
      → Loads (file_of lay signed enc disk)
  unfolding file_of
  file_of-Loads enc disk v = record {
    programmes = v.programmes;
    settings = v.settings;
    program = v.program;
    streams = v.streams;
  }

  pub encoder_save_to_file-FileFits :
      (io : Answers) (enc : RdsEncoder) (disk : Option (List ℕ))
      → StoresSettings lay
      → FileFits lay disk
      → IsEncoder enc
      → FileFits lay (encoder_save_to_file lay signed io enc disk)
  unfolding encoder_save_to_file
  encoder_save_to_file-FileFits io enc disk fits old v =
      let file = file_of lay signed enc disk in
      let l = file_of-Loads enc disk v in
      let new : Loads (lay.view (lay.image file)) =
        subst Loads (sym (lay.view-image file (fits file l))) l in
      elim (Bool-cases (not io.opens)) [
        | inl shut ↦ rw shut old
        | inr opened ↦ elim (Bool-cases io.renames) [
          | inl placed ↦ rw (opened, placed) new
          | inr kept ↦ rw (opened, kept) old
        ]
      ]

  three_resets :
      (utc : Tm) (enc : RdsEncoder)
      → IsEncoder enc
      → IsEncoder (reset_rds_state utc (reset_rds_state utc (reset_rds_state utc enc 0) 1) 2)
  three_resets utc enc v =
      reset_rds_state-IsEncoder utc _ 2
        (reset_rds_state-IsEncoder utc _ 1 (reset_rds_state-IsEncoder utc enc 0 v))

  module _ (L : Lua) (h : HooksKeep L IsEncoder) where
    init_rds_encoder-IsEncoder :
        (utc : Tm) (io : Answers) (disk : Option (List ℕ)) (i : L.Interp)
        → StoresSettings lay
        → FileFits lay disk
        → let (w, file) = init_rds_encoder lay signed L utc io disk i in
          IsEncoder w.0 × FileFits lay file
    unfolding init_rds_encoder
    init_rds_encoder-IsEncoder utc io disk i fits l =
        let defaults =
          set_rds_defaults utc (set_rds_defaults utc (set_rds_defaults utc zero_encoder 0) 1) 2 in
        let v0 = set_rds_defaults-IsEncoder utc _ 2 (
          set_rds_defaults-IsEncoder utc _ 1
            (set_rds_defaults-IsEncoder utc zero_encoder 0 zero_encoder-IsEncoder)) in
        let (failed, loaded) = encoder_load_from_file lay signed disk defaults in
        let v1 : IsEncoder loaded = encoder_load_from_file-IsEncoder disk defaults l v0 in
        let w1 : World L =
          if failed == 0 then (loaded, i) else lua_call_tfunction L on_init (loaded, i) in
        let v2 : IsEncoder w1.0 = elim (Bool-cases (failed == 0)) [
          | inl fine ↦ rw fine v1
          | inr again ↦ rw again (lua_call_tfunction-Keeps L IsEncoder h on_init (loaded, i) v1)
        ] in
        let v3 = lua_call_tfunction-Keeps L IsEncoder h on_start _ (three_resets utc w1.0 v2) in
        let v4 = lua_call_tfunction-Keeps L IsEncoder h on_state _ v3 in
        (v4, encoder_save_to_file-FileFits io _ disk fits l v4)

poll_udp_server-IsEncoder :
    (L : Lua) (handler : Handler L) (datagram : Option (List ℕ)) (w : World L)
    → HandlerKeeps L handler
    → IsEncoder w.0
    → IsEncoder (poll_udp_server L handler datagram w).1.0
unfolding poll_udp_server run_lua
poll_udp_server-IsEncoder L handler none w h v = v
poll_udp_server-IsEncoder L handler (some []) w h v = v
poll_udp_server-IsEncoder L handler (some (c ∷ cs)) w h v =
    elim (Option-cases (handler.data_handle w.1)) [
      | inl absent ↦ rw (poll_udp_server, run_lua, absent) v
      | inr (f, found) ↦ rw (poll_udp_server, run_lua, found) (h f (take 511 (c ∷ cs)) w v)
    ]

-- The functions that a script calls and that run hooks themselves.
module _ (L : Lua) (h : HooksKeep L IsEncoder) where
  lua_set_rds_program_defaults-IsEncoder :
      (statics : Statics L) (utc : Tm) (w : World L)
      → IsEncoder w.0
      → IsEncoder (lua_set_rds_program_defaults L statics utc w).0
  unfolding lua_set_rds_program_defaults
  lua_set_rds_program_defaults-IsEncoder statics utc w v =
      let v1 = set_rds_defaults-IsEncoder utc w.0 (statics.writing_program w.1) v in
      let v2 = lua_call_tfunction_nolock-Keeps L IsEncoder h on_init (_, _) v1 in
      let v3 = lua_call_tfunction_nolock-Keeps L IsEncoder h on_state _ v2 in
      elim (Bool-cases (statics.in_set_defaults w.1)) [
        | inl inner ↦ rw inner v
        | inr outer ↦ rw outer v3
      ]

  lua_reset_rds-IsEncoder :
      (lay : Layout) (signed : Bool) (utc : Tm) (io : Answers) (w : World L)
      (file : Option (List ℕ))
      → StoresSettings lay
      → IsEncoder w.0
      → FileFits lay file
      → let (w', file') = lua_reset_rds lay signed L utc io (w, file) in
        IsEncoder w'.0 × FileFits lay file'
  unfolding lua_reset_rds
  lua_reset_rds-IsEncoder lay signed utc io w file fits v l =
      let l' = encoder_save_to_file-FileFits lay signed io w.0 file fits l v in
      let v1 = encoder_load_from_file-IsEncoder lay signed _ w.0 l' v in
      (
        lua_call_tfunction_nolock-Keeps L IsEncoder h on_state _ (three_resets lay signed utc _ v1),
        l',
      )

  lua_encode_group-IsEncoder :
      (signed : Bool) (stray : RdsEon) (g : RdsGroup) (arg : Option (List ℕ)) (w : World L)
      → IsEncoder w.0
      → IsEncoder (lua_encode_group L signed stray g arg w).1.0
  unfolding lua_encode_group
  lua_encode_group-IsEncoder signed stray g none w v = v
  lua_encode_group-IsEncoder signed stray g (some []) w v = v
  lua_encode_group-IsEncoder signed stray g (some (grp ∷ [])) w v =
      get_rds_sequence_group-Keeps L signed stray IsEncoder h
        (IsEncoder-GeneratorsKeep L signed stray h) _ _ w g v
  lua_encode_group-IsEncoder signed stray g (some (grp ∷ c ∷ cs)) w v = v

-- In every state that the program reaches by starts, groups for any stream, datagrams, saves and calls of
-- scripts in any order (without a negative index for `set_eon`), the arrays of the settings and the group buffers have their sizes, the numbers
-- that scripts reach fit their bit fields, the programme on the air is one of the three, and the encoder
-- file can be taken over at the next start. The hooks and the handler of datagrams keep the encoder so,
-- the file of the first start can be taken over, and settings that fit their arrays and fields can be
-- stored.
pub Reached-IsEncoder :
    (lay : Layout) (signed : Bool) (stray : RdsEon) (L : Lua) (handler : Handler L)
    (disk : Option (List ℕ)) (s : System lay signed stray L handler)
    → StoresSettings lay
    → HooksKeep L IsEncoder
    → HandlerKeeps L handler
    → FileFits lay disk
    → Reached lay signed stray L handler disk s
    → IsEncoder s.0.0 × FileFits lay s.1
Reached-IsEncoder lay signed stray L handler disk _ fits h k l (started utc io i) =
    init_rds_encoder-IsEncoder lay signed L h utc io disk i fits l
Reached-IsEncoder lay signed stray L handler disk _ fits h k l (restarted utc io i w file r) =
    let (v, l') = Reached-IsEncoder lay signed stray L handler disk (w, file) fits h k l r in
    init_rds_encoder-IsEncoder lay signed L h utc io file i fits l'
Reached-IsEncoder lay signed stray L handler disk _ fits h k l (sent utc stream w file r) =
    let (v, l') = Reached-IsEncoder lay signed stray L handler disk (w, file) fits h k l r in
    (get_rds_group-IsEncoder L signed stray h utc stream w v, l')
Reached-IsEncoder lay signed stray L handler disk _ fits h k l (commanded datagram w file r) =
    let (v, l') = Reached-IsEncoder lay signed stray L handler disk (w, file) fits h k l r in
    (poll_udp_server-IsEncoder L handler datagram w k v, l')
Reached-IsEncoder lay signed stray L handler disk _ fits h k l (saved io w file r) =
    let (v, l') = Reached-IsEncoder lay signed stray L handler disk (w, file) fits h k l r in
    (v, encoder_save_to_file-FileFits lay signed io w.0 file fits l' v)
Reached-IsEncoder lay signed stray L handler disk _ fits h k l (called c p w file below r) =
    let (v, l') = Reached-IsEncoder lay signed stray L handler disk (w, file) fits h k l r in
    ((run-IsValid c _ (record { encoder = v; writing_program = below })).encoder, l')
Reached-IsEncoder lay signed stray L handler disk _ fits h k l (defaulted statics utc w file r) =
    let (v, l') = Reached-IsEncoder lay signed stray L handler disk (w, file) fits h k l r in
    (lua_set_rds_program_defaults-IsEncoder L h statics utc w v, l')
Reached-IsEncoder lay signed stray L handler disk _ fits h k l (reset utc io w file r) =
    let (v, l') = Reached-IsEncoder lay signed stray L handler disk (w, file) fits h k l r in
    lua_reset_rds-IsEncoder L h lay signed utc io w file fits v l'
Reached-IsEncoder lay signed stray L handler disk _ fits h k l (encoded g arg w file r) =
    let (v, l') = Reached-IsEncoder lay signed stray L handler disk (w, file) fits h k l r in
    (lua_encode_group-IsEncoder L h signed stray g arg w v, l')
