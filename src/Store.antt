-- ===== src/Store.antt =====
-- src/fs.c: the encoder file, and `init_rds_encoder` of src/rds.c, which reads it. How the compiler
-- lays the structures out in memory is the record `Layout`; the file system is the file's bytes and
-- the answers of `fopen` and `rename`.
pub mod Laws
use rds.Common.{ℕ, ◌≡◌, ◌<◌, List, [], ◌∷◌, Bool, true, false, ◌==◌, ◌&&◌, ◌||◌, not, if◌then◌else◌}
use rds.Common.{Option, none, some, take, drop}
use rds.Model.{RdsData, RdsEncoder, programs, zero_encoder}
use rds.Crc.{crc16_ccitt}
use rds.Lua.{Lua, World, lua_call_tfunction, on_init, on_start, on_state}
use rds.Groups.Clock.{Tm}
use rds.Reset.{reset_rds_state, set_rds_defaults}

-- RDSEncoderFile
pub record EncoderFile : Type 0 where
  pub file_starter : ℕ
  pub settings : List RdsData
  pub file_middle : ℕ
  pub program : ℕ
  pub streams : ℕ
  pub file_ender : ℕ
  pub crc : ℕ

-- The bytes of the structure, what bytes read into it mean, and `offsetof(RDSEncoderFile, crc)`.
-- `encoder_view` is what the same bytes mean when they are read as an `RDSEncoder`.
pub record Layout : Type 1 where
  pub image : EncoderFile → List ℕ
  pub view : List ℕ → EncoderFile
  pub encoder_view : List ℕ → RdsEncoder
  pub crc_offset : ℕ
  -- The values that fit the fields.
  pub IsStorable : EncoderFile → Type 0
  pub offset_fits : crc_offset < 65536
  pub view-image : (f : EncoderFile) → IsStorable f → view (image f) ≡ f
  -- `crc` is the last field.
  pub image_before_crc :
      (f : EncoderFile) (x : ℕ)
      → take crc_offset (image (record f { crc = x })) ≡ take crc_offset (image f)
  pub crc_of_view :
      (xs ys : List ℕ) → drop crc_offset xs ≡ drop crc_offset ys → (view xs).crc ≡ (view ys).crc

-- What the file system answers: does the temporary file open, does it take the file's place?
pub record Answers : Type 0 where
  pub opens : Bool
  pub renames : Bool

module _ (lay : Layout) (signed : Bool) where
  -- The file that `encoder_saveToFile` builds. The old file is read into `tempEncoder` first, but
  -- all that is used of it is overwritten.
  unfoldable pub file_of : RdsEncoder → Option (List ℕ) → EncoderFile
  file_of enc disk =
      let old : RdsEncoder = elim disk [ none ↦ enc | some bytes ↦ lay.encoder_view bytes ] in
      let temp = record old {
        settings = enc.settings;
        program = enc.program;
        streams = enc.streams;
      } in
      let file : EncoderFile = record {
        file_starter = 225;
        settings = temp.settings;
        file_middle = 160;
        program = temp.program;
        streams = temp.streams;
        file_ender = 95;
        crc = 0;
      } in
      record file { crc = crc16_ccitt signed (lay.image file) lay.crc_offset }

  -- `encoder_saveToFile`: the file is written beside the old one, and then takes its place.
  unfoldable pub encoder_save_to_file : Answers → RdsEncoder → Option (List ℕ) → Option (List ℕ)
  unfolding file_of
  encoder_save_to_file io enc disk =
      if not io.opens
      then disk
      else if io.renames
      then some (lay.image (file_of enc disk))
      else disk

  -- `encoder_loadFromFile`: the result, which is 1 for an error, and the encoder.
  unfoldable pub encoder_load_from_file : Option (List ℕ) → RdsEncoder → ℕ × RdsEncoder
  encoder_load_from_file none enc = (1, enc)
  encoder_load_from_file (some bytes) enc =
      let file = lay.view bytes in
      let format =
        (file.file_starter == 225) && (file.file_ender == 95) && (file.file_middle == 160) in
      if not format
      then (1, enc)
      else if not (crc16_ccitt signed bytes lay.crc_offset == file.crc)
      then (1, enc)
      else (
        0,
        record enc { settings = file.settings; program = file.program; streams = file.streams },
      )

  -- `init_rds_encoder`. The three programmes are set up one after the other.
  unfoldable pub init_rds_encoder :
      (L : Lua) → Tm → Answers → Option (List ℕ) → L.Interp → World L × Option (List ℕ)
  unfolding encoder_load_from_file encoder_save_to_file
  init_rds_encoder L utc io disk interp =
      let defaults =
        set_rds_defaults utc (set_rds_defaults utc (set_rds_defaults utc zero_encoder 0) 1) 2 in
      let (failed, loaded) = encoder_load_from_file disk defaults in
      let w1 : World L =
        if failed == 0 then (loaded, interp) else lua_call_tfunction L on_init (loaded, interp) in
      let reset = reset_rds_state utc (reset_rds_state utc (reset_rds_state utc w1.0 0) 1) 2 in
      let w2 = lua_call_tfunction L on_state (lua_call_tfunction L on_start (reset, w1.1)) in
      (w2, encoder_save_to_file io w2.0 disk)
