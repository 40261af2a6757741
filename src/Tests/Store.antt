-- ===== src/Tests/Store.antt =====
-- An encoder file of an encoder without settings, for a small layout.
use rds.Common.{ℕ, ◌≡◌, refl, sym, List, [], ◌∷◌, arith, true, none, some, get_or, drop, ap, true}
use rds.Model.{RdsEncoder, zero_encoder}
use rds.Store.{Layout, EncoderFile, file_of, encoder_save_to_file, encoder_load_from_file}
use rds.Store.Laws.{encoder_load_from_file-encoder_save_to_file, encoder_load_from_file_damaged}
use rds.Crc.{crc16_ccitt}

-- One place for each field but the settings, of which there are none.
abbrev small_view : List ℕ → EncoderFile
small_view bytes = record {
  file_starter = get_or bytes 0 0;
  settings = [];
  file_middle = get_or bytes 1 0;
  program = get_or bytes 2 0;
  streams = get_or bytes 3 0;
  file_ender = get_or bytes 4 0;
  crc = get_or (drop 5 bytes) 0 0;
}

abbrev pub small : Layout
small = record {
  image = λ (f : EncoderFile).
      f.file_starter ∷ f.file_middle ∷ f.program ∷ f.streams ∷ f.file_ender ∷ f.crc ∷ [];
  view = small_view;
  encoder_view = λ _. zero_encoder;
  crc_offset = 5;
  IsStorable = λ (f : EncoderFile). f.settings ≡ [];
  offset_fits = omega arith;
  view-image = λ f e i. record f { settings = sym e i };
  image_before_crc = λ f x. refl;
  crc_of_view = λ xs ys e. ap (λ t. get_or t 0 0) e;
}

abbrev pub bare : RdsEncoder
bare = record { settings = []; state = []; program = 2; streams = 1 }

encoder_load_from_file-encoder_save_to_file_example :
    encoder_load_from_file small true
      (encoder_save_to_file small true (record { opens = true; renames = true }) bare none)
      (record { settings = []; state = []; program = 0; streams = 0 })
    ≡ (0, bare)
unfolding file_of
encoder_load_from_file-encoder_save_to_file_example =
    encoder_load_from_file-encoder_save_to_file small true bare
      (record { settings = []; state = []; program = 0; streams = 0 }) none refl

encoder_load_from_file_damaged_example :
    encoder_load_from_file small true (some (225 ∷ 160 ∷ 1 ∷ 1 ∷ 95 ∷ 35123 ∷ [])) bare ≡ (1, bare)
unfolding encoder_load_from_file crc16_ccitt
encoder_load_from_file_damaged_example =
    encoder_load_from_file_damaged small true (225 ∷ 160 ∷ []) (1 ∷ 95 ∷ []) (35123 ∷ []) 0 1 bare
      (omega arith) (omega arith) refl refl (omega arith) refl
