-- ===== src/Store/Laws.antt =====
-- What is saved is loaded again, and a damaged file is refused.
use rds.Common.{ℕ, ◌%◌, ◌^◌, ◌<◌, List, ◌∷◌, ◌++◌, Bool, true, ◌==◌}
use rds.Common.{◌≡◌, ◌≢◌, refl, sym, ap, ◌∙◌, arith, ==_iff}
use rds.Common.{Option, some, length, take, take-append, drop-append, All, bit_xor, take_all}
use rds.Model.{RdsEncoder}
use rds.Crc.{crc16_ccitt, crc_bytes}
use rds.Crc.Detect.{IsByte, crc16_ccitt_detects}
use rds.Store.{EncoderFile, Layout, file_of, encoder_save_to_file, encoder_load_from_file}

-- The sum takes only the characters before its length.
crc16_ccitt-take :
    (signed : Bool) (n : ℕ) (xs ys : List ℕ)
    → n < 65536
    → take n xs ≡ take n ys
    → crc16_ccitt signed xs n ≡ crc16_ccitt signed ys n
unfolding crc16_ccitt
crc16_ccitt-take signed n xs ys h e =
    let cut : n % 2 ^ 16 ≡ n = omega arith in
    ap (λ t. bit_xor (crc_bytes signed 0xffff t) 0xffff)
      (ap (λ k. take k xs) cut ∙ e ∙ sym (ap (λ k. take k ys) cut))

module _ (lay : Layout) (signed : Bool) where
  crc_of_file :
      (enc : RdsEncoder) (disk : Option (List ℕ))
      → crc16_ccitt signed (lay.image (file_of lay signed enc disk)) lay.crc_offset
        ≡ (file_of lay signed enc disk).crc
  unfolding file_of
  crc_of_file enc disk =
      let f = file_of lay signed enc disk in
      crc16_ccitt-take signed lay.crc_offset (lay.image f) (lay.image (record f { crc = 0 }))
        lay.offset_fits (sym (lay.image_before_crc f 0))

  -- A file whose marks and sum are right.
  record IsGood (bytes : List ℕ) (file : EncoderFile) : Type 0 where
    viewed : lay.view bytes ≡ file
    starter : file.file_starter ≡ 225
    middle : file.file_middle ≡ 160
    ender : file.file_ender ≡ 95
    sum : crc16_ccitt signed bytes lay.crc_offset ≡ file.crc

  load_good :
      (bytes : List ℕ) (file : EncoderFile) (enc : RdsEncoder)
      → IsGood bytes file
      → encoder_load_from_file lay signed (some bytes) enc ≡ (
        0,
        record enc { settings = file.settings; program = file.program; streams = file.streams },
      )
  unfolding encoder_load_from_file
  load_good bytes file enc g =
      let s : (file.file_starter == 225) ≡ true = (==_iff _ _).1 g.starter in
      let m : (file.file_middle == 160) ≡ true = (==_iff _ _).1 g.middle in
      let e : (file.file_ender == 95) ≡ true = (==_iff _ _).1 g.ender in
      let c : (crc16_ccitt signed bytes lay.crc_offset == file.crc) ≡ true = (==_iff _ _).1 g.sum in
      rw (g.viewed, s, m, e, c) refl

  -- If the temporary file opens and takes the old one's place, `encoder_loadFromFile` accepts what
  -- `encoder_saveToFile` has written, whatever was there before, and gives back the settings of the
  -- three programmes, the programme on the air and the number of streams; the state is kept. The
  -- values have to fit the fields of the file.
  pub encoder_load_from_file-encoder_save_to_file :
      (enc fresh : RdsEncoder) (disk : Option (List ℕ))
      → lay.IsStorable (file_of lay signed enc disk)
      → encoder_load_from_file lay signed
          (encoder_save_to_file lay signed (record { opens = true; renames = true }) enc disk)
          fresh
        ≡ (
          0,
          record fresh { settings = enc.settings; program = enc.program; streams = enc.streams },
        )
  unfolding encoder_save_to_file
  encoder_load_from_file-encoder_save_to_file enc fresh disk fits =
      let f = file_of lay signed enc disk in
      load_good (lay.image f) f fresh (record {
        viewed = lay.view-image f fits;
        starter = unfold file_of in refl;
        middle = unfold file_of in refl;
        ender = unfold file_of in refl;
        sum = crc_of_file enc disk;
      })
      ∙ unfold file_of in refl

  -- An accepted file has the sum of its bytes.
  sum_of_accepted :
      (bytes : List ℕ) (enc : RdsEncoder)
      → (encoder_load_from_file lay signed (some bytes) enc).0 ≡ 0
      → crc16_ccitt signed bytes lay.crc_offset ≡ (lay.view bytes).crc
  unfolding encoder_load_from_file
  sum_of_accepted bytes enc ok = ground arith

  refused :
      (bytes : List ℕ) (enc : RdsEncoder)
      → crc16_ccitt signed bytes lay.crc_offset ≢ (lay.view bytes).crc
      → encoder_load_from_file lay signed (some bytes) enc ≡ (1, enc)
  unfolding encoder_load_from_file
  refused bytes enc ne = ground arith

  -- The sum is that of the part before the checksum.
  sum_of_front :
      (front rest : List ℕ)
      → length front ≡ lay.crc_offset
      → crc16_ccitt signed (front ++ rest) lay.crc_offset ≡ crc16_ccitt signed front (length front)
  sum_of_front front rest e =
      crc16_ccitt-take signed lay.crc_offset (front ++ rest) front lay.offset_fits (
        take-append lay.crc_offset front rest e
        ∙ sym (take_all lay.crc_offset front (omega (arith, e))))
      ∙ ap (crc16_ccitt signed front) (sym e)

  -- If the file `xs ++ a ∷ ys ++ rest` is accepted, where `rest` begins with the checksum, then the
  -- same file with another byte in place of `a` is refused: the result is 1, and the encoder is as
  -- it was.
  pub encoder_load_from_file_damaged :
      (xs ys rest : List ℕ) (a b : ℕ) (enc : RdsEncoder)
      → All IsByte (xs ++ a ∷ ys)
      → IsByte b
      → length (xs ++ a ∷ ys) ≡ lay.crc_offset
      → length (xs ++ b ∷ ys) ≡ lay.crc_offset
      → a ≢ b
      → (encoder_load_from_file lay signed (some ((xs ++ a ∷ ys) ++ rest)) enc).0 ≡ 0
      → encoder_load_from_file lay signed (some ((xs ++ b ∷ ys) ++ rest)) enc ≡ (1, enc)
  encoder_load_from_file_damaged xs ys rest a b enc bytes q la lb ne ok =
      let good = xs ++ a ∷ ys in
      let bad = xs ++ b ∷ ys in
      let same_field : (lay.view (good ++ rest)).crc ≡ (lay.view (bad ++ rest)).crc =
        lay.crc_of_view (good ++ rest) (bad ++ rest) (
          drop-append lay.crc_offset good rest la ∙ sym (drop-append lay.crc_offset bad rest lb)) in
      refused (bad ++ rest) enc λ accepted.
        crc16_ccitt_detects signed xs ys a b bytes q (omega (arith, la, lay.offset_fits)) ne (
          sym (sum_of_front good rest la)
          ∙ sum_of_accepted (good ++ rest) enc ok
          ∙ same_field
          ∙ sym accepted
          ∙ sum_of_front bad rest lb)
