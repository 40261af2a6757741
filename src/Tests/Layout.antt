-- ===== src/Tests/Layout.antt =====
-- A layout that stores whole files: each list behind its length. The sum stands first and covers nothing.
use rds.Common.{ℕ, zero, suc, ◌≡◌, refl, ap, List, [], ◌∷◌, arith, length, get_or, drop}
use rds.Model.{RdsAfs, RdsEon, RdsData, zero_encoder}
use rds.Store.{Layout, EncoderFile}
use rds.System.Invariant.{Loads}

-- How a value is put before a list of numbers, and taken from it again.
pub record Codec (A : Type 0) : Type 0 where
  pub put : A → List ℕ → List ℕ
  pub get : List ℕ → A × List ℕ
  pub get-put : (a : A) (rest : List ℕ) → get (put a rest) ≡ (a, rest)

pub take_number : List ℕ → ℕ × List ℕ
take_number [] = (0, [])
take_number (n ∷ rest) = (n, rest)

abbrev pub number : Codec ℕ
unfolding take_number
number = record { put = λ n rest. n ∷ rest; get = take_number; get-put = λ n rest. refl }

module _ {A : Type 0} (c : Codec A) where
  pub put_all : List A → List ℕ → List ℕ
  put_all [] rest = rest
  put_all (x ∷ xs) rest = c.put x (put_all xs rest)

  pub get_all : ℕ → List ℕ → List A × List ℕ
  get_all zero rest = ([], rest)
  get_all (suc n) bytes =
      let (x, rest) = c.get bytes in let (xs, rest') = get_all n rest in (x ∷ xs, rest')

  pub get_all-put_all :
      (xs : List A) (rest : List ℕ) → get_all (length xs) (put_all xs rest) ≡ (xs, rest)
  unfolding get_all put_all
  get_all-put_all [] rest = refl
  get_all-put_all (x ∷ xs) rest =
      rw (get_all, c.get-put x (put_all xs rest), get_all-put_all xs rest) refl

  pub get_list : List ℕ → List A × List ℕ
  get_list [] = ([], [])
  get_list (n ∷ rest) = get_all n rest

  abbrev pub list : Codec (List A)
  unfolding get_list
  list = record {
    put = λ xs rest. length xs ∷ put_all xs rest;
    get = get_list;
    get-put = get_all-put_all;
  }

-- A type whose values are told by those of another.
abbrev pub by :
    {A B : Type 0} → Codec A → (f : B → A) → (g : A → B) → ((b : B) → g (f b) ≡ b) → Codec B
by c f g same = record {
  put = λ b rest. c.put (f b) rest;
  get = λ bytes. let (a, rest) = c.get bytes in (g a, rest);
  get-put = λ b rest. rw (c.get-put (f b) rest, same b) refl;
}

abbrev pub both : {A B : Type 0} → Codec A → Codec B → Codec (A × B)
both c d = record {
  put = λ (a, b) rest. c.put a (d.put b rest);
  get = λ bytes. let (a, rest) = c.get bytes in let (b, rest') = d.get rest in ((a, b), rest');
  get-put = λ (a, b) rest. rw (c.get-put a (d.put b rest), d.get-put b rest) refl;
}

abbrev pub afs : Codec RdsAfs
afs =
    by (list number) (λ (a : RdsAfs). a.num_entries ∷ a.num_afs ∷ a.afs)
      (λ xs. record { num_entries = get_or xs 0 0; num_afs = get_or xs 1 0; afs = drop 2 xs })
      (λ a. refl)

abbrev pub eon : Codec RdsEon
eon =
    by (both (list (list number)) afs)
      (λ (e : RdsEon). ((e.pi ∷ e.enabled ∷ e.ta ∷ e.tp ∷ e.pty ∷ e.word ∷ []) ∷ e.ps ∷ [], e.af))
      (λ (xs, a).
        let n = get_or xs 0 [] in
        record {
          pi = get_or n 0 0;
          enabled = get_or n 1 0;
          ta = get_or n 2 0;
          tp = get_or n 3 0;
          pty = get_or n 4 0;
          ps = get_or xs 1 [];
          af = a;
          word = get_or n 5 0;
        })
      (λ e. refl)

abbrev pub settings : Codec RdsData
settings =
    by (both (list (list number)) (both afs (list eon)))
      (λ (d : RdsData). (
        (d.pi ∷ d.ecc ∷ d.slc_data ∷ d.ta ∷ d.pty ∷ d.tp ∷ d.dpty ∷ d.rt_enabled ∷ d.ptyn_enabled
              ∷ d.ct ∷ d.grp_sqc_len ∷ d.grp_sqc_rds2_len ∷ [])
            ∷ d.ps
            ∷ d.rt
            ∷ d.tps
            ∷ d.ptyn
            ∷ d.lps
            ∷ d.grp_sqc
            ∷ d.grp_sqc_rds2
            ∷ d.lua_data
            ∷ [],
        (d.af, d.eon),
      ))
      (λ (xs, (a, es)).
        let n = λ (i : ℕ). get_or (get_or xs 0 []) i 0 in
        let text = λ (i : ℕ). get_or xs i [] in
        record {
          pi = n 0;
          ps = text 1;
          rt = text 2;
          ecc = n 1;
          slc_data = n 2;
          ta = n 3;
          pty = n 4;
          tp = n 5;
          dpty = n 6;
          tps = text 3;
          rt_enabled = n 7;
          ptyn_enabled = n 8;
          ptyn = text 4;
          af = a;
          ct = n 9;
          lps = text 5;
          grp_sqc_len = n 10;
          grp_sqc = text 6;
          grp_sqc_rds2_len = n 11;
          grp_sqc_rds2 = text 7;
          eon = es;
          lua_data = text 8;
        })
      (λ d. refl)

abbrev pub file : Codec EncoderFile
file =
    by (both (list number) (list settings))
      (λ (f : EncoderFile). (
        f.crc ∷ f.file_starter ∷ f.file_middle ∷ f.program ∷ f.streams ∷ f.file_ender ∷ [],
        f.settings,
      ))
      (λ (xs, ds). record {
        file_starter = get_or xs 1 0;
        settings = ds;
        file_middle = get_or xs 2 0;
        program = get_or xs 3 0;
        streams = get_or xs 4 0;
        file_ender = get_or xs 5 0;
        crc = get_or xs 0 0;
      })
      (λ f. refl)

abbrev pub whole : Layout
whole = record {
  image = λ (f : EncoderFile). file.put f [];
  view = λ bytes. (file.get bytes).0;
  encoder_view = λ _. zero_encoder;
  crc_offset = 0;
  IsStorable = Loads;
  offset_fits = omega arith;
  view-image = λ f l. ap (λ (r : EncoderFile × List ℕ). r.0) (file.get-put f []);
  image_before_crc = λ f x. refl;
  crc_of_view = λ xs ys e. ap (λ t. (file.get t).0.crc) e;
}
