-- ===== src/Api/EonValid.antt =====
-- `lua_set_rds_eon` keeps what the functions rely on.
use rds.Common.{ℕ, zero, suc, ◌%◌, ◌^◌, ◌<◌, ◌≡◌, refl, ap, sym, ◌∙◌, arith}
use rds.Common.{List, [], ◌∷◌, Bool, false, Option, none, some, length, get_or, set, All}
use rds.Common.{if◌then◌else◌, leb, ◌==◌, length-set, Bool-cases, inl, inr}
use mathlib.Core.Path.{subst}
use rds.Model.{RdsEon, eons, zero_eon}
use package.rds.Api.{Action, ◌>>=◌}
use package.rds.Api.Fields.{bit_of}
use package.rds.Api.Eon.{
  NotNegative, Entry, absent, given, EonTable, strncpy, change_eon, set_entry, eon_index,
}
use package.rds.Api.Eon.{lua_set_rds_eon}
use package.rds.Api.Valid.{IsEon, Fits, IsSized}
use package.rds.Api.Valid.{All-set, All-get_or, sizes, eon_numbers, zero_eon-IsEon}
use package.rds.Api.Preserve.{Preserves, check-Preserves, change_settings-Preserves}
use package.rds.Api.Invariant.{af_of_table-Preserves}

length-strncpy : (n : ℕ) (src : List ℕ) → length (strncpy n src) ≡ n
unfolding strncpy
length-strncpy zero src = refl
length-strncpy (suc n) [] = ap suc (length-strncpy n [])
length-strncpy (suc n) (c ∷ cs) = elim (Bool-cases (c == 0)) [
  | inl nul ↦ rw nul (ap suc (length-strncpy n []))
  | inr char ↦ rw char (ap suc (length-strncpy n cs))
]

change_eon-Preserves :
    (i : ℕ) (f : RdsEon → RdsEon)
    → ((e : RdsEon) → IsEon e → IsEon (f e))
    → Preserves (change_eon i f)
change_eon-Preserves i f h =
    change_settings-Preserves (λ d. record d { eon = set d.eon i (f (get_or d.eon i zero_eon)) })
      λ d v.
        let e = f (get_or d.eon i zero_eon) in
        let (_, (_, (_, (_, (_, (_, (count, _))))))) = v.sizes in
        record {
          integers = v.integers;
          flags = v.flags;
          sizes =
              All-set IsSized (sizes d) 6 (length (set d.eon i e), 4) v.sizes
                (length-set d.eon i e ∙ count);
          af = v.af;
          eon =
              All-set IsEon d.eon i e v.eon
                (h _ (All-get_or IsEon d.eon i zero_eon v.eon zero_eon-IsEon));
        }

-- An entry of the table, which may be absent.
entry-Preserves :
    {A : Type 0} {B : Type 0} (entry : Entry A) (put : A → RdsEon → RdsEon) (i : ℕ)
    → ((a : A) (e : RdsEon) → IsEon e → IsEon (put a e))
    → (f : Unit {0} → Action B) → Preserves (f tt)
    → Preserves (set_entry entry put i >>= f)
entry-Preserves absent put i h f k s v = k s v
entry-Preserves (given none) put i h f k s v = v
entry-Preserves (given (some a)) put i h f k s v = k _ (change_eon-Preserves i (put a) (h a) s v)

-- The number at a position of `eon_numbers`.
number-IsEon :
    (e e' : RdsEon) (i n w : ℕ)
    → IsEon e
    → n < 2 ^ w
    → eon_numbers e' ≡ set (eon_numbers e) i (n, w)
    → IsEon (record e' { ps = e.ps; af = e.af })
number-IsEon e e' i n w v h same = record {
  numbers = subst (All Fits) (sym same) (All-set Fits (eon_numbers e) i (n, w) v.numbers h);
  ps = v.ps;
  af = v.af;
}

eon_index-Preserves :
    {B : Type 0} (arg : Option ℕ) (f : ℕ → Action B)
    → ((i : ℕ) → Preserves (f i))
    → Preserves (eon_index arg >>= f)
eon_index-Preserves none f h s v = v
eon_index-Preserves (some n) f h s v =
    let low = n % 2 ^ 32 in
    elim (Bool-cases (if leb (2 ^ 31) low then false else leb eons low)) [
      | inl past ↦ rw past v
      | inr inside ↦ rw inside (h low s v)
    ]

pub lua_set_rds_eon-Preserves :
    (arg1 : Option ℕ) (inside : NotNegative arg1) (arg2 : Option EonTable)
    → Preserves (lua_set_rds_eon arg1 inside arg2)
unfolding lua_set_rds_eon
lua_set_rds_eon-Preserves arg1 inside arg2 =
    let bit : (b : Bool) → bit_of b < 2 ^ 1 = λ b. ground arith in
    eon_index-Preserves arg1 _ λ i. check-Preserves arg2 _ λ t.
      entry-Preserves t.enabled (λ b e. record e { enabled = bit_of b }) i
        (λ b e v. number-IsEon e (record e { enabled = bit_of b }) 0 (bit_of b) 1 v (bit b) refl) _
        (entry-Preserves t.tp (λ b e. record e { tp = bit_of b }) i
          (λ b e v. number-IsEon e (record e { tp = bit_of b }) 1 (bit_of b) 1 v (bit b) refl) _
          (entry-Preserves t.ta (λ b e. record e { ta = bit_of b }) i
            (λ b e v. number-IsEon e (record e { ta = bit_of b }) 2 (bit_of b) 1 v (bit b) refl) _
            (entry-Preserves t.pi (λ n e. record e { pi = n % 2 ^ 16 }) i
              (λ n e v.
                number-IsEon e (record e { pi = n % 2 ^ 16 }) 3 (n % 2 ^ 16) 16 v (omega arith)
                  refl)
              _
              (entry-Preserves t.pty (λ n e. record e { pty = n % 2 ^ 5 }) i
                (λ n e v.
                  number-IsEon e (record e { pty = n % 2 ^ 5 }) 4 (n % 2 ^ 5) 5 v (omega arith)
                    refl)
                _
                (entry-Preserves t.word (λ n e. record e { word = n % 2 ^ 16 }) i
                  (λ n e v.
                    number-IsEon e (record e { word = n % 2 ^ 16 }) 5 (n % 2 ^ 16) 16 v
                      (omega arith) refl)
                  _
                  (entry-Preserves t.ps (λ text e. record e { ps = strncpy 8 text }) i
                    (λ text e v. record {
                      numbers = v.numbers;
                      ps = length-strncpy 8 text;
                      af = v.af;
                    })
                    _
                    (af_of_table-Preserves t.afs _ λ af h.
                      change_eon-Preserves i (λ e. record e { af = af })
                        λ e v. record { numbers = v.numbers; ps = v.ps; af = h })))))))
