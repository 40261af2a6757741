-- ===== src/Common/Bits.antt =====
-- The bitwise operators of C as operations on binary digits, at every width.
use Prim.Native.Nat.{ℕ, zero, suc, ◌+◌, ◌*◌, ◌/◌, ◌%◌, ◌^◌, ◌≤◌, ◌<◌, min, max}
use Prim.Native.Nat.{bit_and, bit_or, bit_xor, bitwise, digits, differ}
use Prim.Native.Nat.{bit_and-bitwise, bit_or-bitwise, bit_xor-bitwise}
use mathlib.Core.Path.{◌≡◌, refl, sym, ap, ap₂, ◌∙◌}
use native.Mathlib.Decide.{dec_lt}
use native.Mathlib.Nat.{le_refl, pow-suc}
use native.Mathlib.Omega.{arith}

-- The library defines the operators by a recursion on the digits with fuel. One unit of fuel more
-- than the number is the same, and so is any greater number of units.
module _ (high : ℕ → ℕ) (op : ℕ → ℕ → ℕ) where
  digits_one_more :
      (fuel x y : ℕ) → x ≤ fuel → digits high op (suc fuel) x y ≡ digits high op fuel x y
  digits_one_more zero zero y le = refl
  digits_one_more zero (suc x) y le = absurd (omega arith)
  digits_one_more (suc fuel) zero y le = refl
  digits_one_more (suc fuel) (suc x) y le =
      ap (λ t. t * 2 + op (suc x % 2) (y % 2))
        (digits_one_more fuel (suc x / 2) (y / 2) (omega arith))

  digits_least : (fuel x y : ℕ) → x ≤ fuel → digits high op fuel x y ≡ digits high op x x y
  digits_least fuel zero y le = digits_zero fuel y
    where
      digits_zero : (k z : ℕ) → digits high op k zero z ≡ digits high op zero zero z
      digits_zero zero z = refl
      digits_zero (suc k) z = refl
  digits_least zero (suc x) y le = absurd (omega arith)
  digits_least (suc fuel) (suc x) y le = elim (dec_lt x fuel) [
    | yes below ↦ digits_one_more fuel (suc x) y below ∙ digits_least fuel (suc x) y below
    | no same ↦ let e : fuel ≡ x = omega arith in ap (λ k. digits high op (suc k) (suc x) y) e
  ]

  bitwise_digit :
      (x y : ℕ)
      → bitwise high op (suc x) y ≡ op (suc x % 2) (y % 2) + 2 * bitwise high op (suc x / 2) (y / 2)
  bitwise_digit x y = omega (arith, digits_least x (suc x / 2) (y / 2) (omega arith))

pub bit_or_digit : (a b : ℕ) → bit_or a b ≡ max (a % 2) (b % 2) + 2 * bit_or (a / 2) (b / 2)
bit_or_digit zero b = simp bit_or-bitwise (omega arith)
bit_or_digit (suc a) b = simp bit_or-bitwise (bitwise_digit (λ y. y) max a b)

pub bit_and_digit : (a b : ℕ) → bit_and a b ≡ min (a % 2) (b % 2) + 2 * bit_and (a / 2) (b / 2)
bit_and_digit zero b = simp bit_and-bitwise (omega arith)
bit_and_digit (suc a) b = simp bit_and-bitwise (bitwise_digit (λ y. 0) min a b)

differ_digit : (a b : ℕ) → a < 2 → b < 2 → differ a b ≡ (a + b) % 2
differ_digit zero zero h k = refl
differ_digit zero (suc zero) h k = refl
differ_digit zero (suc (suc b)) h k = absurd (omega arith)
differ_digit (suc zero) zero h k = refl
differ_digit (suc zero) (suc zero) h k = refl
differ_digit (suc zero) (suc (suc b)) h k = absurd (omega arith)
differ_digit (suc (suc a)) b h k = absurd (omega arith)

pub bit_xor_digit : (a b : ℕ) → bit_xor a b ≡ bit_xor (a / 2) (b / 2) * 2 + (a % 2 + b % 2) % 2
bit_xor_digit zero b = simp bit_xor-bitwise (omega arith)
bit_xor_digit (suc a) b = simp bit_xor-bitwise (
    omega (
      arith,
      bitwise_digit (λ y. y) differ a b,
      differ_digit (suc a % 2) (b % 2) (omega arith) (omega arith),
    ))

-- Digit `k` of a number.
abbrev pub bit : ℕ → ℕ → ℕ
bit zero n = n % 2
bit (suc k) n = bit k (n / 2)

bit_or-half : (a b : ℕ) → bit_or a b / 2 ≡ bit_or (a / 2) (b / 2)
bit_or-half a b = omega (arith, bit_or_digit a b)

bit_and-half : (a b : ℕ) → bit_and a b / 2 ≡ bit_and (a / 2) (b / 2)
bit_and-half a b = omega (arith, bit_and_digit a b)

bit_xor-half : (a b : ℕ) → bit_xor a b / 2 ≡ bit_xor (a / 2) (b / 2)
bit_xor-half a b = omega (arith, bit_xor_digit a b)

pub bit-lt : (k n : ℕ) → bit k n < 2
bit-lt zero n = omega arith
bit-lt (suc k) n = bit-lt k (n / 2)

pub bit-bit_xor : (k a b : ℕ) → bit k (bit_xor a b) ≡ (bit k a + bit k b) % 2
bit-bit_xor zero a b = omega (arith, bit_xor_digit a b)
bit-bit_xor (suc k) a b = rw bit_xor-half (bit-bit_xor k (a / 2) (b / 2))

pub bit-bit_or : (k a b : ℕ) → bit k (bit_or a b) ≡ max (bit k a) (bit k b)
bit-bit_or zero a b = omega (arith, bit_or_digit a b)
bit-bit_or (suc k) a b = rw bit_or-half (bit-bit_or k (a / 2) (b / 2))

pub zero-bit_or : (b : ℕ) → bit_or 0 b ≡ b
zero-bit_or b = omega (arith, bit_or-bitwise 0 b)

pub bit_or_comm_fuel : (n a b : ℕ) → a ≤ n → b ≤ n → bit_or a b ≡ bit_or b a
bit_or_comm_fuel zero zero zero p q = refl
bit_or_comm_fuel zero zero (suc b) p q = absurd (omega arith)
bit_or_comm_fuel zero (suc a) b p q = absurd (omega arith)
bit_or_comm_fuel (suc n) a b p q = omega (
  arith,
  bit_or_digit a b,
  bit_or_digit b a,
  bit_or_comm_fuel n (a / 2) (b / 2) (omega arith) (omega arith),
)

pub bit_or_comm : (a b : ℕ) → bit_or a b ≡ bit_or b a
bit_or_comm a b = bit_or_comm_fuel (a + b) a b (omega arith) (omega arith)

pub bit_or-zero : (a : ℕ) → bit_or a 0 ≡ a
bit_or-zero a = bit_or_comm a 0 ∙ zero-bit_or a

pub mul-two_pow_suc : (q k : ℕ) → q * 2 ^ suc k ≡ q * 2 ^ k + q * 2 ^ k
mul-two_pow_suc q k = ap (◌*◌ q) (pow-suc 2 k) ∙ omega arith

-- `(q << k) | r` is a sum when `r` has `k` digits.
pub bit_or_low : (k q r : ℕ) → r < 2 ^ k → bit_or (q * 2 ^ k) r ≡ q * 2 ^ k + r
bit_or_low zero q r h = ground (arith, bit_or-zero q)
bit_or_low (suc k) q r h = ground (
  arith,
  bit_or_digit (q * 2 ^ suc k) r,
  mul-two_pow_suc q k,
  bit_or_low k q (r / 2) (omega arith),
)

-- `x |= m << k` into digits of `x` that are all zero, with digits set above them.
pub bit_or_middle :
    (k h l m p : ℕ)
    → l < 2 ^ k
    → bit_or (h * p) m ≡ h * p + m
    → bit_or (h * p * 2 ^ k + l) (m * 2 ^ k) ≡ h * p * 2 ^ k + l + m * 2 ^ k
bit_or_middle zero h l m p fits e = ground (arith, e)
bit_or_middle (suc k) h l m p fits e = ground (
  arith,
  bit_or_digit (h * p * 2 ^ suc k + l) (m * 2 ^ suc k),
  mul-two_pow_suc (h * p) k,
  mul-two_pow_suc m k,
  bit_or_middle k h (l / 2) m p (omega arith) e,
)

-- Laws of `^`.
pub bit_xor-zero_fuel : (n a : ℕ) → a ≤ n → bit_xor a 0 ≡ a
bit_xor-zero_fuel n zero h = refl
bit_xor-zero_fuel zero (suc a) h = absurd (omega arith)
bit_xor-zero_fuel (suc n) (suc a) h =
    omega (arith, bit_xor_digit (suc a) 0, bit_xor-zero_fuel n (suc a / 2) (omega arith))

pub bit_xor-zero : (a : ℕ) → bit_xor a 0 ≡ a
bit_xor-zero a = bit_xor-zero_fuel a a (omega arith)

bit_xor_comm_fuel : (n a b : ℕ) → a + b ≤ n → bit_xor a b ≡ bit_xor b a
bit_xor_comm_fuel zero zero zero h = refl
bit_xor_comm_fuel zero zero (suc b) h = absurd (omega arith)
bit_xor_comm_fuel zero (suc a) b h = absurd (omega arith)
bit_xor_comm_fuel (suc n) zero zero h = refl
bit_xor_comm_fuel (suc n) zero (suc b) h = omega (
  arith,
  bit_xor_digit 0 (suc b),
  bit_xor_digit (suc b) 0,
  bit_xor_comm_fuel n 0 (suc b / 2) (omega arith),
)
bit_xor_comm_fuel (suc n) (suc a) b h = omega (
  arith,
  bit_xor_digit (suc a) b,
  bit_xor_digit b (suc a),
  bit_xor_comm_fuel n (suc a / 2) (b / 2) (omega arith),
)

pub bit_xor_comm : (a b : ℕ) → bit_xor a b ≡ bit_xor b a
bit_xor_comm a b = bit_xor_comm_fuel (a + b) a b (omega arith)

bit_xor_assoc_fuel :
    (n a b c : ℕ) → a + b + c ≤ n → bit_xor (bit_xor a b) c ≡ bit_xor a (bit_xor b c)
bit_xor_assoc_fuel zero zero zero zero h = refl
bit_xor_assoc_fuel zero zero zero (suc c) h = absurd (omega arith)
bit_xor_assoc_fuel zero zero (suc b) c h = absurd (omega arith)
bit_xor_assoc_fuel zero (suc a) b c h = absurd (omega arith)
bit_xor_assoc_fuel (suc n) a b c h = elim (dec_lt (a + b + c) (suc n)) [
  | yes less ↦ bit_xor_assoc_fuel n a b c (omega arith)
  | no full ↦
      rw
        (
          bit_xor_digit (bit_xor a b) c,
          bit_xor_digit a (bit_xor b c),
          bit_xor-half a b,
          bit_xor-half b c,
          bit_xor_assoc_fuel n (a / 2) (b / 2) (c / 2) (omega arith),
        )
        (omega (arith, bit_xor_digit a b, bit_xor_digit b c))
]

pub bit_xor_assoc : (a b c : ℕ) → bit_xor (bit_xor a b) c ≡ bit_xor a (bit_xor b c)
bit_xor_assoc a b c = bit_xor_assoc_fuel (a + b + c) a b c (omega arith)

pub bit_xor_self_fuel : (n a : ℕ) → a ≤ n → bit_xor a a ≡ 0
bit_xor_self_fuel n zero h = refl
bit_xor_self_fuel zero (suc a) h = absurd (omega arith)
bit_xor_self_fuel (suc n) (suc a) h =
    omega (arith, bit_xor_digit (suc a) (suc a), bit_xor_self_fuel n (suc a / 2) (omega arith))

pub bit_xor_self : (a : ℕ) → bit_xor a a ≡ 0
bit_xor_self a = bit_xor_self_fuel a a (omega arith)

pub bit_xor-lt : (k a b : ℕ) → a < 2 ^ k → b < 2 ^ k → bit_xor a b < 2 ^ k
bit_xor-lt zero a b p q =
    let a0 : a ≡ 0 = omega arith in let b0 : b ≡ 0 = omega arith in rw (a0, b0) (omega arith)
bit_xor-lt (suc k) a b p q = omega (
  arith,
  pow-suc 2 k,
  bit_xor_digit a b,
  bit_xor-lt k (a / 2) (b / 2) (omega (arith, pow-suc 2 k)) (omega (arith, pow-suc 2 k)),
)

bit_and_nothing : (a room : ℕ) → a < room → bit_and a 0 ≡ 0
bit_and_nothing a zero fits = absurd (omega arith)
bit_and_nothing a (suc room) fits = elim (dec_lt 0 a) [
  | no none ↦ let e : a ≡ 0 = omega arith in rw e refl
  | yes some ↦ omega (arith, bit_and_digit a 0, bit_and_nothing (a / 2) room (omega arith))
]

pub bit_and-one : (a : ℕ) → bit_and a 1 ≡ a % 2
bit_and-one a = omega (arith, bit_and_digit a 1, bit_and_nothing (a / 2) (suc (a / 2)) (le_refl _))

-- `(block & (1 << k)) != 0` is digit `k`.
pub bit_and-two_pow : (k a : ℕ) → bit_and a (2 ^ k) ≡ bit k a * 2 ^ k
bit_and-two_pow zero a = omega (arith, bit_and-one a)
bit_and-two_pow (suc k) a = omega (
  arith,
  bit_and_digit a (2 ^ suc k),
  pow-suc 2 k,
  bit_and-two_pow k (a / 2),
  mul-two_pow_suc (bit k (a / 2)) k,
  ap (λ (t : ℕ). bit_and (a / 2) t) {x = 2 ^ suc k / 2} {y = 2 ^ k} (omega (arith, pow-suc 2 k)),
)

-- Digits above those of `b` pass through `^`.
pub bit_xor_low :
    (k q r b : ℕ) → r < 2 ^ k → b < 2 ^ k → bit_xor (q * 2 ^ k + r) b ≡ q * 2 ^ k + bit_xor r b
bit_xor_low zero q r b h l =
    let r0 : r ≡ 0 = omega arith in
    let b0 : b ≡ 0 = omega arith in
    rw (r0, b0) (omega (arith, bit_xor-zero (q * 1 + 0), bit_xor-zero 0))
bit_xor_low (suc k) q r b h l = omega (
  arith,
  bit_xor_digit (q * 2 ^ suc k + r) b,
  bit_xor_digit r b,
  mul-two_pow_suc q k,
  pow-suc 2 k,
  bit_xor_low k q (r / 2) (b / 2) (omega (arith, pow-suc 2 k)) (omega (arith, pow-suc 2 k)),
  ap (λ (t : ℕ). bit_xor t (b / 2)) {x = (q * 2 ^ suc k + r) / 2} {y = q * 2 ^ k + r / 2}
      (omega (arith, mul-two_pow_suc q k)),
)

pub bit_xor-mod_1024 : (a b : ℕ) → b < 1024 → bit_xor a b % 1024 ≡ bit_xor (a % 1024) b
bit_xor-mod_1024 a b h = omega (
  arith,
  bit_xor_low 10 (a / 1024) (a % 1024) b (omega arith) h,
  bit_xor-lt 10 (a % 1024) b (omega arith) h,
  ap (λ (t : ℕ). bit_xor t b) {x = a} {y = a / 1024 * 1024 + a % 1024} (omega arith),
)

-- The same for a number given as a multiple, on either side.
pub bit_or_sum : (k q a r : ℕ) → a ≡ q * 2 ^ k → r < 2 ^ k → bit_or a r ≡ a + r
bit_or_sum k q a r e h = rw e (bit_or_low k q r h)

pub bit_or_sum_right : (k q a r : ℕ) → a ≡ q * 2 ^ k → r < 2 ^ k → bit_or r a ≡ r + a
bit_or_sum_right k q a r e h = bit_or_comm r a ∙ bit_or_sum k q a r e h ∙ omega arith

-- Digits below those of both numbers pass through `|`.
pub bit_or_high :
    (k a b c : ℕ) → c < 2 ^ k → bit_or (a * 2 ^ k) (b * 2 ^ k + c) ≡ bit_or a b * 2 ^ k + c
bit_or_high zero a b c h =
    let none_below : c ≡ 0 = omega arith in
    ap₂ bit_or {x = a * 1} {y = a} {u = b * 1 + c} {v = b} (omega arith) (omega arith)
    ∙ omega (arith, none_below)
bit_or_high (suc k) a b c h = omega (
  arith,
  bit_or_digit (a * 2 ^ suc k) (b * 2 ^ suc k + c),
  mul-two_pow_suc a k,
  mul-two_pow_suc b k,
  mul-two_pow_suc (bit_or a b) k,
  bit_or_high k a b (c / 2) (omega (arith, pow-suc 2 k)),
  ap₂ bit_or {x = a * 2 ^ suc k / 2} {y = a * 2 ^ k} {u = (b * 2 ^ suc k + c) / 2}
      {v = b * 2 ^ k + c / 2} (omega (arith, mul-two_pow_suc a k))
      (omega (arith, mul-two_pow_suc b k)),
)

-- Setting digits above the fourth leaves the lowest four.
pub bit_or-mod_16 : (a q : ℕ) → bit_or a (q * 16) % 16 ≡ a % 16
bit_or-mod_16 a q = omega (
  arith,
  bit_or_comm a (q * 16),
  bit_or_high 4 q (a / 16) (a % 16) (omega arith),
  ap (bit_or (q * 16)) {x = a} {y = a / 16 * 16 + a % 16} (omega arith),
)

bit_or_again_fuel :
    (n a b c : ℕ) → a + b + c ≤ n → bit_or (bit_or (bit_or a b) c) b ≡ bit_or (bit_or a b) c
bit_or_again_fuel zero zero zero zero h = refl
bit_or_again_fuel zero zero zero (suc c) h = absurd (omega arith)
bit_or_again_fuel zero zero (suc b) c h = absurd (omega arith)
bit_or_again_fuel zero (suc a) b c h = absurd (omega arith)
bit_or_again_fuel (suc n) a b c h =
    let x = bit_or (bit_or a b) c in
    let halves : bit_or (x / 2) (b / 2) ≡ x / 2 =
      rw (bit_or-half (bit_or a b) c, bit_or-half a b)
        (bit_or_again_fuel n (a / 2) (b / 2) (c / 2) (omega arith)) in
    omega (arith, bit_or_digit x b, bit_or_digit (bit_or a b) c, bit_or_digit a b, halves)

-- Setting digits a second time changes nothing.
pub bit_or_again : (a b c : ℕ) → bit_or (bit_or (bit_or a b) c) b ≡ bit_or (bit_or a b) c
bit_or_again a b c = bit_or_again_fuel (a + b + c) a b c (omega arith)

pub bit_or_twice : (a b c : ℕ) → bit_or (bit_or (bit_or (bit_or a b) c) b) c ≡ bit_or (bit_or a b) c
bit_or_twice a b c =
    let x = bit_or (bit_or a b) c in
    ap (λ y. bit_or y c) (bit_or_again a b c ∙ sym (bit_or-zero x))
    ∙ bit_or_again (bit_or a b) c 0
    ∙ bit_or-zero x

-- Two numbers of two digits each to the base `2 ^ k`.
pub bit_xor_pair :
    (k a r b s : ℕ)
    → r < 2 ^ k
    → s < 2 ^ k
    → bit_xor (a * 2 ^ k + r) (b * 2 ^ k + s) ≡ bit_xor a b * 2 ^ k + bit_xor r s
bit_xor_pair zero a r b s h l =
    let r0 : r ≡ 0 = omega arith in
    let s0 : s ≡ 0 = omega arith in
    rw (r0, s0)
      (ap₂ bit_xor {x = a * 1 + 0} {y = a} {u = b * 1 + 0} {v = b} (omega arith) (omega arith)
        ∙ omega (arith, bit_xor-zero 0))
bit_xor_pair (suc k) a r b s h l = omega (
  arith,
  bit_xor_digit (a * 2 ^ suc k + r) (b * 2 ^ suc k + s),
  bit_xor_digit r s,
  mul-two_pow_suc a k,
  mul-two_pow_suc b k,
  mul-two_pow_suc (bit_xor a b) k,
  pow-suc 2 k,
  bit_xor_pair k a (r / 2) b (s / 2) (omega (arith, pow-suc 2 k)) (omega (arith, pow-suc 2 k)),
  ap₂ bit_xor {x = (a * 2 ^ suc k + r) / 2} {y = a * 2 ^ k + r / 2} {u = (b * 2 ^ suc k + s) / 2}
      {v = b * 2 ^ k + s / 2} (omega (arith, mul-two_pow_suc a k))
      (omega (arith, mul-two_pow_suc b k)),
)

-- `x & (2^k - 1)` keeps the lowest `k` digits.
pub bit_and_mask : (k q r m : ℕ) → r < 2 ^ k → m + 1 ≡ 2 ^ k → bit_and (q * 2 ^ k + r) m ≡ r
bit_and_mask zero q r m h e =
    let r0 : r ≡ 0 = omega arith in
    let m0 : m ≡ 0 = omega arith in
    rw (r0, m0) (bit_and_nothing (q * 1 + 0) (suc (q * 1 + 0)) (le_refl _))
bit_and_mask (suc k) q r m h e = omega (
  arith,
  bit_and_digit (q * 2 ^ suc k + r) m,
  mul-two_pow_suc q k,
  pow-suc 2 k,
  bit_and_mask k q (r / 2) (m / 2) (omega (arith, pow-suc 2 k)) (omega (arith, pow-suc 2 k)),
  ap (λ (t : ℕ). bit_and t (m / 2)) {x = (q * 2 ^ suc k + r) / 2} {y = q * 2 ^ k + r / 2}
      (omega (arith, mul-two_pow_suc q k)),
)

pub zero-bit_xor : (b : ℕ) → bit_xor 0 b ≡ b
zero-bit_xor b = bit_xor_comm 0 b ∙ bit_xor-zero b

-- A sum of separate digits is `^`.
pub add-eq-bit_xor : (k q r : ℕ) → r < 2 ^ k → q * 2 ^ k + r ≡ bit_xor (q * 2 ^ k) r
add-eq-bit_xor k q r h = omega (
  arith,
  bit_xor_low k q 0 r (omega (arith, h)) h,
  zero-bit_xor r,
  ap (λ (t : ℕ). bit_xor t r) {x = q * 2 ^ k + 0} {y = q * 2 ^ k} (omega arith),
)

pub bit_xor_right_comm : (a b c : ℕ) → bit_xor (bit_xor a b) c ≡ bit_xor (bit_xor a c) b
bit_xor_right_comm a b c =
    bit_xor_assoc a b c ∙ ap (bit_xor a) (bit_xor_comm b c) ∙ sym (bit_xor_assoc a c b)

pub bit_xor_double : (a b : ℕ) → bit_xor (a * 2) (b * 2) ≡ bit_xor a b * 2
bit_xor_double a b = omega (
  arith,
  bit_xor_digit (a * 2) (b * 2),
  ap₂ bit_xor {x = a * 2 / 2} {y = a} {u = b * 2 / 2} {v = b} (omega arith) (omega arith),
)

pub le-mul-two_pow : (k b : ℕ) → b ≤ b * 2 ^ k
le-mul-two_pow zero b = omega arith
le-mul-two_pow (suc k) b = omega (arith, le-mul-two_pow k b, mul-two_pow_suc b k)

pub bit_xor_cancel : (a c : ℕ) → bit_xor (bit_xor a c) c ≡ a
bit_xor_cancel a c = bit_xor_assoc a c c ∙ ap (bit_xor a) (bit_xor_self c) ∙ bit_xor-zero a

pub bit_xor_injective : (a b c : ℕ) → bit_xor a c ≡ bit_xor b c → a ≡ b
bit_xor_injective a b c e = sym (bit_xor_cancel a c) ∙ ap (λ t. bit_xor t c) e ∙ bit_xor_cancel b c
