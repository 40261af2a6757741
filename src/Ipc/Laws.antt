-- ===== src/Ipc/Laws.antt =====
-- What the modulator gets for a group: every bit of it, differentially coded.
use rds.Common.{ℕ, zero, suc, ◌+◌, ◌-◌, ◌*◌, ◌/◌, ◌%◌, ◌^◌, ◌≤◌, ◌<◌, List, [], ◌∷◌}
use native.Mathlib.Decide.{ℕ_discrete}
use rds.Common.{◌≡◌, ◌≢◌, refl, sym, ap, ap₂, ◌∙◌, arith, true, false, ◌==◌, ==_iff, Bool-cases}
use rds.Common.{all_below, all_below_sound, replicate, inl, inr}
use rds.Common.{if◌then◌else◌, length, get_or, set, bit, bit_or, bit_xor, bit-bit_or, max}
use rds.Common.{get_or-set_self, get_or-set_ne, length-set, bit_xor-lt}
use rds.Common.{bit_xor-zero, bit_xor_comm, bit_xor_assoc, bit_xor_self}
use rds.Groups.{is_set}
use rds.Checkword.Burst.{IsBits}
use rds.Ipc.{encode_bits, bits_message, IpcClient}

-- Bit `k` of a row of bytes, each from its highest digit on.
abbrev pub bit_of : List ℕ → ℕ → ℕ
bit_of bytes k = bit (7 - k % 8) (get_or bytes (k / 8) 0)

-- The running sum of the bits, which is what differential coding sends.
abbrev pub running : ℕ → List ℕ → List ℕ
running prev [] = []
running prev (b ∷ bs) = bit_xor prev b ∷ running (bit_xor prev b) bs

mask_table :
    all_below 64 (λ n. bit (7 - n / 8) (0x80 / 2 ^ (n % 8)) == (if n / 8 == n % 8 then 1 else 0))
    ≡ true
unfolding all_below
mask_table = refl

mask_digit : (a b : ℕ) → a < 8 → b < 8 → bit (7 - a) (0x80 / 2 ^ b) ≡ (if a == b then 1 else 0)
mask_digit a b h k =
    let row : (a * 8 + b) / 8 ≡ a = omega arith in
    let column : (a * 8 + b) % 8 ≡ b = omega arith in
    rw (row, column) at ((==_iff _ _).0 (all_below_sound 64 (a * 8 + b) _ mask_table (omega arith)))

-- One more bit is stored into a free place, and the others stay.
stored : List ℕ → ℕ → ℕ → List ℕ
stored packed i cur =
    let byte = bit_or (get_or packed (i / 8) 0) (0x80 / 2 ^ (i % 8)) in
    if is_set cur then set packed (i / 8) byte else packed

-- A byte gets one more digit; digits of other bytes are not touched.
bit_of-set_same :
    (packed : List ℕ) (i k : ℕ)
    → i < 8 * length packed
    → k / 8 ≡ i / 8
    → bit_of (stored packed i 1) k ≡ max (bit_of packed k) (if k % 8 == i % 8 then 1 else 0)
unfolding stored
bit_of-set_same packed i k fits e =
    let old = get_or packed (i / 8) 0 in
    let byte = bit_or old (0x80 / 2 ^ (i % 8)) in
    let digit = 7 - k % 8 in
    ap (λ q. bit digit (get_or (set packed (i / 8) byte) q 0)) e
    ∙ ap (bit digit) (get_or-set_self packed (i / 8) byte 0 (omega arith))
    ∙ bit-bit_or digit old (0x80 / 2 ^ (i % 8))
    ∙ ap₂ max (ap (λ q. bit digit (get_or packed q 0)) (sym e))
        (mask_digit (k % 8) (i % 8) (omega arith) (omega arith))

bit_of-set_other :
    (packed : List ℕ) (i k : ℕ) → k / 8 ≢ i / 8 → bit_of (stored packed i 1) k ≡ bit_of packed k
unfolding stored
bit_of-set_other packed i k ne = ap (bit (7 - k % 8)) (
    get_or-set_ne packed (i / 8) (k / 8) (bit_or (get_or packed (i / 8) 0) (0x80 / 2 ^ (i % 8))) 0
      (λ e. ne (sym e)))

bit_of-stored_one :
    (packed : List ℕ) (i k : ℕ)
    → i < 8 * length packed
    → bit_of packed i ≡ 0
    → bit_of (stored packed i 1) k ≡ (if k == i then 1 else bit_of packed k)
bit_of-stored_one packed i k fits free = elim (ℕ_discrete (k / 8) (i / 8)) [
  | yes e ↦ elim (Bool-cases (k == i)) [
    | inl same ↦
        let at : k ≡ i = (==_iff k i).0 same in
        rw (same, bit_of-set_same packed i k fits e, at, free) (ground arith)
    | inr other ↦
        let apart : (k % 8 == i % 8) ≡ false = ground arith in
        rw (other, bit_of-set_same packed i k fits e, apart) (omega arith)
  ]
  | no ne ↦ let apart : (k == i) ≡ false = ground arith in rw apart (bit_of-set_other packed i k ne)
]

bit_of-stored :
    (packed : List ℕ) (i cur k : ℕ)
    → i < 8 * length packed
    → cur < 2
    → bit_of packed i ≡ 0
    → bit_of (stored packed i cur) k ≡ (if k == i then cur else bit_of packed k)
bit_of-stored packed i zero k fits lt free = elim (Bool-cases (k == i)) [
  | inl same ↦ let at : k ≡ i = (==_iff k i).0 same in rw same (unfold stored in (rw at free))
  | inr other ↦ rw other (unfold stored in refl)
]
bit_of-stored packed i (suc zero) k fits lt free = bit_of-stored_one packed i k fits free
bit_of-stored packed i (suc (suc c)) k fits lt free = absurd (omega arith)

length-stored : (packed : List ℕ) (i cur : ℕ) → length (stored packed i cur) ≡ length packed
unfolding stored
length-stored packed i cur = elim (Bool-cases (is_set cur)) [
  | inl one ↦ rw one (length-set packed (i / 8) _)
  | inr other ↦ rw other
]

get_or-zeros : (n i : ℕ) → get_or {A = ℕ} (replicate n 0) i 0 ≡ 0
get_or-zeros zero i = refl
get_or-zeros (suc n) zero = refl
get_or-zeros (suc n) (suc i) = get_or-zeros n i

bit-zero : (k : ℕ) → bit k 0 ≡ 0
bit-zero zero = refl
bit-zero (suc k) = bit-zero k

-- The last of the running sums.
abbrev pub last_sum : ℕ → List ℕ → ℕ
last_sum prev [] = prev
last_sum prev (b ∷ bs) = last_sum (bit_xor prev b) bs

-- What the loop has done when it stops, started at bit `i` of a row that is free from there on.
record Encoded (bits : List ℕ) (i prev : ℕ) (packed : List ℕ) (out : ℕ × List ℕ) : Type 0 where
  last : out.0 ≡ last_sum prev bits
  same_length : length out.1 ≡ length packed
  before : (k : ℕ) → k < i → bit_of out.1 k ≡ bit_of packed k
  sums : (j : ℕ) → j < length bits → bit_of out.1 (i + j) ≡ get_or (running prev bits) j 0

module _ (bits : List ℕ) (i prev raw : ℕ) (packed : List ℕ) (out : ℕ × List ℕ) where
  abbrev cur : ℕ
  cur = bit_xor prev raw

  Encoded-cons :
      Encoded bits (i + 1) cur (stored packed i cur) out
      → length (stored packed i cur) ≡ length packed
      → ((k : ℕ) → k ≢ i → bit_of (stored packed i cur) k ≡ bit_of packed k)
      → bit_of (stored packed i cur) i ≡ cur
      → Encoded (raw ∷ bits) i prev packed out
  Encoded-cons rest same apart here = record {
    last = rest.last;
    same_length = rest.same_length ∙ same;
    before = λ k h. rest.before k (omega arith) ∙ apart k (omega arith);
    sums = sums;
  }
    where
      sums :
          (j : ℕ)
          → j < length (raw ∷ bits)
          → bit_of out.1 (i + j) ≡ get_or (running prev (raw ∷ bits)) j 0
      sums zero h =
          ap (bit_of out.1) {x = i + 0} {y = i} (omega arith) ∙ rest.before i (omega arith) ∙ here
      sums (suc j) h =
          ap (bit_of out.1) {x = i + suc j} {y = i + 1 + j} (omega arith)
          ∙ rest.sums j (omega arith)

encode_bits-Encoded :
    (bits : List ℕ) (i prev : ℕ) (packed : List ℕ)
    → IsBits bits
    → prev < 2
    → i + length bits ≤ 8 * length packed
    → ((k : ℕ) → i ≤ k → bit_of packed k ≡ 0)
    → Encoded bits i prev packed (encode_bits bits i prev packed)
unfolding encode_bits stored
encode_bits-Encoded [] i prev packed b lt fits free = record {
  last = refl;
  same_length = refl;
  before = λ k h. refl;
  sums = λ j h. absurd (omega arith);
}
encode_bits-Encoded (raw ∷ bits) i prev packed b lt fits free =
    let cur = bit_xor prev raw in
    let cur_lt : cur < 2 = bit_xor-lt 1 prev raw lt b.0 in
    let next = stored packed i cur in
    let at = λ (k : ℕ). bit_of-stored packed i cur k (omega arith) cur_lt (free i (omega arith)) in
    let apart =
      λ (k : ℕ) (ne : k ≢ i). let other : (k == i) ≡ false = ground arith in rw other at (at k) in
    let rest =
      encode_bits-Encoded bits (i + 1) cur next b.1 cur_lt
        (omega (arith, length-stored packed i cur))
        (λ k h. apart k (omega arith) ∙ free k (omega arith)) in
    Encoded-cons bits i prev raw packed (encode_bits bits (i + 1) cur next) rest
      (length-stored packed i cur) apart
      (let self : (i == i) ≡ true = ground arith in rw self at (at i))

-- The running sums are digits, and each differs from the one before by the bit that it codes.
running_lem :
    (bits : List ℕ) (prev j : ℕ)
    → j < length bits
    → bit_xor (get_or (running prev bits) j 0) (get_or (prev ∷ running prev bits) j 0)
      ≡ get_or bits j 0
running_lem [] prev j h = absurd (omega arith)
running_lem (b ∷ bits) prev zero h =
    bit_xor_comm (bit_xor prev b) prev
    ∙ sym (bit_xor_assoc prev prev b)
    ∙ ap (λ t. bit_xor t b) (bit_xor_self prev)
    ∙ bit_xor_comm 0 b
    ∙ bit_xor-zero b
running_lem (b ∷ bits) prev (suc j) h = running_lem bits (bit_xor prev b) j (omega arith)

last_sum_lem :
    (bits : List ℕ) (prev : ℕ)
    → last_sum prev bits ≡ get_or (prev ∷ running prev bits) (length bits) 0
last_sum_lem [] prev = refl
last_sum_lem (b ∷ bits) prev = last_sum_lem bits (bit_xor prev b)

no_bits : (k : ℕ) → bit_of (replicate 13 0) k ≡ 0
no_bits k = ap (bit (7 - k % 8)) (get_or-zeros 13 (k / 8)) ∙ bit-zero (7 - k % 8)

module _ {bits : List ℕ} {prev : ℕ} {packed : List ℕ} {out : ℕ × List ℕ}
    (done : Encoded bits 0 prev packed out) where
  sum_at : (k : ℕ) → k < length bits → bit_of out.1 k ≡ get_or (running prev bits) k 0
  sum_at k h = ap (bit_of out.1) {x = k} {y = 0 + k} (omega arith) ∙ done.sums k h

  decode_Encoded :
      (k : ℕ)
      → k < length bits
      → bit_xor (bit_of out.1 k) (if k == 0 then prev else bit_of out.1 (k - 1)) ≡ get_or bits k 0
  decode_Encoded zero h = ap (λ t. bit_xor t prev) (sum_at 0 h) ∙ running_lem bits prev 0 h
  decode_Encoded (suc k) h =
      let more : (suc k == 0) ≡ false = ground arith in
      rw more (
        ap₂ bit_xor (sum_at (suc k) h)
          (ap (bit_of out.1) {x = suc k - 1} {y = k} (omega arith) ∙ sum_at k (omega arith))
        ∙ running_lem bits prev (suc k) h)

  last_Encoded : (n : ℕ) → length bits ≡ suc n → out.0 ≡ bit_of out.1 n
  last_Encoded n e =
      done.last
      ∙ last_sum_lem bits prev
      ∙ ap (λ k. get_or (prev ∷ running prev bits) k 0) e
      ∙ sym (sum_at n (omega arith))

-- The message for a group of 104 bits is the opcode 112, the stream and 13 bytes. Taking each of
-- its bits together with the one before it by exclusive or, the first together with the last bit
-- that the client has stored for this stream, gives back the bits of the group; and the client
-- then has stored the last bit of the message.
pub bits_message_lem :
    (client : IpcClient) (stream : ℕ) (bits : List ℕ)
    → IsBits bits
    → length bits ≡ 104
    → get_or client.prev_output stream 0 < 2
    → stream < length client.prev_output
    → let (client', message) = bits_message client stream bits in
      let start = get_or client.prev_output stream 0 in
      (bytes : List ℕ) × (message ≡ 112 ∷ stream ∷ bytes)
      × (length bytes ≡ 13)
      × ((k : ℕ)
          → k < 104
          → bit_xor (bit_of bytes k) (if k == 0 then start else bit_of bytes (k - 1))
            ≡ get_or bits k 0)
      × (get_or client'.prev_output stream 0 ≡ bit_of bytes 103)
unfolding bits_message
bits_message_lem client stream bits b len lt fits =
    let start = get_or client.prev_output stream 0 in
    let out = encode_bits bits 0 start (replicate 13 0) in
    let done =
      encode_bits-Encoded bits 0 start (replicate 13 0) b lt (omega arith) (λ k h. no_bits k) in
    (
      out.1,
      refl,
      done.same_length,
      λ k h. decode_Encoded done k (omega arith),
      get_or-set_self client.prev_output stream out.0 0 fits ∙ last_Encoded done 103 len,
    )
