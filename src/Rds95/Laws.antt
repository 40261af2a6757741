-- ===== src/Rds95/Laws.antt =====
-- The deadlines do not drift, and a reader finds the blocks in what is printed.
use rds.Common.{ℕ, zero, suc, ◌+◌, ◌-◌, ◌*◌, ◌/◌, ◌%◌, ◌≤◌, ◌<◌, ◌≡◌, refl, ap₂, ◌∙◌, arith}
use rds.Common.{
  List, [], ◌∷◌, none, some, if◌then◌else◌, leb, ltb, length, get_or, Bool-cases, inl, inr,
}
use native.Mathlib.Nat.{suc-mul}
use rds.Model.{RdsGroup}
use rds.Checkword.{get_block_from_group}
use package.rds.Rds95.{hex_digit, hex4, starts, ascii_group}
use package.rds.Rds95.Deadline.{Timespec, carry, next_deadline, deadlines, second}

abbrev time : ℕ → ℕ → Timespec
time sec nsec = record { tv_sec = sec; tv_nsec = nsec }

-- The loop ends with enough fuel, and then it has divided.
carry_lem :
    (fuel sec nsec : ℕ)
    → nsec / 1000000000 ≤ fuel
    → carry fuel (time sec nsec) ≡ time (sec + nsec / 1000000000) (nsec % 1000000000)
unfolding carry
carry_lem zero sec nsec h = ap₂ time (omega arith) (omega arith)
carry_lem (suc fuel) sec nsec h = elim (Bool-cases (leb second nsec)) [
  | inl more ↦
      let enough : second ≤ nsec = ground arith in
      simp more (
        carry_lem fuel (sec + 1) (nsec - second) (omega arith)
        ∙ ap₂ time (omega arith) (omega arith))
  | inr done ↦
      let few : nsec < second = ground arith in simp done (ap₂ time (omega arith) (omega arith))
]

-- The nanoseconds on the clock.
abbrev pub nanoseconds : Timespec → ℕ
nanoseconds t = t.tv_sec * 1000000000 + t.tv_nsec

next_deadline_lem :
    (interval : ℕ) (now t : Timespec)
    → let due = next_deadline interval now (some t) in
      (nanoseconds due ≡ nanoseconds t + interval) × (due.tv_nsec < 1000000000)
unfolding next_deadline
next_deadline_lem interval now t =
    let nsec = t.tv_nsec + interval in
    rw (carry_lem (nsec / 1000000000 + 1) t.tv_sec nsec (omega arith)) (omega arith, omega arith)

later :
    (interval : ℕ) (clock : List Timespec) (t : Timespec)
    → t.tv_nsec < 1000000000
    → (u : Timespec) × (deadlines interval clock (some t) ≡ some u)
      × (nanoseconds u ≡ nanoseconds t + length clock * interval)
      × (u.tv_nsec < 1000000000)
unfolding deadlines
later interval [] t h = (t, refl, omega arith, h)
later interval (now ∷ clock) t h =
    let (step, small) = next_deadline_lem interval now t in
    let due = next_deadline interval now (some t) in
    let (u, reached, total, below) = later interval clock due small in
    let one_more : length (now ∷ clock) * interval ≡ length clock * interval + interval =
      suc-mul (length clock) interval in
    (u, reached, omega (arith, total, step, one_more), below)

-- However late the calls come, and whatever the clock says at the later ones: each call ends, and after
-- `n` calls the deadline is `n` intervals behind the time of the first, to the nanosecond, with its
-- nanoseconds below one second.
pub deadlines_lem :
    (interval : ℕ) (now : Timespec) (clock : List Timespec)
    → (u : Timespec) × (deadlines interval (now ∷ clock) none ≡ some u)
      × (nanoseconds u ≡ nanoseconds now + length (now ∷ clock) * interval)
      × (u.tv_nsec < 1000000000)
unfolding deadlines next_deadline
deadlines_lem interval now clock =
    let (step, small) = next_deadline_lem interval now now in
    let due = next_deadline interval now (some now) in
    let (u, reached, total, below) = later interval clock due small in
    let one_more : length (now ∷ clock) * interval ≡ length clock * interval + interval =
      suc-mul (length clock) interval in
    (u, reached, omega (arith, total, step, one_more), below)

-- What a reader makes of a digit, and of the four digits from position `i` on.
abbrev pub hex_value : ℕ → ℕ
hex_value c = if ltb c 0x3a then c - 0x30 else c - 0x37

abbrev pub word_at : List ℕ → ℕ → ℕ
word_at text i =
    let digit = λ (k : ℕ). hex_value (get_or text (i + k) 0) in
    digit 0 * 4096 + digit 1 * 256 + digit 2 * 16 + digit 3

hex_value-hex_digit : (d : ℕ) → d < 16 → hex_value (hex_digit d) ≡ d
unfolding hex_digit
hex_value-hex_digit d h = ground arith

hex_word :
    (w : ℕ)
    → w < 65536
    → hex_value (hex_digit (w / 4096 % 16)) * 4096
        + hex_value (hex_digit (w / 256 % 16)) * 256
        + hex_value (hex_digit (w / 16 % 16)) * 16
        + hex_value (hex_digit (w % 16))
      ≡ w
hex_word w h = omega (
  arith,
  hex_value-hex_digit (w / 4096 % 16) (omega arith),
  hex_value-hex_digit (w / 256 % 16) (omega arith),
  hex_value-hex_digit (w / 16 % 16) (omega arith),
  hex_value-hex_digit (w % 16) (omega arith),
)

-- Blocks of 16 bits, and the text that is printed for them on a stream.
pub record IsWords (g : RdsGroup) : Type 0 where
  pub a : g.a < 65536
  pub b : g.b < 65536
  pub c : g.c < 65536
  pub d : g.d < 65536

pub record IsText (i : ℕ) (g : RdsGroup) (text : List ℕ) : Type 0 where
  pub size : length text ≡ 24
  pub stream : get_or text 0 0 ≡ 0x47 + i
  pub a : word_at text 4 ≡ g.a
  pub b : word_at text 8 ≡ g.b
  pub c : word_at text 12 ≡ g.c
  pub d : word_at text 16 ≡ g.d

started :
    (i letter : ℕ) (g : RdsGroup)
    → get_or starts i [] ≡ letter ∷ 0x3a ∷ 0x0d ∷ 0x0a ∷ []
    → letter ≡ 0x47 + i
    → IsWords g
    → IsText i g (ascii_group i g)
unfolding ascii_group hex4 get_block_from_group
started i letter g start same v = rw start (record {
  size = refl;
  stream = same;
  a = hex_word g.a v.a;
  b = hex_word g.b v.b;
  c = hex_word g.c v.c;
  d = hex_word g.d v.d;
})

-- For the streams 0 to 3 the text of a group has 24 characters: the letter of the stream, and the four
-- blocks, each as the four digits that a reader turns back into it.
pub ascii_group-IsText : (i : ℕ) (g : RdsGroup) → i < 4 → IsWords g → IsText i g (ascii_group i g)
ascii_group-IsText zero g h v = started 0 0x47 g refl refl v
ascii_group-IsText (suc zero) g h v = started 1 0x48 g refl refl v
ascii_group-IsText (suc (suc zero)) g h v = started 2 0x49 g refl refl v
ascii_group-IsText (suc (suc (suc zero))) g h v = started 3 0x4a g refl refl v
ascii_group-IsText (suc (suc (suc (suc i)))) g h v = absurd (omega arith)
