-- ===== src/Model/Char.antt =====
-- Characters in integer expressions. Whether `char` is signed is the platform's choice, and the
-- build does not set it: `signed` is true on x86, false on ARM.
use rds.Common.{ℕ, ◌+◌, ◌*◌, ◌%◌, ◌^◌, ltb, ◌&&◌, Bool, if◌then◌else◌, bit_or}

-- The low 16 bits of a `char` promoted to `int`: a signed one from 0x80 on is extended by ones.
abbrev pub promote : Bool → ℕ → ℕ
promote signed c = if signed && ltb 127 c then c + 0xff00 else c

-- `hi << 8 | lo`, stored in 16 bits.
unfoldable pub char_pair : Bool → ℕ → ℕ → ℕ
char_pair signed hi lo = bit_or (promote signed hi * 2 ^ 8 % 2 ^ 16) (promote signed lo)
