-- ===== src/Base/Words.antt =====
-- The fixed widths of C: a value is a number, a cast or a wrap is a remainder.
use Prim.Native.Nat.{ℕ, ◌+◌, ◌-◌, ◌%◌}

abbrev pub u8 : ℕ → ℕ
u8 n = n % 256

abbrev pub u16 : ℕ → ℕ
u16 n = n % 65536

abbrev pub u32 : ℕ → ℕ
u32 n = n % 4294967296

-- Wrapping differences; the modulus is added first, since `-` on ℕ stops at 0.
abbrev pub sub16 : ℕ → ℕ → ℕ
sub16 a b = u16 (a + 65536 - b)

abbrev pub sub32 : ℕ → ℕ → ℕ
sub32 a b = u32 (a + 4294967296 - b)
