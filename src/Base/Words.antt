-- ===== src/Base/Words.antt =====
-- Go's fixed-width integers: a byte and a uint16 are numbers below 2 ^ 8 and 2 ^ 16, and a
-- conversion keeps the low bits.
use Prim.Native.Nat.{ℕ, ◌%◌, ◌<◌}

abbrev pub u8 : ℕ → ℕ
u8 n = n % 256

abbrev pub u16 : ℕ → ℕ
u16 n = n % 65536

abbrev pub IsByte : ℕ → Type 0
IsByte b = b < 256

abbrev pub IsU16 : ℕ → Type 0
IsU16 n = n < 65536
