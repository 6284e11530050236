-- ===== src/Base/Words.antt =====
-- Arithmetic of `uint8_t`, reduced modulo 2^8 on each assignment.
use Prim.Native.Nat.{ℕ, ◌+◌, ◌-◌, ◌%◌}

abbrev pub u8 : ℕ → ℕ
u8 n = n % 256

abbrev pub add8 : ℕ → ℕ → ℕ
add8 a b = (a + b) % 256

-- For values below 256, as a `uint8_t` holds.
abbrev pub sub8 : ℕ → ℕ → ℕ
sub8 a b = (a + 256 - b) % 256
