-- ===== src/Prelude/Words.antt =====
-- A 32-bit int in memory, on a little-endian machine.
use Prim.Native.Nat.{ℕ, ◌+◌, ◌*◌, ◌/◌, ◌%◌, ◌^◌, ◌<◌}
use mathlib.Core.Path.{◌≡◌}
use mathlib.Core.List.{List, [], ◌∷◌}
use native.Mathlib.Omega.{arith}

-- The four bytes of an int, whose bit pattern is a number below 2 ^ 32.
abbrev pub int_bytes : ℕ → List ℕ
int_bytes n = (n % 256) ∷ (n / 256 % 256) ∷ (n / 65536 % 256) ∷ (n / 16777216 % 256) ∷ []

-- The bit pattern that four bytes make.
abbrev pub bytes_int : List ℕ → ℕ
bytes_int [] = 0
bytes_int (b ∷ bs) = b + 256 * bytes_int bs

pub bytes_int-int_bytes : (n : ℕ) → n < 2 ^ 32 → bytes_int (int_bytes n) ≡ n
bytes_int-int_bytes n h = omega arith
