-- ===== src/Printing.antt =====
-- print_bits and print_hex_memory of src/util.c: what they print of the first bytes of a block.
pub mod Digits
use soft_sys_dubstep_ducks.Prelude.{
  ℕ, zero, suc, ◌+◌, ◌-◌, ◌*◌, ◌/◌, ◌%◌, List, [], ◌∷◌, ◌++◌, Outcome, ok, undefined, ◌>>=◌, load,
  bit, if◌then◌else◌, ltb,
}

-- %x of a number below 16.
unfoldable pub hex_digit : ℕ → ℕ
hex_digit d = if ltb d 10 then b'0' + d else b'a' + (d - 10)

-- From byte i on, with n to go.
unfoldable pub print_hex_from : List ℕ → ℕ → ℕ → Outcome (List ℕ)
unfolding hex_digit
print_hex_from mem i zero = ok (b'\n' ∷ [])
print_hex_from mem i (suc n) = do
  p ← load mem i
  rest ← print_hex_from mem (i + 1) n
  ok (b'0' ∷ b'x' ∷ hex_digit (p / 16) ∷ hex_digit (p % 16) ∷ 32 ∷ rest)

unfoldable pub print_hex_memory : List ℕ → ℕ → Outcome (List ℕ)
unfolding print_hex_from
print_hex_memory mem size = print_hex_from mem 0 size

-- (ptr[i] >> j) & 1, from bit j - 1 down to bit 0.
unfoldable pub bits_from : ℕ → ℕ → List ℕ
bits_from b zero = []
bits_from b (suc j) = (b'0' + bit j b) ∷ bits_from b j

unfoldable pub print_bits_from : List ℕ → ℕ → ℕ → Outcome (List ℕ)
unfolding bits_from
print_bits_from buf i zero = ok (b'\n' ∷ [])
print_bits_from buf i (suc n) = do
  b ← load buf i
  rest ← print_bits_from buf (i + 1) n
  ok (bits_from b 8 ++ 32 ∷ rest)

unfoldable pub print_bits : List ℕ → ℕ → Outcome (List ℕ)
unfolding print_bits_from
print_bits buf size_in_bytes = print_bits_from buf 0 size_in_bytes
