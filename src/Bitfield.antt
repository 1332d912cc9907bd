-- ===== src/Bitfield.antt =====
-- Bit counts of src/util.c, and the comparison of two bitfields in src/btp.c. A `char` is its bit
-- pattern, a number below 256.
pub mod Count
pub mod Interest
use soft_sys_dubstep_ducks.Prelude.{
  ℕ, zero, suc, ◌+◌, ◌%◌, List, Bool, true, false, Outcome, ok, undefined, ◌>>=◌, load, bit_and,
  if◌then◌else◌, ◌==◌,
}

-- b &= b - 1 until b is 0, for a char with a bit pattern below 256: 8 rounds are enough.
unfoldable pub count_char_bits_loop : ℕ → ℕ → ℕ → ℕ
count_char_bits_loop zero b count = count
count_char_bits_loop (suc fuel) b count =
    let rest = count_char_bits_loop fuel (bit_and b ((b + 255) % 256)) (count + 1) in
    if b == 0 then count else rest

unfoldable pub count_char_bits : ℕ → ℕ
unfolding count_char_bits_loop
count_char_bits b = count_char_bits_loop 9 b 0

-- The loop over `bitfieldLen` bytes, from byte x on, with n to go.
unfoldable pub count_bits_from : List ℕ → ℕ → ℕ → ℕ → Outcome ℕ
unfolding count_char_bits
count_bits_from bitfield zero x count = ok count
count_bits_from bitfield (suc n) x count = do
  b ← load bitfield x
  count_bits_from bitfield n (x + 1) (count + count_char_bits b)

unfoldable pub count_bitfield_bits : List ℕ → ℕ → Outcome ℕ
unfolding count_bits_from
count_bitfield_bits bitfield bitfield_len = count_bits_from bitfield bitfield_len 0 0

-- Whether the peer has a bit that is not set in one's own buffer: byte by byte from x on, with n
-- bytes to go. What is printed on the way is left out.
unfoldable pub undownloaded_from : List ℕ → List ℕ → ℕ → ℕ → Outcome Bool
undownloaded_from peer_buffer own_buffer zero x = ok false
undownloaded_from peer_buffer own_buffer (suc n) x = do
  p ← load peer_buffer x
  o ← load own_buffer x
  let rest = undownloaded_from peer_buffer own_buffer n (x + 1)
  if bit_and p o == p then rest else ok true

unfoldable pub peer_contains_undownloaded_pieces : List ℕ → List ℕ → ℕ → Outcome Bool
unfolding undownloaded_from
peer_contains_undownloaded_pieces peer_buffer own_buffer bit_pieces =
    undownloaded_from peer_buffer own_buffer bit_pieces 0
