-- ===== src/Bitfield/Count.antt =====
-- Kernighan's count of src/util.c against the number of bits that are set.
use soft_sys_dubstep_ducks.Prelude.{
  ℕ, zero, suc, ◌+◌, ◌/◌, ◌%◌, ◌<◌, ◌≡◌, refl, List, [], ◌∷◌, ◌++◌, true, ok, arith, length, ◌==◌,
  ==_iff, all_below, all_below-true, holds_from, All, length-append, append_assoc, load-append, ap,
  ◌∙◌,
}
use native.Mathlib.Nat.{add_assoc}
use soft_sys_dubstep_ducks.Bitfield.{count_char_bits, count_bits_from, count_bitfield_bits}

-- The sum of the n lowest bits.
unfoldable pub bit_sum : ℕ → ℕ → ℕ
bit_sum zero b = 0
bit_sum (suc n) b = b % 2 + bit_sum n (b / 2)

count_table : all_below 256 (λ b. count_char_bits b == bit_sum 8 b) ≡ true
unfolding holds_from count_char_bits bit_sum
count_table = refl

-- For every byte the loop ends within its fuel with the number of bits that are set.
pub count_char_bits_lem : (b : ℕ) → b < 256 → count_char_bits b ≡ bit_sum 8 b
count_char_bits_lem b h = (==_iff _ _).0 (all_below-true 256 _ b count_table h)

-- The bits that are set in a list of bytes.
unfoldable pub total_bits : List ℕ → ℕ
total_bits [] = 0
total_bits (b ∷ bs) = bit_sum 8 b + total_bits bs

count_bits_from-total :
    (before bytes rest : List ℕ) (n x count : ℕ)
    → n ≡ length bytes
    → x ≡ length before
    → All (λ b. b < 256) bytes
    → count_bits_from (before ++ (bytes ++ rest)) n x count ≡ ok (count + total_bits bytes)
unfolding count_bits_from total_bits
count_bits_from-total before [] rest zero x count e k h = ap ok (omega arith)
count_bits_from-total before [] rest (suc n) x count e k h = absurd (omega arith)
count_bits_from-total before (b ∷ bytes) rest zero x count e k h = absurd (omega arith)
count_bits_from-total before (b ∷ bytes) rest (suc n) x count e k h =
    let ih =
      count_bits_from-total (before ++ b ∷ []) bytes rest n (x + 1) (count + bit_sum 8 b)
        (omega arith) (omega (arith, length-append before (b ∷ []))) h.1 in
    rw
      (
        load-append before b (bytes ++ rest) x k,
        count_char_bits_lem b h.0,
        ← add_assoc count (bit_sum 8 b) (total_bits bytes),
      )
      (rw append_assoc at ih)

-- The count over the first bytes of a bitfield is the number of bits that are set in them.
pub count_bitfield_bits_lem :
    (bytes rest : List ℕ)
    → All (λ b. b < 256) bytes
    → count_bitfield_bits (bytes ++ rest) (length bytes) ≡ ok (total_bits bytes)
unfolding count_bitfield_bits
count_bitfield_bits_lem bytes rest h =
    count_bits_from-total [] bytes rest (length bytes) 0 0 refl refl h ∙ ap ok (omega arith)
