-- ===== src/Printing/Digits.antt =====
-- The digits that print_bits of src/util.c prints.
use soft_sys_dubstep_ducks.Prelude.{
  ℕ, zero, suc, ◌+◌, ◌<◌, ◌≡◌, refl, List, [], ◌∷◌, ◌++◌, true, ok, arith, length, load-append,
  append_assoc, length-append, bit, if◌then◌else◌, ◌==◌, All, all_below, all_below-true, holds_from,
  ==_iff,
}
use soft_sys_dubstep_ducks.Bitfield.Count.{total_bits, bit_sum}
use soft_sys_dubstep_ducks.Printing.{bits_from, print_bits_from, print_bits}

-- How often 1 is printed.
unfoldable pub ones : List ℕ → ℕ
ones [] = 0
ones (c ∷ cs) = if c == b'1' then ones cs + 1 else ones cs

ones-append : (xs ys : List ℕ) → ones (xs ++ ys) ≡ ones xs + ones ys
unfolding ones
ones-append [] ys = omega arith
ones-append (x ∷ xs) ys = ground (arith, ones-append xs ys)

byte_table : all_below 256 (λ b. ones (bits_from b 8) == bit_sum 8 b) ≡ true
unfolding holds_from ones bits_from bit_sum bit
byte_table = refl

ones-bits_from : (b : ℕ) → b < 256 → ones (bits_from b 8) ≡ bit_sum 8 b
ones-bits_from b h = (==_iff _ _).0 (all_below-true 256 _ b byte_table h)

print_bits_from-ones :
    (before bytes rest : List ℕ) (i n : ℕ)
    → i ≡ length before
    → n ≡ length bytes
    → All (λ b. b < 256) bytes
    → (printed : List ℕ) × (print_bits_from (before ++ (bytes ++ rest)) i n ≡ ok printed)
      × (ones printed ≡ total_bits bytes)
unfolding print_bits_from total_bits ones
print_bits_from-ones before [] rest i zero e k h = (b'\n' ∷ [], refl, refl)
print_bits_from-ones before [] rest i (suc n) e k h = absurd (omega arith)
print_bits_from-ones before (b ∷ bytes) rest i zero e k h = absurd (omega arith)
print_bits_from-ones before (b ∷ bytes) rest i (suc n) e k h =
    let ih =
      print_bits_from-ones (before ++ b ∷ []) bytes rest (i + 1) n
        (omega (arith, length-append before (b ∷ []))) (omega arith) h.1 in
    (
      bits_from b 8 ++ 32 ∷ ih.0,
      rw (load-append before b (bytes ++ rest) i e, (rw append_assoc at ih.1)),
      rw (ones-append (bits_from b 8) (32 ∷ ih.0), ones-bits_from b h.0, ih.2),
    )

-- Among what is printed of the first bytes of a block there are as many characters 1 as bits that are
-- set in them.
pub print_bits-ones :
    (bytes rest : List ℕ)
    → All (λ b. b < 256) bytes
    → (printed : List ℕ) × (print_bits (bytes ++ rest) (length bytes) ≡ ok printed)
      × (ones printed ≡ total_bits bytes)
unfolding print_bits
print_bits-ones bytes rest h = print_bits_from-ones [] bytes rest 0 (length bytes) refl refl h
