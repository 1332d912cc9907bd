-- ===== src/Prelude/Bits.antt =====
-- Bits of a number, and the bitwise operations bit by bit.
use Prim.Native.Nat.{
  ℕ, zero, suc, ◌+◌, ◌*◌, ◌/◌, ◌%◌, ◌≤◌, min, max, bit_and, bit_or, digits, bit_and-bitwise,
  bit_or-bitwise,
}
use mathlib.Core.Path.{◌≡◌, refl}
use native.Mathlib.Omega.{arith}

-- (x >> j) & 1
unfoldable pub bit : ℕ → ℕ → ℕ
bit zero x = x % 2
bit (suc j) x = bit j (x / 2)

pub bit-le : (j x : ℕ) → bit j x ≤ 1
unfolding bit
bit-le zero x = omega arith
bit-le (suc j) x = bit-le j (x / 2)

pub bit-zero : (j : ℕ) → bit j 0 ≡ 0
unfolding bit
bit-zero zero = refl
bit-zero (suc j) = bit-zero j

-- Numbers with the same bits are equal.
bits-ext : (n a b : ℕ) → a ≤ n → b ≤ n → ((j : ℕ) → bit j a ≡ bit j b) → a ≡ b
unfolding bit
bits-ext zero a b p q same = omega arith
bits-ext (suc n) a b p q same =
    let lowest = same 0 in
    let rest = bits-ext n (a / 2) (b / 2) (omega arith) (omega arith) (λ j. same (suc j)) in
    omega arith

halve : (x d : ℕ) → d ≤ 1 → (x * 2 + d) / 2 ≡ x
halve x d h = omega arith

lowest_digit : (x d : ℕ) → d ≤ 1 → (x * 2 + d) % 2 ≡ d
lowest_digit x d h = omega arith

-- A recursion on binary digits works bit by bit, if it does so on single digits and where its first
-- number has none left.
module _ (z : ℕ → ℕ) (f : ℕ → ℕ → ℕ) (single : (x y : ℕ) → x ≤ 1 → y ≤ 1 → f x y ≤ 1)
    (ended : (j b : ℕ) → bit j (z b) ≡ f 0 (bit j b)) where
  digit-le : (a b : ℕ) → f (a % 2) (b % 2) ≤ 1
  digit-le a b = single (a % 2) (b % 2) (omega arith) (omega arith)

  bit-digits : (j n a b : ℕ) → a ≤ n → bit j (digits z f n a b) ≡ f (bit j a) (bit j b)
  unfolding bit
  bit-digits j zero zero b h = rw (bit-zero j) (ended j b)
  bit-digits j zero (suc a) b h = absurd (omega arith)
  bit-digits j (suc n) zero b h = rw (bit-zero j) (ended j b)
  bit-digits zero (suc n) (suc a) b h =
      lowest_digit (digits z f n (suc a / 2) (b / 2)) (f (suc a % 2) (b % 2)) (digit-le (suc a) b)
  bit-digits (suc j) (suc n) (suc a) b h =
      rw (halve (digits z f n (suc a / 2) (b / 2)) (f (suc a % 2) (b % 2)) (digit-le (suc a) b))
        (bit-digits j n (suc a / 2) (b / 2) (omega arith))

pub bit-bit_and : (j a b : ℕ) → bit j (bit_and a b) ≡ min (bit j a) (bit j b)
bit-bit_and j a b = rw (bit_and-bitwise a b) (
    bit-digits (λ c. zero) min (λ x y p q. omega arith) (λ i c. rw (bit-zero i) (omega arith)) j a a
      b (omega arith))

pub bit-bit_or : (j a b : ℕ) → bit j (bit_or a b) ≡ max (bit j a) (bit j b)
bit-bit_or j a b =
    rw (bit_or-bitwise a b)
      (bit-digits (λ c. c) max (λ x y p q. omega arith) (λ i c. omega arith) j a a b (omega arith))

-- Equal bits, as an equation of the numbers.
ext : (a b : ℕ) → ((j : ℕ) → bit j a ≡ bit j b) → a ≡ b
ext a b same = bits-ext (a + b) a b (omega arith) (omega arith) same

-- The lowest digit, and the others.
pub bit_and_step : (a b : ℕ) → bit_and a b ≡ bit_and (a / 2) (b / 2) * 2 + min (a % 2) (b % 2)
unfolding bit
bit_and_step a b = ext _ _ by_digit
  where
    by_digit :
        (j : ℕ) → bit j (bit_and a b) ≡ bit j (bit_and (a / 2) (b / 2) * 2 + min (a % 2) (b % 2))
    by_digit zero = omega (arith, bit-bit_and 0 a b)
    by_digit (suc j) =
        rw
          (
            halve (bit_and (a / 2) (b / 2)) (min (a % 2) (b % 2)) (omega arith),
            bit-bit_and j (a / 2) (b / 2),
          )
          (bit-bit_and (suc j) a b)

pub zero-bit_and : (b : ℕ) → bit_and 0 b ≡ 0
zero-bit_and b = ext _ _ (λ j. omega (arith, bit-bit_and j 0 b, bit-zero j))

pub bit_and-zero : (a : ℕ) → bit_and a 0 ≡ 0
bit_and-zero a = ext _ _ (λ j. omega (arith, bit-bit_and j a 0, bit-zero j))

pub bit_or-zero : (a : ℕ) → bit_or a 0 ≡ a
bit_or-zero a = ext _ _ (λ j. omega (arith, bit-bit_or j a 0, bit-zero j))
