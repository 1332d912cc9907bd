-- ===== src/Bencode/RoundTrip/Numbers.antt =====
-- strtoll, as src/bencode.c calls it, on decimals.
use soft_sys_dubstep_ducks.Prelude.{
  ℕ, zero, suc, ◌+◌, ◌-◌, ◌*◌, ◌/◌, ◌≤◌, ◌<◌, ◌≡◌, refl, ap, List, [], ◌∷◌, ◌++◌, true, false, ok,
  length, ℤ, pos, negsuc, decimal, decimal_from, is_digit, digits_value, digits_value-decimal,
  decimal-digits, All, arith, ◌==◌, ltb, Bool-cases, inl, inr, length-append, pos-sub,
}
use soft_sys_dubstep_ducks.Bencode.Cursor.{
  strtoll, strtoll_signed, read_digits, skip_spaces, read_sign, saturate, is_space, be_decode_int,
}
use soft_sys_dubstep_ducks.Bencode.Print.{IsLong, print_int}

read_digits-append :
    (acc : ℕ) (ds : List ℕ) (c : ℕ) (rest : List ℕ)
    → All (λ d. is_digit d ≡ true) ds
    → is_digit c ≡ false
    → read_digits acc (ds ++ c ∷ rest) ≡ ok (digits_value acc ds, c ∷ rest)
unfolding read_digits digits_value
read_digits-append acc [] c rest h k = rw k
read_digits-append acc (d ∷ ds) c rest h k =
    rw h.0 (read_digits-append (acc * 10 + (d - b'0')) ds c rest h.1 k)

-- A decimal begins with a digit.
abbrev pub DigitFirst : List ℕ → Type 0
DigitFirst xs = (d : ℕ) × (ds : List ℕ) × (xs ≡ d ∷ ds) × (is_digit d ≡ true)

append-DigitFirst : (xs ys : List ℕ) → DigitFirst xs → DigitFirst (xs ++ ys)
append-DigitFirst xs ys (d, ds, e, h) = (d, ds ++ ys, ap (λ l. l ++ ys) e, h)

decimal_from-DigitFirst : (fuel n : ℕ) → n < fuel → DigitFirst (decimal_from fuel n)
unfolding decimal_from
decimal_from-DigitFirst zero n h = absurd (omega arith)
decimal_from-DigitFirst (suc fuel) n h = elim (Bool-cases (ltb n 10)) [
  | inl small ↦ (b'0' + n, [], rw small, ground arith)
  | inr large ↦ rw large (
      append-DigitFirst (decimal_from fuel (n / 10)) _
        (decimal_from-DigitFirst fuel (n / 10) (ground arith)))
]

pub decimal-DigitFirst : (n : ℕ) → DigitFirst (decimal n)
unfolding decimal
decimal-DigitFirst n = decimal_from-DigitFirst (n + 1) n (omega arith)

-- A digit is no space and no sign.
digit_plain :
    (d : ℕ)
    → is_digit d ≡ true
    → (is_space d ≡ false) × ((d == b'-') ≡ false) × ((d == b'+') ≡ false)
digit_plain d h = ground arith

pub skip_spaces_digit :
    (d : ℕ) (ds : List ℕ) → is_digit d ≡ true → skip_spaces (d ∷ ds) ≡ ok (d ∷ ds)
unfolding skip_spaces
skip_spaces_digit d ds h = rw (digit_plain d h).0

pub read_sign_digit :
    (d : ℕ) (ds : List ℕ) → is_digit d ≡ true → read_sign (d ∷ ds) ≡ (false, d ∷ ds)
unfolding read_sign
read_sign_digit d ds h = rw ((digit_plain d h).1, (digit_plain d h).2)

strtoll_plain_cons :
    (d : ℕ) (ds rest : List ℕ) (c : ℕ)
    → All (λ d. is_digit d ≡ true) (d ∷ ds)
    → is_digit c ≡ false
    → strtoll (d ∷ (ds ++ c ∷ rest)) ≡ ok (saturate false (digits_value 0 (d ∷ ds)), c ∷ rest)
unfolding strtoll strtoll_signed
strtoll_plain_cons d ds rest c all k = rw (
  skip_spaces_digit d (ds ++ c ∷ rest) all.0,
  read_sign_digit d (ds ++ c ∷ rest) all.0,
  all.0,
  read_digits-append 0 (d ∷ ds) c rest all k,
)

strtoll_minus_cons :
    (d : ℕ) (ds rest : List ℕ) (c : ℕ)
    → All (λ d. is_digit d ≡ true) (d ∷ ds)
    → is_digit c ≡ false
    → strtoll (b'-' ∷ d ∷ (ds ++ c ∷ rest)) ≡ ok (saturate true (digits_value 0 (d ∷ ds)), c ∷ rest)
unfolding strtoll strtoll_signed
strtoll_minus_cons d ds rest c all k =
    rw (minus_skipped, minus_read, all.0, read_digits-append 0 (d ∷ ds) c rest all k)
  where
    minus_skipped : skip_spaces (b'-' ∷ d ∷ (ds ++ c ∷ rest)) ≡ ok (b'-' ∷ d ∷ (ds ++ c ∷ rest))
    minus_skipped = unfold skip_spaces in refl

    minus_read : read_sign (b'-' ∷ d ∷ (ds ++ c ∷ rest)) ≡ (true, d ∷ (ds ++ c ∷ rest))
    minus_read = unfold read_sign in refl

strtoll_plain :
    (xs rest : List ℕ) (c : ℕ)
    → DigitFirst xs
    → All (λ d. is_digit d ≡ true) xs
    → is_digit c ≡ false
    → strtoll (xs ++ c ∷ rest) ≡ ok (saturate false (digits_value 0 xs), c ∷ rest)
strtoll_plain xs rest c (d, ds, e, h) all k = rw e (strtoll_plain_cons d ds rest c (rw e at all) k)

strtoll_minus :
    (xs rest : List ℕ) (c : ℕ)
    → DigitFirst xs
    → All (λ d. is_digit d ≡ true) xs
    → is_digit c ≡ false
    → strtoll (b'-' ∷ (xs ++ c ∷ rest)) ≡ ok (saturate true (digits_value 0 xs), c ∷ rest)
strtoll_minus xs rest c (d, ds, e, h) all k = rw e (strtoll_minus_cons d ds rest c (rw e at all) k)

-- A printed integer is read back, up to the next character that is no digit.
pub strtoll-print_int :
    (n : ℤ) (rest : List ℕ) (c : ℕ)
    → IsLong n
    → is_digit c ≡ false
    → strtoll (print_int n ++ c ∷ rest) ≡ ok (n, c ∷ rest)
strtoll-print_int (pos n) rest c h k =
    rw
      (
        strtoll_plain (decimal n) rest c (decimal-DigitFirst n) (decimal-digits n) k,
        digits_value-decimal n,
      )
      (unfold saturate in ground arith)
strtoll-print_int (negsuc n) rest c h k =
    let one : n + 1 ≡ suc n = omega arith in
    rw
      (
        strtoll_minus (decimal (n + 1)) rest c (decimal-DigitFirst (n + 1)) (decimal-digits (n + 1))
            k,
        digits_value-decimal (n + 1),
        one,
      )
      (unfold saturate in ground arith)

-- The cursor behind a printed integer.
pub be_decode_int-print_int :
    (n : ℤ) (rest : List ℕ) (c len : ℕ)
    → IsLong n
    → is_digit c ≡ false
    → length (print_int n) ≤ len
    → be_decode_int (record { bytes = print_int n ++ c ∷ rest; data_len = pos len })
      ≡ ok (n, record { bytes = c ∷ rest; data_len = pos (len - length (print_int n)) })
unfolding be_decode_int
be_decode_int-print_int n rest c len h k room =
    let taken : length (print_int n ++ c ∷ rest) - length (c ∷ rest) ≡ length (print_int n) =
      omega (arith, length-append (print_int n) (c ∷ rest)) in
    rw (strtoll-print_int n rest c h k, taken, pos-sub len (length (print_int n)) room)
