-- ===== src/Bencode/Ends/Reading.antt =====
-- The steps of the decoder of src/bencode.c that take no fuel: what they leave of the input.
use soft_sys_dubstep_ducks.Prelude.{
  ℕ, ◌+◌, ◌-◌, ◌*◌, ◌≤◌, ◌<◌, ◌≡◌, refl, List, [], ◌∷◌, Bool, true, false, ok, undefined, ◌>>=◌,
  Option, none, some, arith, length, length-drop, ℤ, pos_part, is_digit, if◌then◌else◌, ◌==◌, leb,
  read_at, Bool-cases, inl, inr,
}
use soft_sys_dubstep_ducks.Bencode.Cursor.{
  Cursor, peek, skip, is_space, read_digits, skip_spaces, read_sign, saturate, strtoll_signed,
  strtoll, be_decode_int,
}
use soft_sys_dubstep_ducks.Bencode.Decode.{be_decode_str, is_none}
use soft_sys_dubstep_ducks.Bencode.RoundTrip.Numbers.{skip_spaces_digit, read_sign_digit}
use soft_sys_dubstep_ducks.Bencode.Ends.{
  Ends, Ends-bind, Ends-if, Ends-mono, Ends-ok, Ends-undefined,
}

-- What is left of the input.
abbrev pub left : Cursor → ℕ
left c = length c.bytes

-- 1 for something, 0 for NULL.
abbrev pub weight {ℓ} : {A : Type ℓ} → Option A → ℕ
weight o = if is_none o then 0 else 1

-- The first byte of the input.
abbrev pub FirstIs : ℕ → List ℕ → Type 0
FirstIs b [] = ⊥
FirstIs b (x ∷ rest) = x ≡ b

pub FirstIs-length : (b : ℕ) (bs : List ℕ) → FirstIs b bs → 0 < length bs
FirstIs-length b [] f = absurd f
FirstIs-length b (x ∷ rest) f = omega arith

pub peek-Ends : (c : Cursor) → Ends (λ b. FirstIs b c.bytes) (peek c)
unfolding peek
peek-Ends c = go c.bytes
  where
    go : (bs : List ℕ) → Ends (λ b. FirstIs b bs) (elim bs [ [] ↦ undefined | b ∷ rest ↦ ok b ])
    go [] = Ends-undefined _
    go (b ∷ rest) = Ends-ok _ b refl

pub skip-Ends : (n : ℕ) (c : Cursor) → Ends (λ c'. left c' + n ≡ left c) (skip n c)
unfolding skip
skip-Ends n c = elim (Bool-cases (leb n (length c.bytes))) [
  | inl fits ↦ rw fits (Ends-ok _ _ (ground (arith, length-drop n c.bytes)))
  | inr over ↦ rw over (Ends-undefined _)
]

read_digits-Ends : (acc : ℕ) (bs : List ℕ) → Ends (λ r. length r.1 ≤ length bs) (read_digits acc bs)
unfolding read_digits
read_digits-Ends acc [] = Ends-undefined _
read_digits-Ends acc (c ∷ rest) =
    Ends-if _ (is_digit c) _ _
      (Ends-mono _ _ _ (read_digits-Ends (acc * 10 + (c - b'0')) rest) (λ r p. omega arith))
      (Ends-ok _ _ (omega arith))

skip_spaces-Ends : (bs : List ℕ) → Ends (λ r. length r ≤ length bs) (skip_spaces bs)
unfolding skip_spaces
skip_spaces-Ends [] = Ends-undefined _
skip_spaces-Ends (c ∷ rest) =
    Ends-if _ (is_space c) _ _ (Ends-mono _ _ _ (skip_spaces-Ends rest) (λ r p. omega arith))
      (Ends-ok _ _ (omega arith))

read_sign-le : (bs : List ℕ) → length (read_sign bs).1 ≤ length bs
unfolding read_sign
read_sign-le [] = omega arith
read_sign-le (c ∷ rest) = ground arith

strtoll_signed-Ends :
    (bs : List ℕ) (minus : Bool) (cs : List ℕ)
    → length cs ≤ length bs
    → Ends (λ r. length r.1 ≤ length bs) (strtoll_signed bs (minus, cs))
unfolding strtoll_signed
strtoll_signed-Ends bs minus [] h = Ends-undefined _
strtoll_signed-Ends bs minus (c ∷ rest) h =
    Ends-if _ (is_digit c) _ _
      (Ends-bind _ _ (read_digits 0 (c ∷ rest)) _ (read_digits-Ends 0 (c ∷ rest))
        (λ r p. Ends-ok _ _ (omega arith)))
      (Ends-ok _ _ (omega arith))

strtoll-Ends : (bs : List ℕ) → Ends (λ r. length r.1 ≤ length bs) (strtoll bs)
unfolding strtoll
strtoll-Ends bs = Ends-bind _ _ (skip_spaces bs) _ (skip_spaces-Ends bs) (λ unsigned p.
    strtoll_signed-Ends bs (read_sign unsigned).0 (read_sign unsigned).1
      (omega (arith, read_sign-le unsigned)))

pub be_decode_int-Ends : (c : Cursor) → Ends (λ r. left r.1 ≤ left c) (be_decode_int c)
unfolding be_decode_int
be_decode_int-Ends c =
    Ends-bind _ _ (strtoll c.bytes) _ (strtoll-Ends c.bytes) (λ r p. Ends-ok _ _ p)

-- Reading a block ends.
read_at-Ends : (bs : List ℕ) (i n : ℕ) → Ends (λ r. 0 ≤ i) (read_at bs i n)
unfolding read_at
read_at-Ends bs i n =
    Ends-if _ (leb (i + n) (length bs)) _ _ (Ends-ok _ _ (omega arith)) (Ends-undefined _)

-- A number that begins with a digit takes something of the input.
strtoll-takes :
    (b : ℕ) (bs : List ℕ)
    → FirstIs b bs
    → is_digit b ≡ true
    → Ends (λ r. length r.1 + 1 ≤ length bs) (strtoll bs)
strtoll-takes b [] f d = absurd f
strtoll-takes b (x ∷ rest) f d = rw read_first digits_taken
  where
    first : is_digit x ≡ true
    first = rw f d

    digits_taken :
        Ends {A = ℤ × List ℕ}
          (λ r. length r.1 + 1 ≤ length (x ∷ rest))
          (read_digits (0 * 10 + (x - b'0')) rest >>= λ r. ok (saturate false r.0, r.1))
    digits_taken =
        Ends-bind (λ (r : ℕ × List ℕ). length r.1 ≤ length rest) _
          (read_digits (0 * 10 + (x - b'0')) rest) _ (read_digits-Ends (0 * 10 + (x - b'0')) rest)
          (λ r p. Ends-ok _ _ (omega arith))

    read_first :
        strtoll (x ∷ rest)
        ≡ (read_digits (0 * 10 + (x - b'0')) rest >>= λ r. ok (saturate false r.0, r.1))
    read_first =
        unfold strtoll strtoll_signed read_digits in
        rw (skip_spaces_digit x rest first, read_sign_digit x rest first, first) refl

be_decode_int-takes :
    (b : ℕ) (c : Cursor)
    → FirstIs b c.bytes
    → is_digit b ≡ true
    → Ends (λ r. left r.1 + 1 ≤ left c) (be_decode_int c)
unfolding be_decode_int
be_decode_int-takes b c f d =
    Ends-bind _ _ (strtoll c.bytes) _ (strtoll-takes b c.bytes f d) (λ r p. Ends-ok _ _ p)

-- What a text leaves is at most what its length leaves, and less if it is found.
str_leaves :
    (k n : ℕ) (c : Cursor) (P : Option (List ℕ) × Cursor → Type 0)
    → Ends (λ r. left r.1 + k ≤ n) (be_decode_int c)
    → ((r : Option (List ℕ) × Cursor) → left r.1 + weight r.0 + k ≤ n → P r)
    → Ends P (be_decode_str c)
unfolding be_decode_str
str_leaves k n c P read fits = Ends-bind _ P (be_decode_int c) _ read (λ r p.
    Ends-if P _ _ _ (Ends-ok P (none, r.1) (fits (none, r.1) (omega arith))) (
      Ends-if P _ _ _ (Ends-ok P (none, r.1) (fits (none, r.1) (omega arith))) (
        Ends-bind _ P (peek r.1) _ (peek-Ends r.1) (λ first q.
          Ends-if P (first == b':') _ _
            (Ends-bind _ P (read_at r.1.bytes 1 (pos_part r.0)) _
              (read_at-Ends r.1.bytes 1 (pos_part r.0))
              (λ bytes s.
                Ends-bind _ P (skip (pos_part r.0 + 1) r.1) _ (skip-Ends (pos_part r.0 + 1) r.1)
                  (λ c₂ t. Ends-ok P (some bytes, c₂) (fits (some bytes, c₂) (omega arith)))))
            (Ends-ok P (none, r.1) (fits (none, r.1) (omega arith)))))))

-- A text that is found takes something of the input.
pub be_decode_str-Ends : (c : Cursor) → Ends (λ r. left r.1 + weight r.0 ≤ left c) (be_decode_str c)
be_decode_str-Ends c =
    str_leaves 0 (left c) c _ (Ends-mono _ _ _ (be_decode_int-Ends c) (λ r p. omega arith))
      (λ r p. omega arith)

-- So does one that is not, behind a digit.
pub be_decode_str-takes :
    (b : ℕ) (c : Cursor)
    → FirstIs b c.bytes
    → is_digit b ≡ true
    → Ends (λ r. left r.1 + 1 ≤ left c) (be_decode_str c)
be_decode_str-takes b c f d =
    str_leaves 1 (left c) c _ (be_decode_int-takes b c f d) (λ r p. omega arith)
