-- ===== src/Bencode/Cursor.antt =====
-- The place in the input of src/bencode.c: `*data`, as the bytes from there to the end of the block
-- that it points into, and `*data_len`. Numbers are read by strtoll; a `long long` is an integer.
use soft_sys_dubstep_ducks.Prelude.{
  ℕ, zero, suc, ◌+◌, ◌-◌, ◌*◌, ◌^◌, List, [], ◌∷◌, Bool, true, false, ◌||◌, ◌&&◌, Outcome, ok,
  undefined, ◌>>=◌, length, drop, min, ℤ, pos, negsuc, ◌-ℤ◌, is_digit, if◌then◌else◌, ◌==◌, leb,
}

pub record Cursor : Type 0 where
  pub bytes : List ℕ
  pub data_len : ℤ

-- **data; at the end of the block there is nothing to read.
unfoldable pub peek : Cursor → Outcome ℕ
peek c = elim c.bytes [ [] ↦ undefined | b ∷ rest ↦ ok b ]

-- data += n and data_len -= n.
unfoldable pub skip : ℕ → Cursor → Outcome Cursor
skip n c =
    if leb n (length c.bytes)
    then ok (record { bytes = drop n c.bytes; data_len = c.data_len -ℤ pos n })
    else undefined

-- isspace in the C locale.
abbrev pub is_space : ℕ → Bool
is_space c = c == 32 || leb 9 c && leb c 13

-- The digits from here on, to the first other character, which has to be there.
unfoldable pub read_digits : ℕ → List ℕ → Outcome (ℕ × List ℕ)
read_digits acc [] = undefined
read_digits acc (c ∷ rest) =
    let more = read_digits (acc * 10 + (c - b'0')) rest in
    if is_digit c then more else ok (acc, c ∷ rest)

unfoldable pub skip_spaces : List ℕ → Outcome (List ℕ)
skip_spaces [] = undefined
skip_spaces (c ∷ rest) = let more = skip_spaces rest in if is_space c then more else ok (c ∷ rest)

-- A sign, if there is one: whether it is a minus, and what follows.
unfoldable pub read_sign : List ℕ → Bool × List ℕ
read_sign [] = (false, [])
read_sign (c ∷ rest) =
    if c == b'-' then (true, rest) else if c == b'+' then (false, rest) else (false, c ∷ rest)

-- A value beyond the range of a long long becomes the end of the range.
unfoldable pub saturate : Bool → ℕ → ℤ
saturate false n = pos (min n (2 ^ 63 - 1))
saturate true zero = pos 0
saturate true (suc n) = negsuc (min n (2 ^ 63 - 1))

-- The number behind the sign; without a digit it is 0, and nothing of `bytes` is taken.
unfoldable pub strtoll_signed : List ℕ → Bool × List ℕ → Outcome (ℤ × List ℕ)
strtoll_signed bytes (minus, []) = undefined
strtoll_signed bytes (minus, c ∷ rest) =
    let number = (read_digits 0 (c ∷ rest) >>= λ r. ok (saturate minus r.0, r.1)) in
    if is_digit c then number else ok (pos 0, bytes)

-- strtoll(bytes, &endp, 10): the value, and the bytes from endp on.
unfoldable pub strtoll : List ℕ → Outcome (ℤ × List ℕ)
strtoll bytes = do unsigned ← skip_spaces bytes; strtoll_signed bytes (read_sign unsigned)

-- _be_decode_int: the number, and the cursor behind it.
unfoldable pub be_decode_int : Cursor → Outcome (ℤ × Cursor)
be_decode_int c = do
  r ← strtoll c.bytes
  ok (r.0, record { bytes = r.1; data_len = c.data_len -ℤ pos (length c.bytes - length r.1) })
