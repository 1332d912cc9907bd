-- ===== src/Bencode/RoundTrip/Texts.antt =====
-- Texts, and the first bytes of an encoding, for the decoder of src/bencode.c.
use soft_sys_dubstep_ducks.Prelude.{
  ℕ, ◌+◌, ◌-◌, ◌^◌, ◌≤◌, ◌<◌, ◌≡◌, refl, ap, List, [], ◌∷◌, ◌++◌, false, ok, none, some, length,
  pos, ltb_ℤ, decimal, arith, ◌==◌, length-append, pos-sub, read_at-append, drop-append,
  append_assoc, le→leb,
}
use soft_sys_dubstep_ducks.Bencode.Node.{BeNode, be_str, be_int, be_list, be_dict}
use soft_sys_dubstep_ducks.Bencode.Cursor.{Cursor, skip}
use soft_sys_dubstep_ducks.Bencode.Decode.{be_decode_str}
use soft_sys_dubstep_ducks.Bencode.Print.{
  print, print_nodes, print_entries, print_str, print_int, IsPrintable,
}
use soft_sys_dubstep_ducks.Bencode.RoundTrip.Numbers.{be_decode_int-print_int, decimal-DigitFirst}

-- The cursor at some bytes, with so many of them to go.
abbrev pub at : List ℕ → ℕ → Cursor
at bytes len = record { bytes = bytes; data_len = pos len }

pub skip_one :
    (b : ℕ) (rest : List ℕ) (len : ℕ)
    → 1 ≤ len
    → skip 1 (at (b ∷ rest) len) ≡ ok (at rest (len - 1))
unfolding skip
skip_one b rest len h = ground arith

pub skip-append :
    (xs rest : List ℕ) (n len : ℕ)
    → n ≡ length xs
    → n ≤ len
    → skip n (at (xs ++ rest) len) ≡ ok (at rest (len - n))
unfolding skip
skip-append xs rest n len e h = rw (
  le→leb n (length (xs ++ rest)) (omega (arith, length-append xs rest)),
  drop-append xs rest n e,
  pos-sub len n h,
)

-- A text in its encoding is read, and the cursor moved behind it.
pub be_decode_str-print_str :
    (bytes rest : List ℕ) (len : ℕ)
    → length bytes < 2 ^ 63
    → length (print_str bytes) ≤ len
    → be_decode_str (at (print_str bytes ++ rest) len)
      ≡ ok (some bytes, at rest (len - length (print_str bytes)))
unfolding be_decode_str
be_decode_str-print_str bytes rest len h room =
    let n = length bytes in
    let size : length (print_str bytes) ≡ length (decimal n) + (n + 1) =
      omega (arith, length-append (decimal n) (b':' ∷ bytes)) in
    let len₁ = len - length (decimal n) in
    let left : len₁ - (n + 1) ≡ len - length (print_str bytes) = omega arith in
    rw (
      append_assoc (decimal n) (b':' ∷ bytes) rest,
      be_decode_int-print_int (pos n) (bytes ++ rest) b':' len h refl (omega arith),
      pos-sub len₁ 1 (omega arith),
      not_negative n,
      enough (len₁ - 1) n (omega arith),
      read_at-append (b':' ∷ []) bytes rest 1 n refl refl,
      skip-append (b':' ∷ bytes) rest (n + 1) len₁ (omega arith) (omega arith),
      left,
    )
  where
    not_negative : (n : ℕ) → ltb_ℤ (pos n) (pos 0) ≡ false
    not_negative n = ground arith

    enough : (m n : ℕ) → n ≤ m → ltb_ℤ (pos m) (pos n) ≡ false
    enough m n h = ground arith

-- The first byte of an encoding is not the end of a list.
abbrev pub Opens : List ℕ → Type 0
Opens xs = (b : ℕ) × (bs : List ℕ) × (xs ≡ b ∷ bs) × ((b == b'e') ≡ false)

pub print_str-Opens : (bytes : List ℕ) → Opens (print_str bytes)
print_str-Opens bytes =
    let (d, ds, e, h) = decimal-DigitFirst (length bytes) in
    (d, ds ++ b':' ∷ bytes, ap (λ l. l ++ b':' ∷ bytes) e, ground arith)

pub print-Opens : (v : BeNode) → IsPrintable v → Opens (print v)
unfolding print
print-Opens (be_str none) p = elim p [ ]
print-Opens (be_str (some bytes)) p = print_str-Opens bytes
print-Opens (be_int n) p = (b'i', print_int n ++ b'e' ∷ [], refl, refl)
print-Opens (be_list ns) p = (b'l', print_nodes ns, refl, refl)
print-Opens (be_dict es) p = (b'd', print_entries es, refl, refl)

pub length-Opens : (xs : List ℕ) → Opens xs → 0 < length xs
length-Opens xs (b, bs, e, h) = omega (arith, ap length e)

pub append-Opens : (xs ys : List ℕ) → Opens xs → Opens (xs ++ ys)
append-Opens xs ys (b, bs, e, h) = (b, bs ++ ys, ap (λ l. l ++ ys) e, h)
