-- ===== src/Pieces/Read.antt =====
-- What get_piece_from_file of src/btp.c returns.
use soft_sys_dubstep_ducks.Prelude.{
  ℕ, ◌+◌, ◌*◌, ◌^◌, ◌<◌, ◌≡◌, List, ◌∷◌, ◌++◌, ok, exits, undefined, some, arith, length, take,
  drop, malloc, NoNul, strcpy, strcpy-append, c_string_endless, length-malloc, take-append,
  drop-append, length-take, length-drop, lt→ltb, ==_refl, ==_ne, length-append,
}
use soft_sys_dubstep_ducks.Pieces.{get_piece_from_file}

module _ (fresh : ℕ → ℕ) (before piece after : List ℕ) (num len : ℕ)
    (place : length before ≡ num * len) (fits : num * len < 2 ^ 31)
    (whole : length piece ≡ len) where
  get_piece_from_file-strcpy :
      get_piece_from_file fresh (some (before ++ (piece ++ after))) num len
      ≡ strcpy (malloc fresh len) piece
  unfolding get_piece_from_file
  get_piece_from_file-strcpy = rw (
    lt→ltb (num * len) (2 ^ 31) fits,
    drop-append before (piece ++ after) (num * len) (omega arith),
    take-append piece after len (omega arith),
    whole,
    ==_refl len,
  )

  -- A piece without a 0 byte is not returned: it is copied as a text, past its end.
  pub get_piece_from_file_endless :
      NoNul piece
      → get_piece_from_file fresh (some (before ++ (piece ++ after))) num len ≡ undefined
  get_piece_from_file_endless h =
      rw get_piece_from_file-strcpy (unfold strcpy in rw (c_string_endless piece h))

-- A piece with a 0 byte is returned up to the first one; what follows in the block is indeterminate.
pub get_piece_from_file_cut :
    (fresh : ℕ → ℕ) (before text rest after : List ℕ) (num len : ℕ)
    → length before ≡ num * len
    → num * len < 2 ^ 31
    → length (text ++ 0 ∷ rest) ≡ len
    → NoNul text
    → get_piece_from_file fresh (some (before ++ ((text ++ 0 ∷ rest) ++ after))) num len
      ≡ ok (text ++ 0 ∷ drop (length text + 1) (malloc fresh len))
get_piece_from_file_cut fresh before text rest after num len place fits whole h =
    rw (get_piece_from_file-strcpy fresh before (text ++ 0 ∷ rest) after num len place fits whole) (
      strcpy-append (malloc fresh len) text rest h
        (omega (arith, length-malloc fresh len, length-append text (0 ∷ rest))))

-- A file that ends before the piece does makes the program exit.
pub get_piece_from_file_short :
    (fresh : ℕ → ℕ) (file : List ℕ) (num len : ℕ)
    → num * len < 2 ^ 31
    → 0 < len
    → length file < num * len + len
    → get_piece_from_file fresh (some file) num len ≡ exits 255
unfolding get_piece_from_file
get_piece_from_file_short fresh file num len fits some_bytes short = rw (
  lt→ltb (num * len) (2 ^ 31) fits,
  ==_ne (length (take len (drop (num * len) file))) len
      (λ e. omega (arith, length-take len (drop (num * len) file), length-drop (num * len) file)),
)
