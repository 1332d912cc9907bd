-- ===== src/Pieces/Write.antt =====
-- What write_piece of src/file_constructor.c leaves in the file.
use soft_sys_dubstep_ducks.Prelude.{
  ℕ, ◌+◌, ◌*◌, ◌-◌, ◌^◌, ◌<◌, ◌≡◌, refl, List, [], ◌∷◌, ◌++◌, ok, some, arith, length, drop,
  replicate, NoNul, strcat, strcat-append, take-append, take_all, read_at-append, drop-append,
  lt→ltb, length-append, append_assoc, All-append, malloc, ◌≢◌,
}
use soft_sys_dubstep_ducks.Pieces.{overwrite, write_piece, get_piece_from_file}
use soft_sys_dubstep_ducks.Pieces.Read.{get_piece_from_file_cut}

-- A write inside of a file replaces as many bytes as are written.
overwrite-append :
    (before bytes old after : List ℕ) (place : ℕ)
    → place ≡ length before
    → length old ≡ length bytes
    → overwrite (before ++ (old ++ after)) place bytes ≡ before ++ (bytes ++ after)
unfolding overwrite
overwrite-append before [] [] after place e h = refl
overwrite-append before [] (o ∷ old) after place e h = absurd (omega arith)
overwrite-append before (b ∷ bs) old after place e h =
    let padding = replicate {A = ℕ} (place - length (before ++ (old ++ after))) 0 in
    let behind : drop (place + length (b ∷ bs)) (before ++ (old ++ after)) ≡ after =
      rw (← append_assoc before old after) (
        drop-append (before ++ old) after (place + length (b ∷ bs))
          (omega (arith, length-append before old))) in
    rw (
      append_assoc before (old ++ after) padding,
      take-append before ((old ++ after) ++ padding) place e,
      behind,
    )

module _ (before old after : List ℕ) (num len : ℕ) (place : length before ≡ num * len)
    (fits : num * len < 2 ^ 31) (inside : length old ≡ len) where
  -- The buffer after strcat, of which the first piece_len bytes are written.
  write_piece-strcat :
      (buffer piece rest : List ℕ)
      → length piece ≡ len
      → strcat buffer (b'\n' ∷ []) ≡ ok (piece ++ rest)
      → write_piece len (some (before ++ (old ++ after))) num len buffer
        ≡ ok (before ++ (piece ++ after), piece ++ rest)
  unfolding write_piece
  write_piece-strcat buffer piece rest whole e = rw (
    lt→ltb (num * len) (2 ^ 31) fits,
    e,
    read_at-append [] piece rest 0 len refl (omega arith),
    take_all piece len (omega arith),
    overwrite-append before piece old after (num * len) (omega arith) (omega arith),
  )

  -- A piece without a 0 byte replaces the bytes at its place in the file, if the buffer goes on with
  -- a text and two bytes for its end; the line feed is written behind that text, in the buffer only.
  pub write_piece_whole :
      (piece more : List ℕ) (x : ℕ) (rest : List ℕ)
      → length piece ≡ len
      → NoNul piece
      → NoNul more
      → write_piece len (some (before ++ (old ++ after))) num len (piece ++ (more ++ 0 ∷ x ∷ rest))
        ≡ ok (before ++ (piece ++ after), piece ++ (more ++ b'\n' ∷ 0 ∷ rest))
  write_piece_whole piece more x rest whole h k =
      write_piece-strcat (piece ++ (more ++ 0 ∷ x ∷ rest)) piece (more ++ b'\n' ∷ 0 ∷ rest) whole (
        rw (← append_assoc piece more (0 ∷ x ∷ rest), ← append_assoc piece more (b'\n' ∷ 0 ∷ rest))
          (strcat-append (piece ++ more) b'\n' x rest (All-append (λ b. b ≢ 0) piece more h k)))

  -- In a piece with a 0 byte the first one becomes a line feed, and the byte behind it 0.
  pub write_piece_broken :
      (text : List ℕ) (x : ℕ) (rest behind : List ℕ)
      → length (text ++ 0 ∷ x ∷ rest) ≡ len
      → NoNul text
      → write_piece len (some (before ++ (old ++ after))) num len ((text ++ 0 ∷ x ∷ rest) ++ behind)
        ≡ ok (before ++ ((text ++ b'\n' ∷ 0 ∷ rest) ++ after), (text ++ b'\n' ∷ 0 ∷ rest) ++ behind)
  write_piece_broken text x rest behind whole h =
      write_piece-strcat ((text ++ 0 ∷ x ∷ rest) ++ behind) (text ++ b'\n' ∷ 0 ∷ rest) behind
        (omega (arith, length-append text (0 ∷ x ∷ rest), length-append text (b'\n' ∷ 0 ∷ rest)))
        (rw (append_assoc text (0 ∷ x ∷ rest) behind, append_assoc text (b'\n' ∷ 0 ∷ rest) behind)
          (strcat-append text b'\n' x (rest ++ behind) h))

-- A piece with a 0 byte before its last byte is not read back as it was written: its text has a line
-- feed at its end.
pub write_piece-get_piece_from_file :
    (fresh : ℕ → ℕ) (before old after text : List ℕ) (x : ℕ) (rest behind : List ℕ) (num len : ℕ)
    → length before ≡ num * len
    → num * len < 2 ^ 31
    → length old ≡ len
    → length (text ++ 0 ∷ x ∷ rest) ≡ len
    → NoNul text
    → (file buffer : List ℕ) × (write_piece len
          (some (before ++ (old ++ after)))
          num
          len
          ((text ++ 0 ∷ x ∷ rest) ++ behind)
        ≡ ok (file, buffer))
      × (get_piece_from_file fresh (some file) num len
          ≡ ok (
              (text ++ b'\n' ∷ [])
              ++ 0 ∷ drop (length (text ++ b'\n' ∷ []) + 1) (malloc fresh len)))
write_piece-get_piece_from_file fresh before old after text x rest behind num len place fits inside
      whole h =
    (
      before ++ ((text ++ b'\n' ∷ 0 ∷ rest) ++ after),
      (text ++ b'\n' ∷ 0 ∷ rest) ++ behind,
      write_piece_broken before old after num len place fits inside text x rest behind whole h,
      rw (append_assoc text (b'\n' ∷ []) (0 ∷ rest)) at (
          get_piece_from_file_cut fresh before (text ++ b'\n' ∷ []) rest after num len place fits
            (omega (
              arith,
              length-append text (0 ∷ x ∷ rest),
              length-append text (b'\n' ∷ []),
              length-append (text ++ b'\n' ∷ []) (0 ∷ rest),
            ))
            (All-append (λ b. b ≢ 0) text (b'\n' ∷ []) h ((λ e. omega arith), tt))),
    )
