-- ===== src/Pieces.antt =====
-- Pieces of the downloaded file: src/file_constructor.c, and get_piece_from_file of src/btp.c. What a
-- descriptor names is an argument: the bytes of a file, or nothing for a descriptor that is not open.
-- Piece numbers and lengths are ints that are not negative. `sha1` is SHA1 of OpenSSL.
pub mod Read
pub mod Write
pub mod Check
use soft_sys_dubstep_ducks.Prelude.{
  ℕ, zero, suc, ◌+◌, ◌-◌, ◌*◌, ◌/◌, ◌%◌, ◌^◌, List, [], ◌∷◌, ◌++◌, Bool, true, false, ◌&&◌, not,
  Outcome, ok, exits, undefined, ◌>>=◌, ◌>>◌, Option, none, some, require, exit_if, malloc, read_at,
  length, take, drop, replicate, strcpy, strcat, bytes_eq, if◌then◌else◌, ◌==◌, ltb,
}

-- lseek(fd, piece_num * piece_len, SEEK_SET), with exit(-1) where it fails: the place, and the file.
unfoldable pub seek_piece : Option (List ℕ) → ℕ → ℕ → Outcome (ℕ × List ℕ)
seek_piece none piece_num piece_len = exits 255
seek_piece (some file) piece_num piece_len = do
  require (ltb (piece_num * piece_len) (2 ^ 31))
  ok (piece_num * piece_len, file)

-- A file that ends within the piece makes the program exit.
unfoldable pub get_piece_from_file : (ℕ → ℕ) → Option (List ℕ) → ℕ → ℕ → Outcome (List ℕ)
unfolding seek_piece
get_piece_from_file fresh fd piece_num piece_len = do
  r ← seek_piece fd piece_num piece_len
  let buffer = take piece_len (drop r.0 r.1)
  exit_if (not (length buffer == piece_len)) 255
  strcpy (malloc fresh piece_len) buffer

-- The same, with more output.
unfoldable pub get_piece : (ℕ → ℕ) → Option (List ℕ) → ℕ → ℕ → Outcome (List ℕ)
unfolding get_piece_from_file
get_piece fresh fd piece_num piece_len = get_piece_from_file fresh fd piece_num piece_len

-- write: a gap behind the end of the file is filled with 0.
unfoldable pub overwrite : List ℕ → ℕ → List ℕ → List ℕ
overwrite file place [] = file
overwrite file place (b ∷ bs) =
    take place (file ++ replicate (place - length file) 0)
    ++ ((b ∷ bs) ++ drop (place + length (b ∷ bs)) file)

-- `written` is the number of bytes that write writes, 0 on an error; the file and the buffer
-- afterwards. Whether it is piece_len decides only on what is printed.
unfoldable pub write_piece : ℕ → Option (List ℕ) → ℕ → ℕ → List ℕ → Outcome (List ℕ × List ℕ)
unfolding seek_piece overwrite
write_piece written fd piece_num piece_len buffer = do
  r ← seek_piece fd piece_num piece_len
  buffer' ← strcat buffer (b'\n' ∷ [])
  bytes ← read_at buffer' 0 piece_len
  ok (overwrite r.1 r.0 (take written bytes), buffer')

-- Whether 1 is returned.
unfoldable pub verify_piece : (List ℕ → List ℕ) → List ℕ → List ℕ → ℕ → Outcome Bool
verify_piece sha1 piece expected_sha piece_length = do
  bytes ← read_at piece 0 piece_length
  expected ← read_at expected_sha 0 20
  ok (bytes_eq (sha1 bytes) expected)

-- No conversion for printf in a text.
unfoldable pub is_plain : List ℕ → Bool
is_plain [] = true
is_plain (c ∷ cs) = not (c == b'%') && is_plain cs

-- The bitfield, and the caller's descriptor: what open returns is assigned to the pointer to it.
unfoldable pub set_initial_bitfield : ℕ → List ℕ → ℕ → Outcome (List ℕ × ℕ)
unfolding is_plain
set_initial_bitfield fd file_name num_pieces = do
  let bitfield_len = if num_pieces % 8 == 0 then num_pieces / 8 else num_pieces / 8 + 1
  require (is_plain file_name)
  ok (replicate bitfield_len 0, fd)
