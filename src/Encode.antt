-- ===== src/Encode.antt =====
-- src/encode.c: the writer of metainfo files. A text is without its NUL. Arrays on the stack have a
-- fixed size, and some functions return the address of one.
pub mod Written
use soft_sys_dubstep_ducks.Prelude.{
  ℕ, zero, suc, ◌+◌, ◌-◌, ◌*◌, List, [], ◌∷◌, ◌++◌, Bool, true, false, Outcome, ok, undefined,
  out_of_fuel, ◌>>=◌, ◌>>◌, require, length, take, drop, c_string, decimal, ℤ, pos, negsuc,
  if◌then◌else◌, ◌==◌, ltb, leb,
}
use soft_sys_dubstep_ducks.Bencode.Print.{print_int}

-- BUFFSIZE and PIECELENGTH.
abbrev pub buff_size : ℕ
buff_size = 10000

abbrev pub piece_length : ℕ
piece_length = 256

-- A text in a block of malloc, or in an array of a function that has returned.
pub data Address : Type 0 where
  allocated : List ℕ → Address
  local : List ℕ → Address

-- Reading the text at an address.
unfoldable pub text_at : Address → Outcome (List ℕ)
text_at (allocated text) = ok text
text_at (local text) = undefined

-- strncat(text, more, BUFFSIZE), in a block of a size.
unfoldable pub append : ℕ → List ℕ → List ℕ → Outcome (List ℕ)
append size text more = do
  let joined = text ++ take buff_size more
  require (ltb (length joined) size)
  ok joined

-- The block has 80 bytes, whatever the length of the text.
unfoldable pub encode_string : List ℕ → Outcome Address
unfolding append
encode_string input = do
  ans₁ ← append 80 [] (decimal (length input))
  ans₂ ← append 80 ans₁ (b':' ∷ [])
  ans₃ ← append 80 ans₂ input
  ok (allocated ans₃)

-- The callers pass an int where a pointer is declared; it is printed as an int.
unfoldable pub encode_int : ℤ → Outcome Address
unfolding append
encode_int input = do
  ans₁ ← append 80 (b'i' ∷ []) (print_int input)
  ans₂ ← append 80 ans₁ (b'e' ∷ [])
  ok (local ans₂)

-- Every char of the input is taken for a pointer to a text.
unfoldable pub encode_dict : List ℕ → ℕ → Outcome Address
encode_dict input zero = ok (local (b'd' ∷ b'e' ∷ []))
encode_dict input (suc size) = undefined

-- An encoded text, appended to an array of BUFFSIZE bytes.
unfoldable pub append_encoded : List ℕ → Outcome Address → Outcome (List ℕ)
unfolding text_at
append_encoded ans encoded = do address ← encoded; text ← text_at address; append buff_size ans text

-- SHA1 of the text in the buffer, appended as a text: both have to hold a NUL.
unfoldable pub append_sha : (List ℕ → List ℕ) → List ℕ → List ℕ → Outcome (List ℕ)
append_sha sha1 buffer piece_shas = do
  text ← c_string buffer
  sha ← c_string (sha1 text)
  append buff_size piece_shas sha

-- The loop over whole pieces, and the one hash behind it, of what the buffer holds then. A round takes
-- piece_length bytes of the file.
unfoldable pub hash_pieces : (List ℕ → List ℕ) → ℕ → List ℕ → List ℕ → List ℕ → Outcome (List ℕ)
unfolding append_sha
hash_pieces sha1 zero file buffer piece_shas = out_of_fuel
hash_pieces sha1 (suc fuel) file buffer piece_shas =
    let got = take piece_length file in
    let buffer' = got ++ drop (length got) buffer in
    let more = do
      shas ← append_sha sha1 buffer' piece_shas
      hash_pieces sha1 fuel (drop piece_length file) buffer' shas
    in if length got == piece_length then more else append_sha sha1 buffer' piece_shas

abbrev pub length_text : List ℕ
length_text = b'l' ∷ b'e' ∷ b'n' ∷ b'g' ∷ b't' ∷ b'h' ∷ []

abbrev pub name_text : List ℕ
name_text = b'n' ∷ b'a' ∷ b'm' ∷ b'e' ∷ []

abbrev pub piece_length_text : List ℕ
piece_length_text =
    b'p' ∷ b'i' ∷ b'e' ∷ b'c' ∷ b'e' ∷ 32 ∷ b'l' ∷ b'e' ∷ b'n' ∷ b'g' ∷ b't' ∷ b'h' ∷ []

abbrev pub pieces_text : List ℕ
pieces_text = b'p' ∷ b'i' ∷ b'e' ∷ b'c' ∷ b'e' ∷ b's' ∷ []

-- `file` is what the file holds, `buffer` what the array for a piece holds at first.
unfoldable pub info_dict : (List ℕ → List ℕ) → List ℕ → List ℕ → List ℕ → Outcome Address
unfolding encode_string encode_int append_encoded hash_pieces
info_dict sha1 buffer filename file = do
  ans₁ ← append_encoded (b'd' ∷ []) (encode_string length_text)
  ans₂ ← append_encoded ans₁ (encode_int (pos (length file)))
  ans₃ ← append_encoded ans₂ (encode_string name_text)
  ans₄ ← append_encoded ans₃ (encode_string filename)
  ans₅ ← append_encoded ans₄ (encode_string piece_length_text)
  ans₆ ← append_encoded ans₅ (encode_int (pos piece_length))
  ans₇ ← append_encoded ans₆ (encode_string pieces_text)
  piece_shas ← hash_pieces sha1 (suc (length file)) file buffer []
  ans₈ ← append_encoded ans₇ (encode_string piece_shas)
  ans₉ ← append buff_size ans₈ (b'e' ∷ [])
  ok (local ans₉)

abbrev pub announce_text : List ℕ
announce_text = b'a' ∷ b'n' ∷ b'n' ∷ b'o' ∷ b'u' ∷ b'n' ∷ b'c' ∷ b'e' ∷ []

abbrev pub info_text : List ℕ
info_text = b'i' ∷ b'n' ∷ b'f' ∷ b'o' ∷ []

-- strcpy(dict[i], …), into 80 bytes.
unfoldable pub dict_entry : Outcome Address → Outcome (List ℕ)
unfolding text_at
dict_entry encoded = do
  address ← encoded
  text ← text_at address
  require (ltb (length text) 80)
  ok text

-- What is written to the file, and the address that is returned. The name of the file, with its suffix
-- ".torrent", has to fit 100 bytes.
unfoldable pub encode_file :
    (List ℕ → List ℕ) → List ℕ → List ℕ → List ℕ → List ℕ → Outcome (List ℕ × Address)
unfolding info_dict dict_entry
encode_file sha1 buffer target address file = do
  require (ltb (length target + 8) 100)
  dict₀ ← dict_entry (encode_string announce_text)
  dict₁ ← dict_entry (encode_string address)
  dict₂ ← dict_entry (encode_string info_text)
  dict₃ ← dict_entry (info_dict sha1 buffer target file)
  ans₁ ← append buff_size (b'd' ∷ []) dict₀
  ans₂ ← append buff_size ans₁ dict₁
  ans₃ ← append buff_size ans₂ dict₂
  ans₄ ← append buff_size ans₃ dict₃
  final_ans ← append buff_size ans₄ (b'e' ∷ [])
  ok (final_ans, local final_ans)

-- The whole file, in a buffer of BUFFSIZE bytes.
unfoldable pub file_hash : (List ℕ → List ℕ) → List ℕ → Outcome Address
file_hash sha1 file = do require (leb (length file) buff_size); ok (local (sha1 file))
