-- ===== src/Bencode/Info.antt =====
-- decodeFile of src/bencode.c: a torrent's metainfo, from its decoded tree. An int is an integer.
pub mod Metainfo
use soft_sys_dubstep_ducks.Prelude.{
  ℕ, zero, suc, ◌+◌, ◌-◌, ◌*◌, ◌/◌, ◌%◌, ◌^◌, List, [], ◌∷◌, ◌++◌, Bool, true, false, ◌&&◌, not,
  Outcome, ok, undefined, ◌>>=◌, ◌>>◌, require, or_undefined, Option, none, some, length, read_at,
  c_text, bytes_eq, ℤ, ◌-ℤ◌, pos, negsuc, if◌then◌else◌, ◌==◌, ltb, leb, take, drop, malloc,
  take_all, drop_all, length-malloc, append-nil, sym, arith, ◌≡◌,
}
use soft_sys_dubstep_ducks.Bencode.Node.{
  BeNode, BeEntries, be_str, be_int, be_list, be_dict, no_entries, entry, no_value,
}
use soft_sys_dubstep_ducks.Bencode.Decode.{be_decoden}

-- bt_info_t. What has not been stored yet is indeterminate: `none`.
pub record BtInfo : Type 0 where
  pub announce : Option (List ℕ)
  pub name : Option (List ℕ)
  pub piece_length : Option ℤ
  pub total_length : Option ℤ
  pub num_pieces : Option ℤ
  pub piece_hashes : Option (List (List ℕ))

-- The size of the block that is allocated for it, and where its fields stand: FILE_NAME_MAX bytes
-- twice, three ints, and a pointer at the next multiple of 8.
abbrev pub out_size : ℕ
out_size = 1000

abbrev pub file_name_max : ℕ
file_name_max = 1024

-- A field of the block.
abbrev pub field : ℕ → ℕ → ℕ → Outcome (Unit {0})
field size offset n = require (leb (offset + n) size)

-- A long long that is stored in an int.
abbrev pub signed : ℕ → ℤ
signed n = if ltb n (2 ^ 31) then pos n else negsuc (2 ^ 32 - 1 - n)

unfoldable pub to_int : ℤ → ℤ
to_int (pos n) = signed (n % 2 ^ 32)
to_int (negsuc n) = signed (2 ^ 32 - 1 - n % 2 ^ 32)

-- -n
abbrev pub minus : ℕ → ℤ
minus zero = pos 0
minus (suc n) = negsuc n

-- num_pieces: the quotient, which goes towards 0, and one more for a positive remainder. The
-- smallest int by -1 does not fit.
unfoldable pub count_pieces : ℤ → ℤ → Outcome ℤ
count_pieces (pos a) (pos b) =
    if b == 0 then undefined else ok (pos (if a % b == 0 then a / b else a / b + 1))
count_pieces (pos a) (negsuc b) =
    ok (if a % (b + 1) == 0 then minus (a / (b + 1)) else pos 1 -ℤ pos (a / (b + 1)))
count_pieces (negsuc a) (pos b) = if b == 0 then undefined else ok (minus ((a + 1) / b))
count_pieces (negsuc a) (negsuc b) =
    if a + 1 == 2 ^ 31 && b == 0 then undefined else ok (pos ((a + 1) / (b + 1)))

-- strcpy to an array of FILE_NAME_MAX bytes, from a node that has to be a text.
unfoldable pub copy_text : ℕ → ℕ → BeNode → Outcome (List ℕ)
copy_text size offset (be_str (some s)) = do
  require (ltb (length (c_text s)) file_name_max)
  field size offset (length (c_text s) + 1)
  ok (c_text s)
copy_text size offset (be_str none) = undefined
copy_text size offset (be_int n) = undefined
copy_text size offset (be_list ns) = undefined
copy_text size offset (be_dict es) = undefined

-- A number stored in an int, from a node that has to be a number.
unfoldable pub copy_int : ℕ → ℕ → BeNode → Outcome ℤ
copy_int size offset (be_int n) = field size offset 4 >> ok (to_int n)
copy_int size offset (be_str s) = undefined
copy_int size offset (be_list ns) = undefined
copy_int size offset (be_dict es) = undefined

-- The SHA1s, from the k-th on with n to go; a text ends with a NUL.
unfoldable pub copy_hashes : List ℕ → ℕ → ℕ → Outcome (List (List ℕ))
copy_hashes s k zero = ok []
copy_hashes s k (suc n) = do
  hash ← read_at (s ++ 0 ∷ []) (20 * k) 20
  more ← copy_hashes s (k + 1) n
  ok (hash ∷ more)

unfoldable pub store_hashes : ℤ → BeNode → Outcome (List (List ℕ))
unfolding copy_hashes
store_hashes (negsuc n) node = ok []
store_hashes (pos n) (be_str (some s)) = copy_hashes s 0 n
store_hashes (pos n) (be_str none) = if n == 0 then ok [] else undefined
store_hashes (pos n) (be_int i) = if n == 0 then ok [] else undefined
store_hashes (pos n) (be_list ns) = if n == 0 then ok [] else undefined
store_hashes (pos n) (be_dict es) = if n == 0 then ok [] else undefined

-- strcmp(key, word) == 0
abbrev pub key_is : List ℕ → List ℕ → Bool
key_is key word = bytes_eq (c_text key) word

abbrev pub announce_word : List ℕ
announce_word = b'a' ∷ b'n' ∷ b'n' ∷ b'o' ∷ b'u' ∷ b'n' ∷ b'c' ∷ b'e' ∷ []

abbrev pub info_word : List ℕ
info_word = b'i' ∷ b'n' ∷ b'f' ∷ b'o' ∷ []

abbrev pub name_word : List ℕ
name_word = b'n' ∷ b'a' ∷ b'm' ∷ b'e' ∷ []

abbrev pub length_word : List ℕ
length_word = b'l' ∷ b'e' ∷ b'n' ∷ b'g' ∷ b't' ∷ b'h' ∷ []

abbrev pub piece_length_word : List ℕ
piece_length_word =
    b'p' ∷ b'i' ∷ b'e' ∷ b'c' ∷ b'e' ∷ 32 ∷ b'l' ∷ b'e' ∷ b'n' ∷ b'g' ∷ b't' ∷ b'h' ∷ []

abbrev pub pieces_word : List ℕ
pieces_word = b'p' ∷ b'i' ∷ b'e' ∷ b'c' ∷ b'e' ∷ b's' ∷ []

-- One entry of the info dictionary, in a block of `size` bytes.
unfoldable pub decode_info_entry : ℕ → BtInfo → List ℕ → BeNode → Outcome BtInfo
unfolding copy_text copy_int count_pieces store_hashes
decode_info_entry size out key infonode =
    let on_name = do
      text ← copy_text size file_name_max infonode
      ok (record out { name = some text })
    in let on_length = do
      n ← copy_int size (file_name_max * 2 + 4) infonode
      ok (record out { total_length = some n })
      in let on_piece_length = do
        n ← copy_int size (file_name_max * 2) infonode
        len ← or_undefined out.total_length
        field size (file_name_max * 2 + 8) 4
        count ← count_pieces len n
        ok (record out { piece_length = some n; num_pieces = some count })
        in let on_pieces = do
          count ← or_undefined out.num_pieces
          field size (file_name_max * 2 + 16) 8
          hashes ← store_hashes count infonode
          ok (record out { piece_hashes = some hashes })
          in if key_is key name_word
            then on_name
            else if key_is key length_word
            then on_length
            else if key_is key piece_length_word
            then on_piece_length
            else if key_is key pieces_word
            then on_pieces
            else ok out

unfoldable pub decode_info : ℕ → BtInfo → BeEntries → Outcome BtInfo
unfolding decode_info_entry
decode_info size out no_entries = ok out
decode_info size out (no_value key es) = ok out
decode_info size out (entry none infonode es) = undefined
decode_info size out (entry (some key) infonode es) = do
  out' ← decode_info_entry size out key infonode
  decode_info size out' es

unfoldable pub decode_dict : ℕ → BtInfo → BeNode → Outcome BtInfo
unfolding decode_info
decode_dict size out (be_dict es) = decode_info size out es
decode_dict size out (be_str s) = undefined
decode_dict size out (be_int n) = undefined
decode_dict size out (be_list ns) = undefined

unfoldable pub decode_entries : ℕ → BtInfo → BeEntries → Outcome BtInfo
unfolding decode_dict
decode_entries size out no_entries = ok out
decode_entries size out (no_value key es) = ok out
decode_entries size out (entry none currnode es) = undefined
decode_entries size out (entry (some key) currnode es) =
    let on_announce = do text ← copy_text size 0 currnode; ok (record out { announce = some text })
    in do
      out' ←
          if key_is key announce_word
          then on_announce
          else if key_is key info_word
          then decode_dict size out currnode
          else ok out
      decode_entries size out' es

abbrev pub blank : BtInfo
blank = record {
  announce = none;
  name = none;
  piece_length = none;
  total_length = none;
  num_pieces = none;
  piece_hashes = none;
}

-- The metainfo of a decoded tree, in a block of `size` bytes.
unfoldable pub decode_node : ℕ → Option BeNode → Outcome BtInfo
unfolding decode_entries
decode_node size (some (be_dict es)) = decode_entries size blank es
decode_node size (some (be_str s)) = undefined
decode_node size (some (be_int n)) = undefined
decode_node size (some (be_list ns)) = undefined
decode_node size none = undefined

-- _read_file: NULL where stat or fopen fails; otherwise a block of the size that stat reports, with as
-- many bytes of the file as there are.
unfoldable pub read_file : (ℕ → ℕ) → Option ℕ → Option (List ℕ) → Option (List ℕ)
read_file fresh none file = none
read_file fresh (some st_size) none = none
read_file fresh (some st_size) (some content) =
    let got = take st_size content in some (got ++ drop (length got) (malloc fresh st_size))

pub read_file-whole :
    (fresh : ℕ → ℕ) (content : List ℕ)
    → read_file fresh (some (length content)) (some content) ≡ some content
unfolding read_file
read_file-whole fresh content = rw (
  take_all content (length content) (omega arith),
  drop_all (malloc fresh (length content)) (length content)
      (sym (length-malloc fresh (length content))),
  append-nil content,
)

-- load_be_node, of what _read_file has returned: where the file cannot be read, a NULL pointer is
-- decoded.
unfoldable pub load_be_node : ℕ → Option (List ℕ) → Outcome (Option BeNode)
load_be_node fuel none = undefined
load_be_node fuel (some torf_d) = be_decoden fuel torf_d (pos (length torf_d))

-- decodeFile, on what stat and fopen find under the name.
unfoldable pub decode_file : (ℕ → ℕ) → ℕ → Option ℕ → Option (List ℕ) → Outcome BtInfo
unfolding load_be_node decode_node
decode_file fresh fuel st_size file = do
  node ← load_be_node fuel (read_file fresh st_size file)
  decode_node out_size node
