-- ===== src/Wire.antt =====
-- The peer wire messages of src/btp.c and src/btp.h. An `int` is its bit pattern, a number below
-- 2 ^ 32, and stands in a message as the four bytes that memcpy copies. `fresh` is what a block from
-- malloc holds before it is written.
pub mod Layout
pub mod Parse
pub mod RoundTrip
use soft_sys_dubstep_ducks.Prelude.{
  ℕ, ◌+◌, ◌-◌, ◌^◌, List, [], ◌∷◌, Outcome, ok, undefined, ◌>>=◌, ◌>>◌, load, malloc, read_at,
  write_at, int_bytes, bytes_int, if◌then◌else◌, ltb, leb,
}

-- The message ids.
abbrev pub choke : ℕ
choke = 0

abbrev pub unchoke : ℕ
unchoke = 1

abbrev pub interested : ℕ
interested = 2

abbrev pub uninterested : ℕ
uninterested = 3

abbrev pub have : ℕ
have = 4

abbrev pub bitfield_id : ℕ
bitfield_id = 5

abbrev pub request : ℕ
request = 6

abbrev pub piece_id : ℕ
piece_id = 7

abbrev pub cancel : ℕ
cancel = 8

-- STATEMSGSIZE, HAVEMSGSIZE, REQUESTMSGSIZE and CANCELMSGSIZE.
abbrev pub state_msg_size : ℕ
state_msg_size = 5

abbrev pub have_msg_size : ℕ
have_msg_size = 9

abbrev pub request_msg_size : ℕ
request_msg_size = 17

abbrev pub cancel_msg_size : ℕ
cancel_msg_size = 17

-- The length counts the id and the bits.
unfoldable pub construct_bitfield_message : (ℕ → ℕ) → List ℕ → ℕ → Outcome (List ℕ)
construct_bitfield_message fresh bitfield bitfield_len = do
  msg₁ ← write_at (malloc fresh (4 + 1 + bitfield_len)) 0 (int_bytes (bitfield_len + 1))
  msg₂ ← write_at msg₁ 4 (bitfield_id ∷ [])
  bits ← read_at bitfield 0 bitfield_len
  write_at msg₂ 5 bits

unfoldable pub construct_state_message : (ℕ → ℕ) → ℕ → Outcome (List ℕ)
construct_state_message fresh msg_id = do
  msg₁ ← write_at (malloc fresh 5) 0 (int_bytes 1)
  write_at msg₁ 4 (msg_id ∷ [])

unfoldable pub construct_have_message : (ℕ → ℕ) → ℕ → Outcome (List ℕ)
construct_have_message fresh piece_index = do
  msg₁ ← write_at (malloc fresh 9) 0 (int_bytes 5)
  msg₂ ← write_at msg₁ 4 (have ∷ [])
  write_at msg₂ 5 (int_bytes piece_index)

unfoldable pub construct_request_message : (ℕ → ℕ) → ℕ → ℕ → ℕ → Outcome (List ℕ)
construct_request_message fresh piece_index blockoffset blocklength = do
  msg₁ ← write_at (malloc fresh 17) 0 (int_bytes 13)
  msg₂ ← write_at msg₁ 4 (request ∷ [])
  msg₃ ← write_at msg₂ 5 (int_bytes piece_index)
  msg₄ ← write_at msg₃ 9 (int_bytes blockoffset)
  write_at msg₄ 13 (int_bytes blocklength)

unfoldable pub construct_piece_message : (ℕ → ℕ) → ℕ → ℕ → ℕ → List ℕ → Outcome (List ℕ)
construct_piece_message fresh piece_index blockoffset piece_len piece = do
  msg₁ ← write_at (malloc fresh (13 + piece_len)) 0 (int_bytes (9 + piece_len))
  msg₂ ← write_at msg₁ 4 (piece_id ∷ [])
  msg₃ ← write_at msg₂ 5 (int_bytes piece_index)
  msg₄ ← write_at msg₃ 9 (int_bytes blockoffset)
  bytes ← read_at piece 0 piece_len
  write_at msg₄ 13 bytes

unfoldable pub construct_cancel_message : (ℕ → ℕ) → ℕ → ℕ → ℕ → Outcome (List ℕ)
construct_cancel_message fresh piece_index blockoffset blocklength = do
  msg₁ ← write_at (malloc fresh 17) 0 (int_bytes 13)
  msg₂ ← write_at msg₁ 4 (cancel ∷ [])
  msg₃ ← write_at msg₂ 5 (int_bytes piece_index)
  msg₄ ← write_at msg₃ 9 (int_bytes blockoffset)
  write_at msg₄ 13 (int_bytes blocklength)

-- A message taken off a buffer: the copy that is returned, `*msgID` and `*msgSize`.
pub record NextMsg : Type 0 where
  pub message : List ℕ
  pub msg_id : ℕ
  pub msg_size : ℕ

-- `*msgSize+4` as the size of a block: -4, …, -1 give 0, …, 3; the other negative sizes give a block
-- of almost 2 ^ 64 bytes that no buffer holds, and the largest sizes overflow.
abbrev pub with_header : ℕ → Outcome ℕ
with_header size =
    if ltb size (2 ^ 31 - 4)
    then ok (size + 4)
    else if leb (2 ^ 32 - 4) size
    then ok (size + 4 - 2 ^ 32)
    else undefined

unfoldable pub get_next_msg : List ℕ → Outcome NextMsg
get_next_msg buffer = do
  size ← read_at buffer 0 4
  total ← with_header (bytes_int size)
  message ← read_at buffer 0 total
  msg_id ← load buffer 4
  ok (record { message = message; msg_id = msg_id; msg_size = total })
