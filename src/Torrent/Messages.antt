-- ===== src/Torrent/Messages.antt =====
-- The answer of main in src/torrent.c to a message of a peer: the `switch` on its id.
pub mod Handled
use soft_sys_dubstep_ducks.Prelude.{
  ℕ, ◌+◌, ◌-◌, ◌*◌, ◌/◌, ◌%◌, ◌^◌, List, [], ◌∷◌, Bool, true, false, not, Outcome, ok, undefined,
  ◌>>=◌, ◌>>◌, require, load, read_at, write_at, if◌then◌else◌, ◌==◌, ltb,
}
use soft_sys_dubstep_ducks.Wire.{
  choke, unchoke, interested, uninterested, have, bitfield_id, request, piece_id, cancel,
  get_next_msg,
}
use soft_sys_dubstep_ducks.Wire.RoundTrip.{int_at}
use soft_sys_dubstep_ducks.Connection.{
  Connection, no_request, own_choke, peer_interested, or_flags, set_flag,
}

-- *byte_of_interest |= 1 << shift
unfoldable pub or_byte : List ℕ → ℕ → ℕ → Outcome (List ℕ)
or_byte bitfield i shift = do
  b ← load bitfield i
  write_at bitfield i (or_flags b (1 * 2 ^ shift) ∷ [])

-- HAVE, with the piece as an int: division and remainder go towards 0, so that -7, …, -1 stand for
-- byte 0 and a bit past its end; the other negative numbers stand for a byte in front of the block.
unfoldable pub mark_piece : List ℕ → ℕ → Outcome (List ℕ)
unfolding or_byte
mark_piece bitfield piece =
    if ltb piece (2 ^ 31)
    then or_byte bitfield (piece / 8) (7 - piece % 8)
    else if ltb (2 ^ 32 - 8) piece
    then or_byte bitfield 0 (7 + (2 ^ 32 - piece))
    else undefined

-- The connection afterwards, and whether the block `test` is freed: it is allocated once, in front
-- of the loop, and freed behind every HAVE. A piece number is copied over the low bytes of a pointer
-- and is what the pointer gives as an int. PIECE calls verify_piece without its last argument.
unfoldable pub respond : ℕ → List ℕ → ℕ → Bool → Connection → Outcome (Connection × Bool)
unfolding mark_piece
respond total_pieces_in_file msg msg_id test_freed c =
    let on_have = do
      require (not test_freed)
      piece ← int_at msg 5
      bitfield ← mark_piece c.peer_bitfield piece
      ok (record c { peer_bitfield = bitfield }, true)
    in let on_bitfield = do
      bits ← read_at msg 5 total_pieces_in_file
      bitfield ← write_at c.peer_bitfield 0 bits
      ok (record c { peer_bitfield = bitfield }, test_freed)
      in let on_request = do
        piece_index ← int_at msg 5
        ok (record c { piece_to_send = piece_index }, test_freed)
        in if msg_id == choke
          then ok (set_flag c own_choke 1, test_freed)
          else if msg_id == unchoke
          then ok (set_flag c own_choke 0, test_freed)
          else if msg_id == interested
          then ok (set_flag c peer_interested 1, test_freed)
          else if msg_id == uninterested
          then ok (set_flag c peer_interested 0, test_freed)
          else if msg_id == have
          then on_have
          else if msg_id == bitfield_id
          then on_bitfield
          else if msg_id == request
          then on_request
          else if msg_id == piece_id
          then undefined
          else if msg_id == cancel
          then ok (record c { piece_to_send = no_request }, test_freed)
          else ok (c, test_freed)

unfoldable pub handle_message : ℕ → List ℕ → Bool → Connection → Outcome (Connection × Bool)
unfolding respond
handle_message total_pieces_in_file buffer test_freed c = do
  next ← get_next_msg buffer
  respond total_pieces_in_file next.message next.msg_id test_freed c
