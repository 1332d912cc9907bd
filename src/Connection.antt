-- ===== src/Connection.antt =====
-- The state of a connection in src/btp.h and the operations of src/btp.c on it: the flags, and the
-- Send_… functions. `sends` says whether `send` succeeds; where it fails the program exits.
pub mod Flags
pub mod Sends
pub mod Choke
use soft_sys_dubstep_ducks.Prelude.{
  ℕ, ◌+◌, ◌-◌, ◌*◌, ◌/◌, ◌%◌, ◌^◌, List, Bool, true, false, not, Outcome, ok, exits, undefined,
  ◌>>=◌, ◌>>◌, exit_if, malloc, read_at, replicate, Option, none, some, bit_or, bit_and,
  if◌then◌else◌, ◌==◌, bit,
}
use soft_sys_dubstep_ducks.Wire.{
  construct_state_message, construct_request_message, construct_piece_message, interested,
  uninterested, unchoke,
}
use soft_sys_dubstep_ducks.Pieces.{get_piece_from_file}
use soft_sys_dubstep_ducks.Handshake.{full_handshake_length}

-- The numbers of the bits in `status_flags`.
abbrev pub connection_status : ℕ
connection_status = 7

abbrev pub own_interested : ℕ
own_interested = 6

abbrev pub own_choke : ℕ
own_choke = 5

abbrev pub peer_interested : ℕ
peer_interested = 4

abbrev pub peer_choke : ℕ
peer_choke = 3

abbrev pub pending_request : ℕ
pending_request = 2

-- NOREQUEST, -1.
abbrev pub no_request : ℕ
no_request = 2 ^ 32 - 1

-- The two numbers are ints.
pub record Connection : Type 0 where
  pub status_flags : ℕ
  pub requested_piece : ℕ
  pub piece_to_send : ℕ
  pub peer_bitfield : List ℕ

-- flags |= bits, and flags &= bits, stored back in a char.
abbrev pub or_flags : ℕ → ℕ → ℕ
or_flags flags bits = bit_or flags bits % 256

abbrev pub and_flags : ℕ → ℕ → ℕ
and_flags flags bits = bit_and flags bits % 256

-- `|= initial`, on whatever the flags are before.
unfoldable pub initialize_connection : Connection → ℕ → Connection
initialize_connection c total_pieces_in_file = record {
  status_flags =
      or_flags c.status_flags
        (0 * 2 ^ 7 + 0 * 2 ^ 6 + 1 * 2 ^ 5 + 0 * 2 ^ 4 + 1 * 2 ^ 3 + 0 * 2 ^ 2);
  requested_piece = no_request;
  piece_to_send = no_request;
  peer_bitfield = replicate (total_pieces_in_file / 8) 0;
}

-- `state` is 1 or 0; for another one only a message is printed.
unfoldable pub set_flag : Connection → ℕ → ℕ → Connection
set_flag c flag state =
    if state == 1
    then record c { status_flags = or_flags c.status_flags (1 * 2 ^ flag) }
    else if state == 0
    then record c { status_flags = and_flags c.status_flags (0 * 2 ^ flag) }
    else c

-- The bytes of a bitfield message that stand behind a handshake.
unfoldable pub set_peer_bitfield : List ℕ → ℕ → Outcome (List ℕ)
set_peer_bitfield buffer bitfield_msg_length =
    read_at buffer full_handshake_length bitfield_msg_length

-- What a Send_… function sends, with the connection afterwards.
abbrev pub Sent : Type 0
Sent = List ℕ × Connection

unfoldable pub send_interested : (ℕ → ℕ) → Bool → Connection → Outcome Sent
send_interested fresh sends c = do
  msg ← construct_state_message fresh interested
  exit_if (not sends) 1
  ok (msg, record c { status_flags = or_flags c.status_flags (1 * 2 ^ own_interested) })

unfoldable pub send_uninterested : (ℕ → ℕ) → Bool → Connection → Outcome Sent
send_uninterested fresh sends c = do
  msg ← construct_state_message fresh uninterested
  exit_if (not sends) 1
  ok (msg, record c { status_flags = or_flags c.status_flags (0 * 2 ^ own_interested) })

unfoldable pub send_unchoked : (ℕ → ℕ) → Bool → Connection → Outcome Sent
send_unchoked fresh sends c = do
  msg ← construct_state_message fresh unchoke
  exit_if (not sends) 1
  ok (msg, record c { status_flags = or_flags c.status_flags (0 * 2 ^ peer_choke) })

unfoldable pub send_request : (ℕ → ℕ) → Bool → Connection → ℕ → Outcome Sent
send_request fresh sends c piece_index = do
  msg ← construct_request_message fresh piece_index 0 0
  exit_if (not sends) 1
  ok (
    msg,
    record c {
      status_flags = or_flags c.status_flags (1 * 2 ^ pending_request);
      requested_piece = piece_index;
    },
  )

-- The flag and the piece are noted as for a request.
unfoldable pub send_piece : (ℕ → ℕ) → Bool → Option (List ℕ) → Connection → ℕ → ℕ → Outcome Sent
send_piece fresh sends fd c piece_index piece_len = do
  piece ← get_piece_from_file fresh fd piece_index piece_len
  msg ← construct_piece_message fresh piece_index 0 piece_len piece
  exit_if (not sends) 1
  ok (
    msg,
    record c {
      status_flags = or_flags c.status_flags (1 * 2 ^ pending_request);
      requested_piece = piece_index;
    },
  )
