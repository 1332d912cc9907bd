-- ===== src/Torrent/Receive.antt =====
-- What main in src/torrent.c does with the bytes that a connection received.
pub mod Greeting
pub mod Greeted
pub mod Choke
pub mod Have
use soft_sys_dubstep_ducks.Prelude.{
  ℕ, ◌+◌, ◌*◌, ◌/◌, List, [], ◌∷◌, ◌++◌, Bool, true, false, not, Outcome, ok, exits, undefined,
  ◌>>=◌, ◌>>◌, exit_if, Option, none, some, length, drop, replicate, malloc, read_at, write_at,
  if◌then◌else◌, ◌==◌,
}
use soft_sys_dubstep_ducks.Wire.{construct_bitfield_message}
use soft_sys_dubstep_ducks.Handshake.{full_handshake_length, checked_handshake}
use soft_sys_dubstep_ducks.Bitfield.{peer_contains_undownloaded_pieces}
use soft_sys_dubstep_ducks.Connection.{
  Connection, connection_status, Sent, set_flag, set_peer_bitfield, send_interested,
  send_uninterested,
}
use soft_sys_dubstep_ducks.Torrent.{bitfield_msg_length, bitfield_len, file_sha}
use soft_sys_dubstep_ducks.Torrent.Messages.{handle_message}

-- recv fails, or delivers bytes; none if the peer has closed the connection.
pub data Received : Type 0 where
  failed : Received
  bytes : List ℕ → Received

-- The connection, whether its entry of `fds` is still open, the buffer of main, whether the block
-- `test` is freed, and what was sent.
pub record Peer : Type 0 where
  pub connection : Connection
  pub is_open : Bool
  pub buffer : List ℕ
  pub test_freed : Bool
  pub sent : Option (List ℕ)

-- The answer to a handshake: one's own handshake and bitfield message in one.
unfoldable pub intro_message : (ℕ → ℕ) → ℕ → List ℕ → List ℕ → Outcome (List ℕ)
intro_message fresh total_pieces_in_file own own_handshake = do
  let msg_length = bitfield_msg_length total_pieces_in_file
  bf_message ← construct_bitfield_message fresh own (total_pieces_in_file / 8)
  handshake ← read_at own_handshake 0 full_handshake_length
  msg₁ ← write_at (malloc fresh (full_handshake_length + msg_length)) 0 handshake
  bits ← read_at bf_message 0 msg_length
  write_at msg₁ full_handshake_length bits

-- A handshake with a bitfield: the peer's bitfield is kept, and one's interest is told.
unfoldable pub greet : (ℕ → ℕ) → Bool → ℕ → List ℕ → List ℕ → Connection → Outcome Sent
greet fresh sends total_pieces_in_file own buffer c = do
  bitfield ← set_peer_bitfield buffer (bitfield_msg_length total_pieces_in_file)
  let c' = record c { peer_bitfield = bitfield }
  missing ← peer_contains_undownloaded_pieces bitfield own (bitfield_len total_pieces_in_file)
  if missing then send_interested fresh sends c' else send_uninterested fresh sends c'

-- By the number of bytes. The buffer is cleared behind a handshake.
unfoldable pub on_bytes : (ℕ → ℕ) → Bool → ℕ → List ℕ → List ℕ → Peer → List ℕ → Outcome Peer
unfolding intro_message greet
on_bytes fresh sends total_pieces_in_file own own_handshake peer received = do
  let n = length received
  let buffer = received ++ drop n peer.buffer
  let cleared = replicate (length buffer) 0
  let on_close = ok (record peer {
    connection = set_flag peer.connection connection_status 0;
    is_open = false;
    sent = none;
  })
  let on_handshake = do
    _ ← checked_handshake fresh buffer file_sha
    intro ← intro_message fresh total_pieces_in_file own own_handshake
    exit_if (not sends) 1
    ok (record peer { buffer = cleared; sent = some intro })
  let on_handshake_and_bitfield = do
    checked ← checked_handshake fresh buffer file_sha
    r ← greet fresh sends total_pieces_in_file own checked peer.connection
    ok (record peer { connection = r.1; buffer = cleared; sent = some r.0 })
  let on_message = do
    r ← handle_message total_pieces_in_file buffer peer.test_freed peer.connection
    ok (record peer { connection = r.0; buffer = buffer; test_freed = r.1; sent = none })
  if n == 0
      then on_close
      else (if n == full_handshake_length
          then on_handshake
          else (if n == full_handshake_length + bitfield_msg_length total_pieces_in_file
              then on_handshake_and_bitfield
              else on_message))

-- An error of recv is only reported.
unfoldable pub on_received : (ℕ → ℕ) → Bool → ℕ → List ℕ → List ℕ → Peer → Received → Outcome Peer
unfolding on_bytes
on_received fresh sends total_pieces_in_file own own_handshake peer failed =
    ok (record peer { sent = none })
on_received fresh sends total_pieces_in_file own own_handshake peer (bytes received) =
    on_bytes fresh sends total_pieces_in_file own own_handshake peer received
