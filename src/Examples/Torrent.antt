-- ===== src/Examples/Torrent.antt =====
-- src/file_constructor.c and the parts of main in src/torrent.c on small inputs.
use soft_sys_dubstep_ducks.Prelude.{
  ℕ, ◌≡◌, refl, List, [], ◌∷◌, ◌++◌, true, false, ok, undefined, none, some, length, replicate,
  arith, int_bytes, drop, malloc, bit, bytes_eq, holds_from,
}
use soft_sys_dubstep_ducks.Wire.{interested, have, request, piece_id, bitfield_id}
use soft_sys_dubstep_ducks.Wire.Layout.{framed}
use soft_sys_dubstep_ducks.Handshake.{construct_handshake}
use soft_sys_dubstep_ducks.Bitfield.{peer_contains_undownloaded_pieces, undownloaded_from}
use soft_sys_dubstep_ducks.Pieces.{get_piece_from_file, write_piece}
use soft_sys_dubstep_ducks.Pieces.Write.{write_piece-get_piece_from_file}
use soft_sys_dubstep_ducks.Connection.{Connection, no_request, send_piece}
use soft_sys_dubstep_ducks.Connection.Sends.{send_piece_cut}
use soft_sys_dubstep_ducks.Torrent.{bitfield_len, file_sha}
use soft_sys_dubstep_ducks.Torrent.Messages.{handle_message}
use soft_sys_dubstep_ducks.Torrent.Writable.{Written, on_writable, shifted_bit}
use soft_sys_dubstep_ducks.Torrent.Writable.Order.{told, have-asked}
use soft_sys_dubstep_ducks.Torrent.Receive.{Peer, bytes, on_received}
use soft_sys_dubstep_ducks.Torrent.Receive.Greeting.{on_received_handshake}
use soft_sys_dubstep_ducks.Torrent.Receive.Greeted.{wiped, on_received_greets}

abbrev fresh : ℕ → ℕ
fresh i = 0

abbrev toy_sha1 : List ℕ → List ℕ
toy_sha1 message = replicate 20 (length message)

abbrev start_of_file : List ℕ
start_of_file = b'a' ∷ b'b' ∷ b'c' ∷ []

read_back_example :
    (file buffer : List ℕ) × (write_piece 3
        (some (start_of_file ++ ((1 ∷ 2 ∷ 3 ∷ []) ++ [])))
        1
        3
        (((b'x' ∷ []) ++ 0 ∷ 5 ∷ []) ++ [])
      ≡ ok (file, buffer))
    × (get_piece_from_file fresh (some file) 1 3 ≡ ok (b'x' ∷ b'\n' ∷ 0 ∷ []))
unfolding malloc
read_back_example =
    write_piece-get_piece_from_file fresh start_of_file (1 ∷ 2 ∷ 3 ∷ []) [] (b'x' ∷ []) 5 [] [] 1 3
      refl (omega arith) refl refl ((λ e. omega arith), tt)

-- Interested on both sides, choked on both.
abbrev peer_state : Connection
peer_state = record {
  status_flags = 120;
  requested_piece = no_request;
  piece_to_send = no_request;
  peer_bitfield = 240 ∷ 1 ∷ [];
}

-- Neither side chokes; interested here only.
abbrev free_peer : Connection
free_peer = record {
  status_flags = 64;
  requested_piece = no_request;
  piece_to_send = no_request;
  peer_bitfield = 2 ∷ replicate 20 0;
}

send_piece_example :
    (flags : ℕ) × (send_piece fresh true
        (some (start_of_file ++ ((1 ∷ 0 ∷ 2 ∷ []) ++ [])))
        peer_state
        1
        3
      ≡ ok (
        framed piece_id (int_bytes 1 ++ (int_bytes 0 ++ (1 ∷ 0 ∷ drop 2 (malloc fresh 3)))),
        record peer_state { status_flags = flags; requested_piece = 1 },
      ))
    × (bit 2 flags ≡ 1)
send_piece_example =
    send_piece_cut fresh true peer_state start_of_file (1 ∷ []) (2 ∷ []) [] 1 3 2 refl (omega arith)
      refl ((λ e. omega arith), tt) (omega arith)

abbrev two_peers : List Connection
two_peers = peer_state ∷ free_peer ∷ []

-- Awaiting a piece of a peer that is interested and choked.
abbrev waiting : Connection
waiting = record peer_state { status_flags = 28 }

-- Peers of which nothing is known; the second tells of piece 6, and is asked for piece 1.
abbrev newcomer : Connection
newcomer = record free_peer { peer_bitfield = 0 ∷ replicate 20 0 }

have-asked_example :
    (handle_message 2 (framed have (int_bytes 6) ++ []) false newcomer
      ≡ ok (told newcomer 6 (replicate 20 0), true))
    × (w : Written) × (on_writable fresh true none 2 256
          (0 ∷ 0 ∷ [])
          (newcomer ∷ told newcomer 6 (replicate 20 0) ∷ [])
          1
        ≡ ok w)
    × (w.sent ≡ some (1, framed request (int_bytes 1 ++ (int_bytes 0 ++ int_bytes 0))))
unfolding bit peer_contains_undownloaded_pieces undownloaded_from bitfield_len shifted_bit
    holds_from
have-asked_example =
    have-asked fresh none 2 256 6 0 (0 ∷ []) (replicate 20 0) []
      (newcomer ∷ told newcomer 6 (replicate 20 0) ∷ []) newcomer (omega arith) (omega arith)
      (omega arith) (omega arith) (omega arith, (omega arith, tt)) refl refl refl refl refl refl
      refl refl

abbrev caller : Peer
caller = record {
  connection = peer_state;
  is_open = true;
  buffer = replicate 100 0;
  test_freed = false;
  sent = none;
}

on_received_handshake_example :
    (handshake : List ℕ) × (construct_handshake fresh file_sha file_sha ≡ ok handshake)
    × (on_received fresh true 16
          ((0 ∷ 0 ∷ []) ++ [])
          (replicate 68 0 ++ [])
          caller
          (bytes handshake)
        ≡ undefined)
unfolding bytes_eq
on_received_handshake_example =
    on_received_handshake fresh true 16 (0 ∷ 0 ∷ []) [] (replicate 68 0) [] file_sha file_sha caller
      refl refl refl refl

on_received_greets_example :
    (handshake : List ℕ) × (flags : ℕ) × (construct_handshake fresh file_sha file_sha
      ≡ ok handshake)
    × (on_received fresh true 2
          (0 ∷ [])
          []
          caller
          (bytes (handshake ++ framed bitfield_id (0 ∷ 0 ∷ [])))
        ≡ ok (record caller {
          connection = record caller.connection {
            status_flags = flags;
            peer_bitfield = framed bitfield_id (0 ∷ 0 ∷ []);
          };
          buffer = wiped 2 caller handshake (framed bitfield_id (0 ∷ 0 ∷ []));
          sent = some (framed interested []);
        }))
    × (bit 6 flags ≡ 1)
unfolding bitfield_len bytes_eq
on_received_greets_example =
    on_received_greets fresh true 2 file_sha file_sha (0 ∷ 0 ∷ []) [] [] caller 6 refl refl refl
      (λ e. omega arith) (omega arith)
