-- ===== src/Examples/Choked.antt =====
-- A peer that is interested and asks for a piece, and the loop of main in src/torrent.c.
use soft_sys_dubstep_ducks.Prelude.{
  ℕ, drop, arith, ◌+◌, ◌≤◌, ◌≡◌, refl, [], ◌∷◌, ◌++◌, true, false, ok, some, replicate, int_bytes,
  malloc, read_at, write_at, bit,
}
use soft_sys_dubstep_ducks.Wire.{
  interested, have, request, piece_id, get_next_msg, construct_state_message,
}
use soft_sys_dubstep_ducks.Wire.Layout.{framed}
use soft_sys_dubstep_ducks.Connection.{Connection, no_request, set_flag, send_unchoked}
use soft_sys_dubstep_ducks.Torrent.{bitfield_msg_length, bitfield_len}
use soft_sys_dubstep_ducks.Torrent.Messages.{handle_message}
use soft_sys_dubstep_ducks.Torrent.Receive.{bytes, on_received}
use soft_sys_dubstep_ducks.Torrent.Writable.{Written, on_writable}
use soft_sys_dubstep_ducks.Torrent.Writable.Choke.{KeepsChoked}
use soft_sys_dubstep_ducks.Torrent.Loop.{Download, Client, Visit, read_in, visit}
use soft_sys_dubstep_ducks.Torrent.Rounds.{run, Reach, visiting, timed_out, Event, step, here, next}
use soft_sys_dubstep_ducks.Torrent.Receive.Have.{as_number}
use soft_sys_dubstep_ducks.Torrent.Rounds.Served.{turns, asks_writable, run_serves}
use soft_sys_dubstep_ducks.Torrent.Rounds.Haves.{haves, Reach-haves}
use soft_sys_dubstep_ducks.Torrent.Rounds.Choked.{AllCalm, Reach-withholds}

abbrev fresh : ℕ → ℕ
fresh i = 0

abbrev download : Download
download = record {
  fd = some (replicate 16 b'x');
  total_pieces_in_file = 8;
  piece_size_bytes = 2;
  own = 0 ∷ [];
  own_handshake = replicate 68 0;
  pollout = λ i. true;
}

abbrev idle : Connection
idle = record {
  status_flags = 40;
  requested_piece = no_request;
  piece_to_send = no_request;
  peer_bitfield = 0 ∷ [];
}

abbrev client : Client
client = record {
  connections = idle ∷ idle ∷ [];
  fds = true ∷ true ∷ [];
  buffer = replicate 20 0;
  max_peer_index = 1;
  test_freed = false;
}

-- INTERESTED is received, and the answer is UNCHOKE.
abbrev shows_interest : Visit
shows_interest = record {
  received = bytes (framed interested []);
  answers = true;
  writable = true;
  sends = true;
}

abbrev interest_comes : Event
interest_comes = record { polled = timed_out; next_visit = shows_interest }

abbrev asking : Client
asking = record client {
  connections = idle ∷ record idle { status_flags = 56 } ∷ [];
  buffer = framed interested [] ++ replicate 15 0;
}

interest_run : step fresh download (visiting client 1) interest_comes ≡ ok (visiting asking 2)
unfolding step visit on_received bitfield_msg_length bitfield_len handle_message get_next_msg
    read_at on_writable bit set_flag send_unchoked construct_state_message write_at malloc
interest_run = refl

-- Then REQUEST.
abbrev asks : Visit
asks = record {
  received = bytes (framed request (int_bytes 3 ++ (int_bytes 0 ++ int_bytes 0)));
  answers = true;
  writable = true;
  sends = true;
}

abbrev asked : Client
asked = record client {
  connections = idle ∷ record idle { status_flags = 56; piece_to_send = 3 } ∷ [];
  buffer = framed request (int_bytes 3 ++ (int_bytes 0 ++ int_bytes 0)) ++ replicate 3 0;
}

asks_run : read_in fresh download asking 1 asks ≡ ok asked
unfolding read_in on_received bitfield_msg_length bitfield_len handle_message get_next_msg read_at
asks_run = refl

-- The answer is UNCHOKE again.
abbrev answered : Written
answered = record { sent = some (1, framed 1 []); connections = asked.connections; next = 1 }

answer_run : on_writable fresh true download.fd 8 2 download.own asked.connections 1 ≡ ok answered
unfolding on_writable bit set_flag send_unchoked construct_state_message write_at malloc
answer_run = refl

Reach-withholds_example : KeepsChoked answered
unfolding AllCalm bit
Reach-withholds_example =
    Reach-withholds fresh download (next here interest_comes interest_run) 1 asks asked answered
      (refl, (refl, tt)) (tt, (2, refl, refl)) (6, refl, refl) asks_run answer_run

-- A HAVE comes, for piece 3.
abbrev has_piece : Event
has_piece = record {
  polled = timed_out;
  next_visit = record {
    received = bytes (framed have (int_bytes 3));
    answers = true;
    writable = false;
    sends = true;
  };
}

abbrev told : Client
told = record client {
  connections = idle ∷ record idle { peer_bitfield = 16 ∷ [] } ∷ [];
  buffer = framed have (int_bytes 3) ++ replicate 11 0;
  test_freed = true;
}

have_run : step fresh download (visiting client 1) has_piece ≡ ok (visiting told 2)
unfolding step visit on_received bitfield_msg_length bitfield_len handle_message get_next_msg
    read_at write_at
have_run = refl

abbrev one_have : Reach fresh download (visiting client 1) (visiting told 2)
one_have = next here has_piece have_run

Reach-haves_example : haves one_have + as_number client.test_freed ≤ 1
Reach-haves_example = Reach-haves fresh download one_have

one_have_counted : haves one_have ≡ 1
unfolding haves bitfield_msg_length bitfield_len
one_have_counted = refl

-- Of one piece, with a 0 byte at its end.
abbrev one_piece : Download
one_piece = record download {
  fd = some (b'a' ∷ b'b' ∷ 0 ∷ []);
  total_pieces_in_file = 1;
  piece_size_bytes = 3;
}

run_serves_example :
    (s' asker : Client) × (w : Written) × (run fresh one_piece (visiting client 1) turns
      ≡ ok (visiting s' 1))
    × (read_in fresh one_piece s' 1
          (asks_writable (framed request (int_bytes 0 ++ (int_bytes 0 ++ int_bytes 0))))
        ≡ ok asker)
    × (on_writable fresh true one_piece.fd 1 3 one_piece.own asker.connections 1 ≡ ok w)
    × (visit fresh one_piece s' 1
          (asks_writable (framed request (int_bytes 0 ++ (int_bytes 0 ++ int_bytes 0))))
        ≡ ok (record asker { connections = w.connections }, w.next))
    × (w.sent
        ≡ some (
          1,
          framed piece_id
              (int_bytes 0 ++ (int_bytes 0 ++ (b'a' ∷ b'b' ∷ 0 ∷ drop 3 (malloc fresh 3)))),
        ))
run_serves_example =
    run_serves fresh one_piece client idle 0 0 0 [] (b'a' ∷ b'b' ∷ []) [] [] refl refl refl
      (omega arith) refl refl refl refl ((λ e. omega arith), ((λ e. omega arith), tt)) (omega arith)
      (omega arith)
