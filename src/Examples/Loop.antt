-- ===== src/Examples/Loop.antt =====
-- The connecting phase and the loop of main in src/torrent.c on small inputs.
use soft_sys_dubstep_ducks.Prelude.{
  ℕ, zero, suc, ◌≤◌, ◌≡◌, refl, List, [], ◌∷◌, true, false, ok, undefined, none, some, arith,
  replicate, get_elem?,
}
use soft_sys_dubstep_ducks.Pieces.{is_plain, set_initial_bitfield}
use soft_sys_dubstep_ducks.Connection.{Connection, no_request, set_flag}
use soft_sys_dubstep_ducks.Torrent.Receive.{bytes, on_received, on_bytes}
use soft_sys_dubstep_ducks.Torrent.Connecting.{Arrays, Attempt, store}
use soft_sys_dubstep_ducks.Torrent.Loop.{
  Download, Client, Visit, count_have, accept_connection, visit, visits,
}
use soft_sys_dubstep_ducks.Torrent.Loop.Count.{count_have-set_initial_bitfield}
use soft_sys_dubstep_ducks.Torrent.Rounds.{
  polling, visiting, accepted, timed_out, ready, Event, check_listener, on_poll, step, run, here,
  next, accepts,
}
use soft_sys_dubstep_ducks.Torrent.Rounds.Idle.{Reach-idle, closed_round}
use soft_sys_dubstep_ducks.Torrent.Rounds.Closed.{Reach-IsClosed}

abbrev fresh : ℕ → ℕ
fresh i = 0

abbrev file_name : List ℕ
file_name = b'f' ∷ []

count_have_example :
    (bitfield : List ℕ) × (set_initial_bitfield 7 file_name 9 ≡ ok (bitfield, 7))
    × (count_have bitfield 9 ≡ undefined)
unfolding is_plain
count_have_example = count_have-set_initial_bitfield 7 file_name 9 refl (omega arith)

abbrev idle : Connection
idle = record {
  status_flags = 40;
  requested_piece = no_request;
  piece_to_send = no_request;
  peer_bitfield = 0 ∷ [];
}

abbrev silent : Attempt
silent = record {
  socket = some 4;
  connects = true;
  sends_handshake = true;
  received = bytes (1 ∷ []);
  sends_interest = true;
}

abbrev empty : Arrays
empty = record {
  connections = replicate 10 idle;
  fds = replicate 10 true;
  buffer = replicate 100 0;
}

abbrev download : Download
download = record {
  fd = none;
  total_pieces_in_file = 8;
  piece_size_bytes = 256;
  own = 0 ∷ [];
  own_handshake = replicate 68 0;
  pollout = λ i. true;
}

abbrev client : Client
client = record {
  connections = idle ∷ idle ∷ idle ∷ [];
  fds = true ∷ true ∷ false ∷ [];
  buffer = replicate 10 0;
  max_peer_index = 2;
  test_freed = false;
}

abbrev hang_up : Visit
hang_up = record { received = bytes []; answers = true; writable = false; sends = true }

-- Entry 1 hangs up; entry 2 is closed already.
abbrev client_after : Client
client_after = record client {
  connections = idle ∷ record idle { status_flags = 0 } ∷ idle ∷ [];
  fds = true ∷ false ∷ false ∷ [];
}

hang_up_run :
    visits fresh download client 1 (hang_up ∷ hang_up ∷ hang_up ∷ []) ≡ ok (client_after, 3)
unfolding visits visit on_received on_bytes set_flag
hang_up_run = refl

-- Of eight pieces, with a bitfield that is read at the index of each.
abbrev download' : Download
download' = record download { own = replicate 8 0 }

abbrev nothing_comes : Event
nothing_comes = record { polled = timed_out; next_visit = hang_up }

abbrev somebody_connects : Event
somebody_connects = record { polled = ready accepted; next_visit = hang_up }

abbrev waiting : Client
waiting = record client { max_peer_index = 0 }

waiting_run : step fresh download' (polling waiting) nothing_comes ≡ ok (polling waiting)
unfolding step on_poll count_have
waiting_run = refl

Reach-idle_example :
    (waiting.connections ≡ waiting.connections)
    × (waiting.fds ≡ waiting.fds)
    × (waiting.test_freed ≡ waiting.test_freed)
    × (waiting.max_peer_index ≡ 0)
unfolding accepts
Reach-idle_example =
    Reach-idle fresh download'
      (next (next here nothing_comes waiting_run) nothing_comes waiting_run) refl (omega arith)

abbrev closed_client : Client
closed_client = record client { fds = true ∷ false ∷ false ∷ [] }

closed_round_example :
    run fresh download'
      (visiting closed_client 1)
      (nothing_comes ∷ somebody_connects ∷ nothing_comes ∷ [])
    ≡ ok (polling closed_client)
closed_round_example =
    closed_round fresh download' closed_client 1 nothing_comes
      (somebody_connects ∷ nothing_comes ∷ []) (omega arith) both_closed
  where
    both_closed : (k : ℕ) → 1 ≤ k → k ≤ 2 → get_elem? closed_client.fds k ≡ some false
    both_closed zero low high = absurd (omega arith)
    both_closed (suc zero) low high = refl
    both_closed (suc (suc zero)) low high = refl
    both_closed (suc (suc (suc k))) low high = absurd (omega arith)

-- A connection is accepted: entry 1 is opened, and entry 2 stays closed.
abbrev after_accept : Client
after_accept = record closed_client { fds = true ∷ true ∷ false ∷ []; max_peer_index = 3 }

accept_run :
    step fresh download' (polling closed_client) somebody_connects ≡ ok (visiting after_accept 1)
unfolding step on_poll check_listener accept_connection store count_have
accept_run = refl

Reach-IsClosed_example : get_elem? after_accept.fds 2 ≡ some false
Reach-IsClosed_example =
    Reach-IsClosed 2 (λ e. omega arith) (next here somebody_connects accept_run) refl
