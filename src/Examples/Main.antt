-- ===== src/Examples/Main.antt =====
-- main of src/torrent.c from its start on, for a torrent of one piece.
use soft_sys_dubstep_ducks.Prelude.{
  ℕ, ◌≡◌, ◌≤◌, refl, [], ◌∷◌, true, false, not, ok, none, some, arith, length, replicate, malloc,
}
use soft_sys_dubstep_ducks.Sockets.{Network, is_negative, configure_socket}
use soft_sys_dubstep_ducks.Tracker.Message.{bufsiz}
use soft_sys_dubstep_ducks.Tracker.Clients.{Ip}
use soft_sys_dubstep_ducks.Tracker.Peers.Exchange.{peer_answer}
use soft_sys_dubstep_ducks.Pieces.{is_plain}
use soft_sys_dubstep_ducks.Connection.{Connection, no_request}
use soft_sys_dubstep_ducks.Torrent.Receive.{failed, on_received}
use soft_sys_dubstep_ducks.Torrent.Connecting.{store}
use soft_sys_dubstep_ducks.Torrent.Loop.{Client, count_have, accept_connection, visit}
use soft_sys_dubstep_ducks.Torrent.Rounds.{
  polling, visiting, accepted, ready, Event, check_listener, on_poll, step, Reach, here, next,
  accepts,
}
use soft_sys_dubstep_ducks.Torrent.Main.{Metainfo, System, connections_from, prepare}
use soft_sys_dubstep_ducks.Torrent.Main.Listed.{
  IsReached, lone_client, lone_download, prepare-alone,
}
use soft_sys_dubstep_ducks.Torrent.Main.Started.{IsStarted, prepare-IsStarted, main_accepts}

abbrev pub fresh : ℕ → ℕ
fresh i = 170

abbrev pub heap : Ip → ℕ → ℕ
heap ip i = 204

abbrev network : Network
network = record {
  socket = some 3;
  setsockopt = λ fd. not (is_negative fd);
  bind = λ fd. true;
  listen = λ fd. true;
}

abbrev unknown : Connection
unknown = record {
  status_flags = 0;
  requested_piece = no_request;
  piece_to_send = no_request;
  peer_bitfield = [];
}

abbrev pub os : System
os = record {
  inet_pton = λ text. none;
  opened = λ fd. none;
  tracker_socket = some 4;
  tracker_connects = true;
  list_sent = true;
  tracker_answer = some (0 ∷ []);
  listener = network;
  peer = λ i. record {
    socket = none;
    connects = false;
    sends_handshake = false;
    received = failed;
    sends_interest = false;
  };
  file_destination = 5;
  connection = λ i. unknown;
  remote_addr = replicate 8 0;
}

abbrev ans : Metainfo
ans = record { announce = b'1' ∷ []; name = b'f' ∷ []; num_pieces = 1; piece_length = 256 }

os-IsReached : IsReached os
os-IsReached = record { has_socket = refl; connects = refl; asked = refl }

prepare-alone_example : prepare fresh os ans ≡ ok (lone_download os ans, lone_client fresh os)
unfolding configure_socket is_plain
prepare-alone_example =
    prepare-alone fresh os ans 3 os-IsReached refl refl (((λ e. omega arith), tt), omega arith) refl

prepare-IsStarted_example : IsStarted fresh os ans (lone_download os ans, lone_client fresh os)
prepare-IsStarted_example =
    prepare-IsStarted fresh os ans (lone_download os ans) (lone_client fresh os)
      prepare-alone_example

-- Somebody connects; the socket cannot be read, and the round is over.
abbrev connecting : Event
connecting = record {
  polled = ready accepted;
  next_visit = record { received = failed; answers = true; writable = false; sends = true };
}

abbrev joined : Client
joined = record (lone_client fresh os) {
  connections = replicate 10 unknown;
  buffer = replicate (length (malloc fresh bufsiz)) 0;
  max_peer_index = 1;
}

accept_run :
    step fresh (lone_download os ans) (polling (lone_client fresh os)) connecting
    ≡ ok (visiting joined 1)
unfolding step on_poll check_listener accept_connection store count_have connections_from
accept_run = refl

visit_run :
    step fresh (lone_download os ans) (visiting joined 1) connecting ≡ ok (visiting joined 2)
unfolding step visit on_received
visit_run = refl

end_run : step fresh (lone_download os ans) (visiting joined 2) connecting ≡ ok (polling joined)
unfolding step
end_run = refl

abbrev one_round :
    Reach fresh (lone_download os ans) (polling (lone_client fresh os)) (polling joined)
one_round = next (next (next here connecting accept_run) connecting visit_run) connecting end_run

main_accepts_example : (joined.max_peer_index ≡ accepts one_round) × (accepts one_round ≤ 9)
main_accepts_example =
    main_accepts fresh os ans (lone_download os ans) (lone_client fresh os) joined
      prepare-alone_example one_round

abbrev pub alice : Ip
alice = b'1' ∷ b'.' ∷ b'1' ∷ []

abbrev pub bob : Ip
bob = b'2' ∷ b'.' ∷ b'2' ∷ []

abbrev pub os' : System
os' = record os { tracker_answer = some (peer_answer heap (alice ∷ bob ∷ [])) }

pub os'-IsReached : IsReached os'
os'-IsReached = record { has_socket = refl; connects = refl; asked = refl }
