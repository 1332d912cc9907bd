-- ===== src/Torrent/Main.antt =====
-- main of src/torrent.c behind its call of decodeFile and up to its loop: from the metainfo to the arrays
-- that the loop starts with.
pub mod Started
pub mod Listed
use soft_sys_dubstep_ducks.Prelude.{
  ℕ, zero, suc, ◌+◌, ◌*◌, List, [], ◌∷◌, ◌++◌, Bool, true, false, not, Outcome, ok, ◌>>=◌, ◌>>◌,
  exit_if, Option, none, some, take, malloc, replicate, c_string, length, ltb,
}
use soft_sys_dubstep_ducks.Handshake.{construct_handshake}
use soft_sys_dubstep_ducks.Pieces.{set_initial_bitfield}
use soft_sys_dubstep_ducks.Sockets.{Network, is_negative, configure_socket}
use soft_sys_dubstep_ducks.Tracker.Message.{bufsiz}
use soft_sys_dubstep_ducks.Tracker.Reply.{ip_size}
use soft_sys_dubstep_ducks.Tracker.Peers.{PeerBuffer, request_peers, copy_peers}
use soft_sys_dubstep_ducks.Tracker.Peers.Exchange.{max_peers}
use soft_sys_dubstep_ducks.Connection.{Connection}
use soft_sys_dubstep_ducks.Torrent.{file_sha, own_id}
use soft_sys_dubstep_ducks.Torrent.Connecting.{
  Arrays, Attempt, peers_to_connect_to, store, connect_peers,
}
use soft_sys_dubstep_ducks.Torrent.Loop.{Download, Client}

-- What main reads of `ans`: texts without their NUL, and ints that are not negative.
pub record Metainfo : Type 0 where
  pub announce : List ℕ
  pub name : List ℕ
  pub num_pieces : ℕ
  pub piece_length : ℕ

-- What main does not decide: the calls of the operating system, what inet_pton says, the file behind
-- a descriptor, and memory that nothing has been written to. `remote_addr` is the memory at the local
-- pointer of that name.
pub record System : Type 0 where
  pub inet_pton : List ℕ → Option (List ℕ)
  pub opened : ℕ → Option (List ℕ)
  pub tracker_socket : Option ℕ
  pub tracker_connects : Bool
  pub list_sent : Bool
  pub tracker_answer : Option (List ℕ)
  pub listener : Network
  pub peer : ℕ → Attempt
  pub file_destination : ℕ
  pub connection : ℕ → Connection
  pub remote_addr : List ℕ

-- The texts of the peers, as printf prints them.
unfoldable pub print_peers : List (List ℕ) → Outcome (List (List ℕ))
print_peers [] = ok []
print_peers (peer ∷ rest) = do text ← c_string peer; texts ← print_peers rest; ok (text ∷ texts)

-- An array of n connections, from entry i on.
unfoldable pub connections_from : (ℕ → Connection) → ℕ → ℕ → List Connection
connections_from connection i zero = []
connections_from connection i (suc n) = connection i ∷ connections_from connection (i + 1) n

-- What the 16 bytes from the announced address on are.
unfoldable pub tracker_ip : (ℕ → ℕ) → List ℕ → List ℕ
tracker_ip fresh announce = take ip_size (announce ++ 0 ∷ malloc fresh ip_size)

-- The peers of the tracker's list, if the tracker can be reached.
unfoldable pub find_peers : (ℕ → ℕ) → System → List ℕ → Outcome (List (List ℕ))
unfolding print_peers tracker_ip
find_peers fresh os announce = do
  text ← c_string (tracker_ip fresh announce)
  exit_if (is_negative os.tracker_socket) 1
  exit_if (not os.tracker_connects) 1
  r ←
      request_peers os.list_sent os.tracker_answer fresh
        (record { peers = replicate (max_peers * ip_size) 0; num_peers = 0 })
  peers ← copy_peers r.1.num_peers 0 r.1.peers
  texts ← print_peers peers
  ok peers

-- The arrays behind the phase that connects. memset leaves 0 in each entry of `fds`, which is not
-- negative.
unfoldable pub connect_all :
    (ℕ → ℕ) → System → ℕ → List ℕ → Option ℕ → List (List ℕ) → ℕ → Outcome Arrays
unfolding connections_from
connect_all fresh os num_pieces bitfield listener_socket peers num_of_peers = do
  fds ← store (replicate max_peers true) 0 (not (is_negative listener_socket))
  connect_peers fresh os.inet_pton os.remote_addr os.peer num_pieces bitfield
      (record {
        connections = connections_from os.connection 0 max_peers;
        fds = fds;
        buffer = malloc fresh bufsiz;
      })
      0 (take (peers_to_connect_to num_of_peers) peers)

-- What does not change in the loop, and the client that it starts with.
unfoldable pub prepare : (ℕ → ℕ) → System → Metainfo → Outcome (Download × Client)
unfolding find_peers connect_all
prepare fresh os ans = do
  initial ← set_initial_bitfield os.file_destination ans.name ans.num_pieces
  own_handshake ← construct_handshake fresh file_sha own_id
  peers ← find_peers fresh os ans.announce
  listener_socket ← configure_socket os.listener
  arrays ← connect_all fresh os ans.num_pieces initial.0 listener_socket peers (length peers)
  ok (
    record {
      fd = os.opened initial.1;
      total_pieces_in_file = ans.num_pieces;
      piece_size_bytes = ans.piece_length;
      own = initial.0;
      own_handshake = own_handshake;
      pollout = λ i. ltb i (1 + peers_to_connect_to (length peers));
    },
    record {
      connections = arrays.connections;
      fds = arrays.fds;
      buffer = arrays.buffer;
      max_peer_index = 0;
      test_freed = false;
    },
  )
