-- ===== src/Torrent/Connecting.antt =====
-- The phase of main in src/torrent.c that connects to the peers of the tracker's list.
pub mod Room
use soft_sys_dubstep_ducks.Prelude.{
  ℕ, ◌+◌, ◌-◌, ◌≤◌, List, [], ◌∷◌, ◌++◌, Bool, true, false, not, Outcome, ok, exits, undefined,
  ◌>>=◌, ◌>>◌, exit_if, or_undefined, Option, none, some, length, drop, replicate, require,
  get_elem?, set, if◌then◌else◌, ◌==◌, ltb,
}
use soft_sys_dubstep_ducks.Handshake.{full_handshake_length, checked_handshake}
use soft_sys_dubstep_ducks.Connection.{Connection, Sent, initialize_connection}
use soft_sys_dubstep_ducks.Sockets.{client_socket_wrapper}
use soft_sys_dubstep_ducks.Torrent.{bitfield_msg_length, file_sha}
use soft_sys_dubstep_ducks.Torrent.Receive.{Received, failed, bytes, greet}

-- What the operating system does with one peer: the socket that it gives, whether connect and the two
-- sends succeed, and what recv delivers.
pub record Attempt : Type 0 where
  pub socket : Option ℕ
  pub connects : Bool
  pub sends_handshake : Bool
  pub received : Received
  pub sends_interest : Bool

-- The arrays of MAX_PEERS entries, where of `fds` only counts whether its descriptor is 0 or more,
-- and the buffer.
pub record Arrays : Type 0 where
  pub connections : List Connection
  pub fds : List Bool
  pub buffer : List ℕ

-- MAX_CONNECTIONS.
abbrev pub max_connections : ℕ
max_connections = 500

unfoldable pub peers_to_connect_to : ℕ → ℕ
peers_to_connect_to num_of_peers =
    if ltb (max_connections - 1) num_of_peers then max_connections - 1 else num_of_peers

-- What a peer answers to the handshake: the connection and the buffer. An error and a closed connection
-- make the program exit; another number of bytes is passed over.
unfoldable pub on_answer :
    (ℕ → ℕ) → Bool → ℕ → List ℕ → Connection → List ℕ → Received → Outcome (Connection × List ℕ)
on_answer fresh sends total_pieces_in_file own c buffer failed = exits 1
on_answer fresh sends total_pieces_in_file own c buffer (bytes received) = do
  let n = length received
  let buffer' = received ++ drop n buffer
  let cleared = replicate (length buffer') 0
  let on_handshake = (checked_handshake fresh buffer' file_sha >>= λ checked. ok (c, cleared))
  let on_bitfield = do
    checked ← checked_handshake fresh buffer' file_sha
    r ← greet fresh sends total_pieces_in_file own checked c
    ok (r.1, cleared)
  if n == 0
      then exits 1
      else (if n == full_handshake_length
          then on_handshake
          else (if n == full_handshake_length + bitfield_msg_length total_pieces_in_file
              then on_bitfield
              else ok (c, buffer')))

-- One entry of an array is replaced; outside of the array that is undefined.
unfoldable pub store {ℓ} : {A : Type ℓ} → List A → ℕ → A → Outcome (List A)
store array i a = if ltb i (length array) then ok (set array i a) else undefined

-- LISTENER_PORT_NUMBER.
abbrev pub listener_port : ℕ
listener_port = 30000

-- The phase, with the library's inet_pton, the memory at the local pointer `remote_addr`, whose own
-- address is what is passed to client_socket_wrapper, and the operating system, which is asked about
-- peer i.
module _ (fresh : ℕ → ℕ) (inet_pton : List ℕ → Option (List ℕ)) (remote_addr : List ℕ)
    (system : ℕ → Attempt) (total_pieces_in_file : ℕ) (own : List ℕ) where
  -- One round: the peer with an address, peer i, gets entry i + 1 of `fds`.
  unfoldable pub connect_peer : Arrays → ℕ → List ℕ → Outcome Arrays
  unfolding on_answer store
  connect_peer arrays i address = do
    let attempt = system i
    client ← client_socket_wrapper inet_pton attempt.socket remote_addr address listener_port
    fds ← store arrays.fds (i + 1) true
    c ← or_undefined (get_elem? arrays.connections i)
    let c' = initialize_connection c total_pieces_in_file
    exit_if (not attempt.connects) 1
    exit_if (not attempt.sends_handshake) 1
    r ←
        on_answer fresh attempt.sends_interest total_pieces_in_file own c' arrays.buffer
          attempt.received
    connections ← store arrays.connections i r.0
    ok (record { connections = connections; fds = fds; buffer = r.1 })

  -- The `for` loop, from peer i on.
  unfoldable pub connect_peers : Arrays → ℕ → List (List ℕ) → Outcome Arrays
  unfolding connect_peer
  connect_peers arrays i [] = ok arrays
  connect_peers arrays i (address ∷ rest) = do
    arrays' ← connect_peer arrays i address
    connect_peers arrays' (i + 1) rest
