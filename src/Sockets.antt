-- ===== src/Sockets.antt =====
-- The sockets of src/util.c and of src/tracker.c: configure_socket, client_socket_wrapper and
-- configureSocket. What the operating system does is an argument; -1 for a descriptor is `none`.
pub mod Address
pub mod Listener
use soft_sys_dubstep_ducks.Prelude.{
  ℕ, ◌+◌, ◌*◌, ◌/◌, ◌%◌, List, [], ◌∷◌, Bool, true, false, not, Outcome, ok, exits, ◌>>=◌, ◌>>◌,
  exit_if, Option, none, some, replicate, write_at,
}

-- What socket returns, and whether the calls that are made on a descriptor succeed.
pub record Network : Type 0 where
  pub socket : Option ℕ
  pub setsockopt : Option ℕ → Bool
  pub bind : Option ℕ → Bool
  pub listen : Option ℕ → Bool

abbrev pub is_negative : Option ℕ → Bool
is_negative none = true
is_negative (some fd) = false

-- configure_socket of src/util.c: a socket that listens for peers.
unfoldable pub configure_socket : Network → Outcome (Option ℕ)
configure_socket net = do
  let listening_socket = net.socket
  exit_if (not (net.setsockopt listening_socket)) 1
  exit_if (not (net.bind listening_socket)) 1
  exit_if (not (net.listen listening_socket)) 1
  ok listening_socket

-- configureSocket of src/tracker.c: one that listens for clients.
unfoldable pub configure_tracker_socket : Network → Outcome (Option ℕ)
configure_tracker_socket net = do
  let listening_socket = net.socket
  exit_if (not (net.setsockopt listening_socket)) 1
  exit_if (not (net.bind listening_socket)) 1
  exit_if (is_negative listening_socket) 1
  exit_if (not (net.listen listening_socket)) 1
  ok listening_socket

-- sizeof(struct sockaddr_in): the family in 2 bytes, the port in 2, the address in 4, and 8 that are
-- not used.
abbrev pub sockaddr_size : ℕ
sockaddr_size = 16

-- AF_INET, and htons.
abbrev pub af_inet : List ℕ
af_inet = 2 ∷ 0 ∷ []

abbrev pub htons : ℕ → List ℕ
htons port = (port / 256 % 256) ∷ (port % 256) ∷ []

-- inet_pton(AF_INET, text, block + 4): nothing is written for a text that is no address.
unfoldable pub write_address : Option (List ℕ) → List ℕ → Outcome (List ℕ)
write_address none block = ok block
write_address (some address) block = write_at block 4 address

-- client_socket_wrapper: the memory at `remote_addr`, and the new socket.
unfoldable pub client_socket_wrapper :
    (List ℕ → Option (List ℕ)) → Option ℕ → List ℕ → List ℕ → ℕ → Outcome (List ℕ × ℕ)
unfolding write_address
client_socket_wrapper inet_pton socket remote_addr server_address port_number = do
  cleared ← write_at remote_addr 0 (replicate sockaddr_size 0)
  with_family ← write_at cleared 0 af_inet
  with_address ← write_address (inet_pton server_address) with_family
  with_port ← write_at with_address 2 (htons port_number)
  elim socket [ none ↦ exits 1 | some fd ↦ ok (with_port, fd) ]
