-- ===== src/Torrent/Writable.antt =====
-- What main in src/torrent.c does with a connection whose socket can be written to.
pub mod Choice
pub mod Served
pub mod Choke
pub mod Order
use soft_sys_dubstep_ducks.Prelude.{
  ℕ, zero, suc, ◌+◌, ◌^◌, List, [], ◌∷◌, Bool, true, false, ◌&&◌, ◌||◌, not, Outcome, ok, undefined,
  ◌>>=◌, ◌>>◌, Option, none, some, require, or_undefined, load, get_elem?, set, bit, if◌then◌else◌,
  ◌==◌, ltb,
}
use soft_sys_dubstep_ducks.Bitfield.{peer_contains_undownloaded_pieces}
use soft_sys_dubstep_ducks.Connection.{
  Connection, own_interested, own_choke, peer_interested, peer_choke, pending_request, Sent,
  send_interested, send_uninterested, send_unchoked, send_request, send_piece,
}
use soft_sys_dubstep_ducks.Torrent.{bitfield_len}

-- A char as an int, shifted to the right: bit 7 is its sign.
unfoldable pub shifted_bit : ℕ → ℕ → ℕ
shifted_bit b i = if ltb i 8 then bit i b else bit 7 b

-- The `for` loop over the pieces, with n to go from piece i on: i is the index of the loop over the
-- connections as well, so that piece i is looked for in the first byte of connection i. A shift of an
-- int by 32 is undefined.
unfoldable pub first_missing : ℕ → List Connection → ℕ → ℕ → Outcome (Option ℕ)
unfolding shifted_bit
first_missing own connections zero i = ok none
first_missing own connections (suc n) i =
    let rest = first_missing own connections n (i + 1) in
    do
      require (ltb i 32)
      c ← or_undefined (get_elem? connections i)
      peer ← load c.peer_bitfield 0
      if shifted_bit own i == 0 && shifted_bit peer i == 1 then ok (some i) else rest

-- What was sent and to which entry of `fds`, the connections, and the index of the loop afterwards.
pub record Written : Type 0 where
  pub sent : Option (ℕ × List ℕ)
  pub connections : List Connection
  pub next : ℕ

abbrev pub nothing_written : List Connection → ℕ → Written
nothing_written connections i = record { sent = none; connections = connections; next = i }

-- Connection i after something has been sent on it.
abbrev pub deliver : List Connection → ℕ → Sent → Written
deliver connections i r = record {
  sent = some (i, r.0);
  connections = set connections i r.1;
  next = i;
}

-- The piece that is found is the index of the loop over the connections by then, and the connection
-- of that index is the one that gets the request. Without a piece, `piece_index` is indeterminate.
unfoldable pub request_found : (ℕ → ℕ) → Bool → List Connection → Option ℕ → Outcome Written
request_found fresh sends connections none = undefined
request_found fresh sends connections (some piece_index) = do
  c ← or_undefined (get_elem? connections piece_index)
  r ← send_request fresh sends c piece_index
  ok (deliver connections piece_index r)

-- `own` is bitfield_of_current_pieces, `fd` the file of pieces.
unfoldable pub on_writable :
    (ℕ → ℕ) → Bool → Option (List ℕ) → ℕ → ℕ → List ℕ → List Connection → ℕ → Outcome Written
unfolding first_missing request_found
on_writable fresh sends fd total_pieces_in_file piece_size_bytes own connections i = do
  c ← or_undefined (get_elem? connections i)
  let pending = bit pending_request c.status_flags == 1
  let interested = bit own_interested c.status_flags == 1
  let choked = bit own_choke c.status_flags == 1
  let give =
      if ltb c.piece_to_send (2 ^ 31)
      then (send_piece fresh sends fd c c.piece_to_send piece_size_bytes >>= λ r.
          ok (deliver connections i r))
      else ok (nothing_written connections i)
  let unchoke = (send_unchoked fresh sends c >>= λ r. ok (deliver connections i r))
  let ask = do
    own_byte ← load own 0
    found ← first_missing own_byte connections total_pieces_in_file 0
    request_found fresh sends connections found
  let want =
      if interested
      then (if choked then ok (nothing_written connections i) else ask)
      else (send_interested fresh sends c >>= λ r. ok (deliver connections i r))
  let refuse = (send_uninterested fresh sends c >>= λ r. ok (deliver connections i r))
  let take_part = do
    missing ←
        peer_contains_undownloaded_pieces c.peer_bitfield own (bitfield_len total_pieces_in_file)
    if missing then want else refuse
  if bit peer_interested c.status_flags == 1 && (not interested || pending)
      then (if bit peer_choke c.status_flags == 1 then unchoke else give)
      else (if pending then ok (nothing_written connections i) else take_part)
