-- ===== src/Torrent/Loop.antt =====
-- The loop of main in src/torrent.c: what it counts, what it accepts, and its visits to the entries of
-- `fds`.
pub mod Count
pub mod Visits
use soft_sys_dubstep_ducks.Prelude.{
  ℕ, zero, suc, ◌+◌, List, [], ◌∷◌, Bool, true, false, not, ◌&&◌, Outcome, ok, undefined, ◌>>=◌,
  ◌>>◌, or_undefined, Option, none, some, load, get_elem?, set, bit_and, if◌then◌else◌, ◌==◌, ltb,
}
use soft_sys_dubstep_ducks.Connection.{Connection}
use soft_sys_dubstep_ducks.Torrent.Receive.{Received, Peer, on_received}
use soft_sys_dubstep_ducks.Torrent.Writable.{Written, on_writable}
use soft_sys_dubstep_ducks.Torrent.Connecting.{store}

-- num_have_pieces, with n entries to go from entry i on: `& 255 == 1` is `& (255 == 1)`, which is `& 0`.
unfoldable pub count_have_from : List ℕ → ℕ → ℕ → ℕ → Outcome ℕ
count_have_from own zero i num_have_pieces = ok num_have_pieces
count_have_from own (suc n) i num_have_pieces = do
  b ← load own i
  count_have_from own n (i + 1) (if bit_and b 0 == 0 then num_have_pieces else num_have_pieces + 1)

unfoldable pub count_have : List ℕ → ℕ → Outcome ℕ
unfolding count_have_from
count_have own total_pieces_in_file = count_have_from own total_pieces_in_file 0 0

-- What does not change in the loop: the file of pieces, the numbers from the metainfo, one's own
-- bitfield and handshake, and at which entries of `fds` POLLOUT is asked for: `events` of an entry is 0
-- unless main has set it before the loop.
pub record Download : Type 0 where
  pub fd : Option (List ℕ)
  pub total_pieces_in_file : ℕ
  pub piece_size_bytes : ℕ
  pub own : List ℕ
  pub own_handshake : List ℕ
  pub pollout : ℕ → Bool

-- What does: the arrays, the buffer, the number of entries that are visited, and whether the block
-- `test` is freed.
pub record Client : Type 0 where
  pub connections : List Connection
  pub fds : List Bool
  pub buffer : List ℕ
  pub max_peer_index : ℕ
  pub test_freed : Bool

-- A new connection: it becomes entry 1 of `fds`, whatever that was.
unfoldable pub accept_connection : Client → Outcome Client
accept_connection s = do
  fds ← store s.fds 1 true
  ok (record s { fds = fds; max_peer_index = s.max_peer_index + 1 })

-- What the operating system does on one visit: what recv delivers and whether the answer is sent,
-- whether poll finds the socket writable if it is asked to, and whether what is written then is sent.
pub record Visit : Type 0 where
  pub received : Received
  pub answers : Bool
  pub writable : Bool
  pub sends : Bool

-- POLLOUT: the client and the index of the loop.
unfoldable pub write_out : (ℕ → ℕ) → Download → Client → ℕ → Bool → Outcome (Client × ℕ)
write_out fresh d s i sends = do
  w ← on_writable fresh sends d.fd d.total_pieces_in_file d.piece_size_bytes d.own s.connections i
  ok (record s { connections = w.connections }, w.next)

-- What is received at an entry, and the answer.
unfoldable pub read_in : (ℕ → ℕ) → Download → Client → ℕ → Visit → Outcome Client
read_in fresh d s i v = do
  c ← or_undefined (get_elem? s.connections i)
  p ←
      on_received fresh v.answers d.total_pieces_in_file d.own d.own_handshake
        (record {
          connection = c;
          is_open = true;
          buffer = s.buffer;
          test_freed = s.test_freed;
          sent = none;
        })
        v.received
  ok (record s {
    connections = set s.connections i p.connection;
    fds = set s.fds i p.is_open;
    buffer = p.buffer;
    test_freed = p.test_freed;
  })

-- The body of the loop over the entries: the client, and the index before it is incremented.
unfoldable pub visit : (ℕ → ℕ) → Download → Client → ℕ → Visit → Outcome (Client × ℕ)
unfolding write_out read_in
visit fresh d s i v = do
  is_open ← or_undefined (get_elem? s.fds i)
  let go = do
    s' ← read_in fresh d s i v
    if v.writable && d.pollout i then write_out fresh d s' i v.sends else ok (s', i)
  if is_open then go else ok (s, i)

-- The visits of one round from index i on, as many as are given: the index is set back by a request,
-- so that a round need not end. With the client comes the index that is next.
unfoldable pub visits : (ℕ → ℕ) → Download → Client → ℕ → List Visit → Outcome (Client × ℕ)
unfolding visit
visits fresh d s i [] = ok (s, i)
visits fresh d s i (v ∷ rest) =
    let go = do r ← visit fresh d s i v; visits fresh d r.0 (r.1 + 1) rest
    in if ltb i (s.max_peer_index + 1) then go else ok (s, i)
