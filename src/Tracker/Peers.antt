-- ===== src/Tracker/Peers.antt =====
-- The client's side of the tracker: requestPeers and joinTracker of src/tracker.c, and what main in
-- src/torrent.c does with the peer list.
pub mod Exchange
use soft_sys_dubstep_ducks.Prelude.{
  ℕ, zero, suc, ◌+◌, ◌*◌, ◌/◌, List, [], ◌∷◌, Bool, true, false, Outcome, ok, undefined, ◌>>=◌,
  ◌>>◌, Option, none, some, require, load, read_at, write_at, if◌then◌else◌, ◌==◌,
}
use soft_sys_dubstep_ducks.Tracker.Message.{send_msg, recv_msg, has_word}
use soft_sys_dubstep_ducks.Tracker.Reply.{ip_size}

abbrev pub list_word : List ℕ
list_word = b'l' ∷ b'i' ∷ b's' ∷ b't' ∷ []

abbrev pub join_word : List ℕ
join_word = b'j' ∷ b'o' ∷ b'i' ∷ b'n' ∷ []

abbrev pub joined_word : List ℕ
joined_word = b'j' ∷ b'o' ∷ b'i' ∷ b'n' ∷ b'e' ∷ b'd' ∷ []

-- The caller's buffer of addresses and its int of peers, whose low byte alone is written.
pub record PeerBuffer : Type 0 where
  pub peers : List ℕ
  pub num_peers : ℕ

-- The answer in the receive buffer, copied to the caller's memory.
unfoldable pub store_peers : List ℕ → PeerBuffer → Outcome PeerBuffer
store_peers msg buffer = do
  count ← load msg 0
  let num_peers = buffer.num_peers / 256 * 256 + count
  bytes ← read_at msg 1 (num_peers * 16)
  peers ← write_at buffer.peers 0 bytes
  ok (record { peers = peers; num_peers = num_peers })

-- What is sent, and the caller's memory afterwards.
unfoldable pub request_peers :
    Bool → Option (List ℕ) → (ℕ → ℕ) → PeerBuffer → Outcome (Option (List ℕ) × PeerBuffer)
unfolding store_peers
request_peers sends received fresh buffer = do
  r ← send_msg sends fresh list_word
  let answered = store_peers (recv_msg fresh received) buffer
  if r.1 then (answered >>= λ buffer'. ok (r.0, buffer')) else ok (r.0, buffer)

-- The answer to "join". If it is not "joined", its characters are passed to printf as pointers to
-- text, which is undefined unless there is none. (`msg_len` is the first byte, made unsigned.)
unfoldable pub join_answer : List ℕ → Outcome Bool
join_answer msg = do
  msg_len ← load msg 0
  if has_word msg joined_word then ok true else (require (msg_len == 0) >> ok false)

-- What is sent, and whether the client joined.
unfoldable pub join_tracker : Bool → Option (List ℕ) → (ℕ → ℕ) → Outcome (Option (List ℕ) × Bool)
unfolding join_answer
join_tracker sends received fresh = do
  r ← send_msg sends fresh join_word
  let answered = join_answer (recv_msg fresh received)
  if r.1 then (answered >>= λ joined. ok (r.0, joined)) else ok (r.0, false)

-- main: memcpy(peers[j], peer_buf + (16 * j), 16) for each peer, from peer j on, with n to go.
unfoldable pub copy_peers : ℕ → ℕ → List ℕ → Outcome (List (List ℕ))
copy_peers zero j peer_buf = ok []
copy_peers (suc n) j peer_buf = do
  peer ← read_at peer_buf (ip_size * j) ip_size
  more ← copy_peers n (j + 1) peer_buf
  ok (peer ∷ more)
