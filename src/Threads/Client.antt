-- ===== src/Threads/Client.antt =====
-- The client of that tracker, examples/tracker/client.c: requestPeers and the loop of main. Its
-- joinTracker is that of src/tracker.c.
pub mod Lists
pub mod Replies
use soft_sys_dubstep_ducks.Prelude.{
  ℕ, zero, suc, ◌+◌, ◌*◌, List, [], ◌∷◌, Bool, true, false, Outcome, ok, ◌>>=◌, Option, none, some,
  load, read_at, if◌then◌else◌, ◌==◌, ltb,
}
use soft_sys_dubstep_ducks.Tracker.Message.{send_msg, recv_msg}
use soft_sys_dubstep_ducks.Tracker.Peers.{list_word, join_tracker}

-- recv_msg[0] as an int, where a char is signed: of a negative number there is no round.
abbrev pub rounds : ℕ → ℕ
rounds b = if ltb b 128 then b else 0

-- peers[i] and the following ones, with n to go.
unfoldable pub copy_entries : ℕ → ℕ → List ℕ → Outcome (List (List ℕ))
copy_entries zero i msg = ok []
copy_entries (suc n) i msg = do
  peer ← read_at msg (1 + 16 * i) 16
  more ← copy_entries n (i + 1) msg
  ok (peer ∷ more)

-- What is sent, and the first numPeers entries of `peers` afterwards.
unfoldable pub request_list :
    (ℕ → ℕ) → Bool → Option (List ℕ) → List (List ℕ) → Outcome (Option (List ℕ) × List (List ℕ))
request_list fresh sends received peers = do
  r ← send_msg sends fresh list_word
  let msg = recv_msg fresh received
  let answered = do first ← load msg 0; peers' ← copy_entries (rounds first) 0 msg; ok (r.0, peers')
  if r.1 then answered else ok (r.0, peers)

-- A line that is typed, and what send and recv do if they are called for it.
pub record Line : Type 0 where
  pub text : List ℕ
  pub sends : Bool
  pub received : Option (List ℕ)

unfoldable pub begins : List ℕ → ℕ → Bool
begins [] c = false
begins (b ∷ text) c = b == c

-- What a line makes of the peers, with what is sent; `none` ends the loop.
unfoldable pub on_line :
    (ℕ → ℕ) → Line → List (List ℕ) → Option (Outcome (Option (List ℕ) × List (List ℕ)))
unfolding begins request_list
on_line fresh l peers =
    if begins l.text b'e'
    then none
    else if begins l.text b'j'
    then some (join_tracker l.sends l.received fresh >>= λ r. ok (r.0, peers))
    else if begins l.text b'l'
    then some (request_list fresh l.sends l.received peers)
    else if begins l.text b'r'
    then some (request_list fresh l.sends l.received peers)
    else some (ok (none, peers))

abbrev pub also_sent : Option (List ℕ) → List (List ℕ) → List (List ℕ)
also_sent none more = more
also_sent (some bytes) more = bytes ∷ more

-- The loop over the lines, with all that is sent.
unfoldable pub obey : (ℕ → ℕ) → List Line → List (List ℕ) → Outcome (List (List ℕ) × List (List ℕ))
unfolding on_line
obey fresh [] peers = ok ([], peers)
obey fresh (l ∷ lines) peers = elim (on_line fresh l peers) [
  | none ↦ ok ([], peers)
  | some o ↦ o >>= λ r. obey fresh lines r.1 >>= λ more. ok (also_sent r.0 more.0, more.1)
]
