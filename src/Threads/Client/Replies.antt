-- ===== src/Threads/Client/Replies.antt =====
-- What the client of examples/tracker/client.c knows after a reply of tracker2.c.
use soft_sys_dubstep_ducks.Prelude.{
  ℕ, suc, ◌%◌, ◌≤◌, ◌≡◌, refl, sym, subst, List, [], ◌∷◌, ◌++◌, true, ok, ◌>>=◌, some, arith,
  length, length-append, length-replicate, replicate, lt→ltb,
}
use soft_sys_dubstep_ducks.Tracker.Clients.{Ip}
use soft_sys_dubstep_ducks.Tracker.Message.{build_msg_lem, send_msg}
use soft_sys_dubstep_ducks.Tracker.Peers.{list_word}
use soft_sys_dubstep_ducks.Threads.{max_clients}
use soft_sys_dubstep_ducks.Threads.Listed.{same_entries}
use soft_sys_dubstep_ducks.Threads.Client.{
  rounds, copy_entries, request_list, Line, begins, on_line, obey,
}
use soft_sys_dubstep_ducks.Threads.Client.Lists.{
  flat, entry, last_entry, All-entries, buffer, copy_entries-flat,
}

module _ (fresh : ℕ → ℕ) (heap : Ip → ℕ → ℕ) (x : Ip) (k : ℕ) where
  -- The peers that are taken from a reply for k + 1 clients.
  abbrev pub taken : List (List ℕ)
  taken = replicate k (entry heap x) ++ last_entry heap x fresh (suc k) ∷ []

  rounds_all : suc k ≤ max_clients → rounds (suc k % 256) ≡ suc k
  rounds_all few =
      let e : suc k % 256 ≡ suc k = omega arith in rw (e, lt→ltb (suc k) 128 (omega arith)) refl

  request_list-taken :
      (peers : List (List ℕ))
      → suc k ≤ max_clients
      → request_list fresh true (some (same_entries heap (suc k) x)) peers
        ≡ ok (some (4 ∷ list_word), taken)
  unfolding request_list send_msg
  request_list-taken peers few =
      let b = buffer heap x fresh k few in
      let n : suc k ≡ length taken = omega (
        arith,
        length-append (replicate k (entry heap x)) (last_entry heap x fresh (suc k) ∷ []),
        length-replicate k (entry heap x),
      ) in
      let msg = (suc k % 256) ∷ (flat taken ++ b.0) in
      let copied : copy_entries (suc k) 0 msg ≡ ok taken =
        subst (λ j. copy_entries j 0 msg ≡ ok taken) (sym n)
          (copy_entries-flat ((suc k % 256) ∷ []) b.0 taken 0 refl
            (All-entries heap x fresh k (suc k))) in
      rw (build_msg_lem fresh list_word, b.1, rounds_all few, copied) refl

-- A client that types "l" and receives what examples/tracker/tracker2.c sends for k + 1 clients of the same
-- address, 30 at most: it sends "list", and has k + 1 peers then, k times the entry of that address and its
-- first 15 bytes with a byte of the receive buffer that nothing was received into. It goes on with the next
-- line.
pub obey-list :
    (fresh : ℕ → ℕ) (heap : Ip → ℕ → ℕ) (x : Ip) (k : ℕ) (line : List ℕ) (lines : List Line)
    (peers : List (List ℕ))
    → suc k ≤ max_clients
    → obey fresh
        (record { text = b'l' ∷ line; sends = true; received = some (same_entries heap (suc k) x) }
          ∷ lines)
        peers
      ≡ (obey fresh lines (taken fresh heap x k) >>= λ more. ok ((4 ∷ list_word) ∷ more.0, more.1))
unfolding obey on_line begins
obey-list fresh heap x k line lines peers few =
    rw (request_list-taken fresh heap x k peers few) refl
