-- ===== src/Tracker/Server.antt =====
-- The tracker's server: main of src/tracker_serv.c. Accepting a connection gives the client's
-- address and what it sent; the answers are what is handed to `send`.
pub mod Invariant
pub mod Refinement
use soft_sys_dubstep_ducks.Prelude.{
  ℕ, ◌+◌, List, [], ◌∷◌, Bool, true, false, Outcome, ok, undefined, ◌>>=◌, Option, none, some, load,
  if◌then◌else◌, ◌==◌,
}
use soft_sys_dubstep_ducks.Tracker.Clients.{Ip, ClientList, add_if_absent, destroy_client_list}
use soft_sys_dubstep_ducks.Tracker.Message.{recv_msg, has_word}
use soft_sys_dubstep_ducks.Tracker.Reply.{send_clients}
use soft_sys_dubstep_ducks.Tracker.Peers.{list_word}

-- `c_head` is the empty list as long as nothing is assigned to it.
pub record Server : Type 0 where
  pub num_clients : ℕ
  pub c_head : ClientList

abbrev pub start : Server
start = record { num_clients = 0; c_head = [] }

-- A connection: the address of the client, what `recv` delivers from it, and what malloc has left in
-- the buffer for it.
pub record Accepted : Type 0 where
  pub ip : Ip
  pub received : Option (List ℕ)
  pub leftover : ℕ → ℕ

-- "list": the client becomes the head of an empty list, or is appended if it is absent.
unfoldable pub register : Server → Ip → Outcome Server
register s ip =
    if s.num_clients == 0
    then ok (record { num_clients = 1; c_head = ip ∷ [] })
    else (add_if_absent s.c_head ip s.num_clients >>= λ r.
        ok (record { num_clients = r.1; c_head = r.0 }))

-- The body of the accept loop, with the answer if there is one.
unfoldable pub handle_client :
    (ℕ → ℕ) → (Ip → ℕ → ℕ) → Server → Accepted → Outcome (Server × Option (List ℕ))
unfolding register
handle_client fresh heap s a = do
  let msg = recv_msg a.leftover a.received
  let listed = do
    s' ← register s a.ip
    reply ← send_clients fresh heap s'.c_head s'.num_clients a.ip
    ok (s', reply)
  first ← load msg 0
  if first == 0 then ok (s, none) else if has_word msg list_word then listed else ok (s, none)

-- The loop, until `accept` fails: the answers in order.
unfoldable pub serve :
    (ℕ → ℕ) → (Ip → ℕ → ℕ) → Server → List Accepted → Outcome (Server × List (Option (List ℕ)))
serve fresh heap s [] = ok (s, [])
serve fresh heap s (a ∷ rest) = do
  r ← handle_client fresh heap s a
  more ← serve fresh heap r.0 rest
  ok (more.0, r.1 ∷ more.1)

-- main: the loop, and the list freed behind it.
unfoldable pub run_server :
    (ℕ → ℕ) → (Ip → ℕ → ℕ) → List Accepted → Outcome (List (Option (List ℕ)))
run_server fresh heap connections = do
  r ← serve fresh heap start connections
  freed ← destroy_client_list r.0.c_head
  ok r.1
