-- ===== src/Examples/Tracker.antt =====
-- src/tracker.c and src/tracker_serv.c on three connections.
use soft_sys_dubstep_ducks.Prelude.{
  ℕ, ◌≡◌, refl, List, [], ◌∷◌, ok, undefined, none, some, replicate, bytes_eq, malloc,
}
use soft_sys_dubstep_ducks.Tracker.Clients.{
  Ip, ClientList, add_if_absent, contains, distinct, without,
}
use soft_sys_dubstep_ducks.Tracker.Reply.{ip_entry, send_clients}
use soft_sys_dubstep_ducks.Tracker.Reply.Sound.{entries, send_clients-entries}
use soft_sys_dubstep_ducks.Tracker.Peers.{list_word}
use soft_sys_dubstep_ducks.Tracker.Server.{Server, Accepted, start, serve, run_server}
use soft_sys_dubstep_ducks.Tracker.Server.Invariant.{IsServing, after_all, replies, serve_lem}
use soft_sys_dubstep_ducks.Tracker.Server.Refinement.{asked, serve-asked, run_server_lem}

abbrev fresh : ℕ → ℕ
fresh i = 170

abbrev heap : Ip → ℕ → ℕ
heap ip i = 204

abbrev alice : Ip
alice = b'1' ∷ b'.' ∷ b'1' ∷ []

abbrev bob : Ip
bob = b'2' ∷ b'.' ∷ b'2' ∷ []

abbrev carol : Ip
carol = b'3' ∷ b'.' ∷ b'3' ∷ []

abbrev two_clients : ClientList
two_clients = alice ∷ bob ∷ []

abbrev connections : List Accepted
connections =
    record { ip = alice; received = some (4 ∷ list_word); leftover = fresh }
    ∷ record { ip = bob; received = some (4 ∷ list_word); leftover = fresh }
    ∷ record { ip = carol; received = none; leftover = fresh }
    ∷ record { ip = alice; received = some (4 ∷ list_word); leftover = fresh }
    ∷ []

start-IsServing : IsServing start
unfolding distinct
start-IsServing = record { counted = refl; once = refl }

-- The tests of src/tracker_tests.c.
add_if_absent_new : add_if_absent (alice ∷ []) bob 1 ≡ ok (alice ∷ bob ∷ [], 2)
unfolding add_if_absent bytes_eq
add_if_absent_new = refl

add_if_absent_duplicate : add_if_absent two_clients alice 2 ≡ ok (two_clients, 2)
unfolding add_if_absent bytes_eq
add_if_absent_duplicate = refl

serve_example :
    (serve fresh heap start connections
      ≡ ok (after_all start connections, replies heap start connections))
    × IsServing (after_all start connections)
serve_example = serve_lem fresh heap connections start start-IsServing

serve-asked_example :
    (s : Server) × (serve fresh heap start connections ≡ ok (s, replies heap start connections))
    × (contains bob s.c_head ≡ asked bob connections)
serve-asked_example = serve-asked fresh heap connections bob

run_server_example : run_server fresh heap [] ≡ undefined
run_server_example = run_server_lem fresh heap []

send_clients-entries_example :
    send_clients fresh heap two_clients 2 bob ≡ ok (some (1 ∷ ip_entry heap alice))
unfolding distinct contains without entries ip_entry bytes_eq malloc
send_clients-entries_example = send_clients-entries fresh heap alice (bob ∷ []) bob 2 refl refl refl

abbrev peer_block : List ℕ
peer_block = replicate 160 0

abbrev crowd : ClientList
crowd = replicate 11 alice
