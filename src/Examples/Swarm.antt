-- ===== src/Examples/Swarm.antt =====
-- The tracker and a client that finds two others.
use soft_sys_dubstep_ducks.Prelude.{
  ℕ, ◌≡◌, refl, List, [], ◌∷◌, true, ◌&&◌, not, ok, none, some, arith, map, c_text, bytes_eq,
  malloc,
}
use soft_sys_dubstep_ducks.Tracker.Clients.{Ip, contains, distinct, without}
use soft_sys_dubstep_ducks.Tracker.Message.{recv_msg, has_word}
use soft_sys_dubstep_ducks.Tracker.Peers.{list_word}
use soft_sys_dubstep_ducks.Tracker.Peers.Exchange.{peer_answer}
use soft_sys_dubstep_ducks.Tracker.Server.{Server, Accepted, start, handle_client, serve}
use soft_sys_dubstep_ducks.Tracker.Server.Invariant.{replies, handle_client_lem, serve_lem}
use soft_sys_dubstep_ducks.Tracker.Server.Refinement.{start-IsServing, asked}
use soft_sys_dubstep_ducks.Torrent.Main.{find_peers}
use soft_sys_dubstep_ducks.Swarm.{find_peers-asked}
use soft_sys_dubstep_ducks.Examples.Main.{fresh, heap, alice, bob, os', os'-IsReached}

abbrev carol : Ip
carol = b'3' ∷ b'.' ∷ b'3' ∷ []

abbrev history : List Accepted
history =
    record { ip = alice; received = some (4 ∷ list_word); leftover = fresh }
    ∷ record { ip = bob; received = some (4 ∷ list_word); leftover = fresh }
    ∷ record { ip = carol; received = none; leftover = fresh }
    ∷ []

abbrev two_registered : Server
two_registered = record { num_clients = 2; c_head = alice ∷ bob ∷ [] }

served : serve fresh heap start history ≡ ok (two_registered, replies heap start history)
unfolding recv_msg has_word bytes_eq contains malloc
served = (serve_lem fresh heap history start start-IsServing).0

carol_asks :
    handle_client fresh heap two_registered
      (record { ip = carol; received = some (4 ∷ list_word); leftover = fresh })
    ≡ ok (
      record { num_clients = 3; c_head = alice ∷ bob ∷ carol ∷ [] },
      some (peer_answer heap (alice ∷ bob ∷ [])),
    )
unfolding recv_msg has_word bytes_eq contains without distinct
carol_asks =
    handle_client_lem fresh heap two_registered
      (record { ip = carol; received = some (4 ∷ list_word); leftover = fresh })
      (record { counted = refl; once = refl })

find_peers-asked_example :
    (found : List (List ℕ)) × (find_peers fresh os' (b'1' ∷ []) ≡ ok found)
    × ((ip : Ip) → contains ip (map c_text found) ≡ (asked ip history && not (bytes_eq carol ip)))
    × (distinct (map c_text found) ≡ true)
find_peers-asked_example =
    find_peers-asked fresh fresh fresh heap history carol os' (b'1' ∷ []) two_registered
      (record { num_clients = 3; c_head = alice ∷ bob ∷ carol ∷ [] }) (replies heap start history)
      served carol_asks os'-IsReached (((λ e. omega arith), tt), omega arith)
      (
        (((λ e. omega arith), ((λ e. omega arith), ((λ e. omega arith), tt))), omega arith),
        ((((λ e. omega arith), ((λ e. omega arith), ((λ e. omega arith), tt))), omega arith), tt),
      )
      (omega arith)
