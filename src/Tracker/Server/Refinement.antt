-- ===== src/Tracker/Server/Refinement.antt =====
-- The server's list, seen as a set of addresses: who has asked for the list so far.
use soft_sys_dubstep_ducks.Prelude.{
  ℕ, ◌≡◌, refl, List, [], ◌∷◌, Bool, true, false, ◌||◌, ◌&&◌, bytes_eq, if◌then◌else◌, arith, ok,
  undefined,
}
use soft_sys_dubstep_ducks.Tracker.Clients.{Ip, ClientList, contains, distinct, destroy_client_list}
use soft_sys_dubstep_ducks.Tracker.Clients.Absent.{added, contains-added, destroy_client_list_lem}
use soft_sys_dubstep_ducks.Tracker.Message.{recv_msg}
use soft_sys_dubstep_ducks.Tracker.Server.{Server, Accepted, start, serve, run_server}
use soft_sys_dubstep_ducks.Tracker.Server.Invariant.{
  IsServing, asks, after, after_all, replies, serve_lem,
}

-- Whether some connection of a history comes from an address and asks for the list.
abbrev pub asked : Ip → List Accepted → Bool
asked ip [] = false
asked ip (a ∷ rest) = (asks (recv_msg a.leftover a.received) && bytes_eq a.ip ip) || asked ip rest

contains-after :
    (ip : Ip) (s : Server) (a : Accepted)
    → contains ip (after s a).c_head
      ≡ (contains ip s.c_head || (asks (recv_msg a.leftover a.received) && bytes_eq a.ip ip))
contains-after ip s a = ground (arith, contains-added ip a.ip s.c_head)

-- After any history an address is registered exactly if it was, or has asked.
pub contains-after_all :
    (ip : Ip) (connections : List Accepted) (s : Server)
    → contains ip (after_all s connections).c_head ≡ (contains ip s.c_head || asked ip connections)
contains-after_all ip [] s = ground arith
contains-after_all ip (a ∷ rest) s =
    ground (arith, contains-after_all ip rest (after s a), contains-after ip s a)

pub start-IsServing : IsServing start
unfolding distinct
start-IsServing = record { counted = refl; once = refl }

-- The list that the loop has built from nothing is the set of the addresses that have asked: an
-- address is in it exactly if some connection so far came from it and asked for the list.
pub serve-asked :
    (fresh : ℕ → ℕ) (heap : Ip → ℕ → ℕ) (connections : List Accepted) (ip : Ip)
    → (s : Server) × (serve fresh heap start connections ≡ ok (s, replies heap start connections))
      × (contains ip s.c_head ≡ asked ip connections)
unfolding contains
serve-asked fresh heap connections ip = (
  after_all start connections,
  (serve_lem fresh heap connections start start-IsServing).0,
  contains-after_all ip connections start,
)

-- Whether anybody asks.
abbrev pub any_asks : List Accepted → Bool
any_asks [] = false
any_asks (a ∷ rest) = asks (recv_msg a.leftover a.received) || any_asks rest

-- Whether there is a head to free.
abbrev has_head : ClientList → Bool
has_head [] = false
has_head (c ∷ rest) = true

has_head-added : (l : ClientList) (ip : Ip) → has_head (added l ip) ≡ true
unfolding contains
has_head-added [] ip = refl
has_head-added (c ∷ rest) ip = ground arith

has_head-after_all :
    (connections : List Accepted) (s : Server)
    → has_head (after_all s connections).c_head ≡ (has_head s.c_head || any_asks connections)
has_head-after_all [] s = ground arith
has_head-after_all (a ∷ rest) s =
    ground (arith, has_head-after_all rest (after s a), has_head-added s.c_head a.ip)

destroy_client_list-has_head :
    (l : ClientList) → destroy_client_list l ≡ (if has_head l then ok l else undefined)
unfolding destroy_client_list
destroy_client_list-has_head [] = refl
destroy_client_list-has_head (c ∷ rest) = destroy_client_list_lem c rest

-- The whole server: all answers are given and the list is freed if somebody has asked for it.
-- Otherwise `destroyClientList` is handed a pointer that nothing was assigned to.
pub run_server_lem :
    (fresh : ℕ → ℕ) (heap : Ip → ℕ → ℕ) (connections : List Accepted)
    → run_server fresh heap connections
      ≡ (if any_asks connections then ok (replies heap start connections) else undefined)
unfolding run_server
run_server_lem fresh heap connections =
    rw
      (
        (serve_lem fresh heap connections start start-IsServing).0,
        destroy_client_list-has_head (after_all start connections).c_head,
        has_head-after_all connections start,
      )
      (ground arith)
