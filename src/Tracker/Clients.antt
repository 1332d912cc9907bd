-- ===== src/Tracker/Clients.antt =====
-- The linked list of clients in src/tracker.c. A `Client *` is the list of the texts from that node
-- on; NULL, and the pointer that nothing has been assigned to yet, is the empty list.
pub mod Absent
use soft_sys_dubstep_ducks.Prelude.{
  ℕ, ◌+◌, List, [], ◌∷◌, Bool, true, false, ◌||◌, ◌&&◌, not, Outcome, ok, undefined, ◌>>=◌,
  bytes_eq, if◌then◌else◌,
}

-- The text of an address, without its NUL.
abbrev pub Ip : Type 0
Ip = List ℕ

abbrev pub ClientList : Type 0
ClientList = List Ip

-- The walk of the `while (1)` loop; a list without a node is a NULL dereference.
unfoldable pub add_if_absent : ClientList → Ip → ℕ → Outcome (ClientList × ℕ)
add_if_absent [] ip num_clients = undefined
add_if_absent (c ∷ []) ip num_clients =
    if bytes_eq c ip then ok (c ∷ [], num_clients) else ok (c ∷ ip ∷ [], num_clients + 1)
add_if_absent (c ∷ d ∷ rest) ip num_clients =
    let more = do r ← add_if_absent (d ∷ rest) ip num_clients; ok (c ∷ r.0, r.1)
    in if bytes_eq c ip then ok (c ∷ d ∷ rest, num_clients) else more

-- The nodes that are freed, in order. The texts that they point to are not.
unfoldable pub destroy_client_list : ClientList → Outcome (List Ip)
destroy_client_list [] = undefined
destroy_client_list (c ∷ []) = ok (c ∷ [])
destroy_client_list (c ∷ d ∷ rest) = do freed ← destroy_client_list (d ∷ rest); ok (c ∷ freed)

-- The number of nodes from the head on, as `sendClients` counts them.
unfoldable pub count_nodes : ClientList → Outcome ℕ
count_nodes [] = undefined
count_nodes (c ∷ []) = ok 1
count_nodes (c ∷ d ∷ rest) = do n ← count_nodes (d ∷ rest); ok (n + 1)

-- Whether an address stands in the list.
unfoldable pub contains : Ip → ClientList → Bool
contains ip [] = false
contains ip (c ∷ rest) = bytes_eq c ip || contains ip rest

-- No address stands twice in the list.
unfoldable pub distinct : ClientList → Bool
distinct [] = true
distinct (c ∷ rest) = not (contains c rest) && distinct rest

-- The list without an address.
unfoldable pub without : Ip → ClientList → ClientList
without ip [] = []
without ip (c ∷ rest) = if bytes_eq c ip then without ip rest else c ∷ without ip rest
