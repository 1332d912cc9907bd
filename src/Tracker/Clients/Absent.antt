-- ===== src/Tracker/Clients/Absent.antt =====
-- What addIfAbsent, destroyClientList and the count in sendClients of src/tracker.c do to the list.
use soft_sys_dubstep_ducks.Prelude.{
  ℕ, ◌+◌, ◌≡◌, refl, List, [], ◌∷◌, ◌++◌, true, false, ◌||◌, ok, bytes_eq, bytes_eq_refl,
  bytes_eq→eq, if◌then◌else◌, arith, length, ap,
}
use soft_sys_dubstep_ducks.Tracker.Clients.{
  Ip, ClientList, add_if_absent, destroy_client_list, count_nodes, contains, distinct, without,
}

-- The list that `add_if_absent` leaves.
abbrev pub added : ClientList → Ip → ClientList
added clients ip = if contains ip clients then clients else clients ++ ip ∷ []

-- An address that is there changes nothing; another is appended, and counted.
pub add_if_absent_lem :
    (c : Ip) (rest : ClientList) (ip : Ip) (n : ℕ)
    → add_if_absent (c ∷ rest) ip n
      ≡ ok (added (c ∷ rest) ip, if contains ip (c ∷ rest) then n else n + 1)
unfolding add_if_absent contains
add_if_absent_lem c [] ip n = ground arith
add_if_absent_lem c (d ∷ rest) ip n = ground (arith, add_if_absent_lem d rest ip n)

-- `contains` and the other walks on a list with one more address at its end.
pub contains-append :
    (j ip : Ip) (clients : ClientList)
    → contains j (clients ++ ip ∷ []) ≡ (contains j clients || bytes_eq ip j)
unfolding contains
contains-append j ip [] = ground arith
contains-append j ip (c ∷ rest) = ground (arith, contains-append j ip rest)

-- Two tests for the same two texts agree.
bytes_eq_sym : (a b : List ℕ) → bytes_eq a b ≡ true → bytes_eq b a ≡ true
bytes_eq_sym a b h = rw (bytes_eq→eq a b h) (bytes_eq_refl b)

contains-subst : (a b : Ip) (l : ClientList) → bytes_eq a b ≡ true → contains a l ≡ contains b l
contains-subst a b l h = ap (λ k. contains k l) (bytes_eq→eq a b h)

pub distinct-append :
    (ip : Ip) (clients : ClientList)
    → distinct clients ≡ true
    → contains ip clients ≡ false
    → distinct (clients ++ ip ∷ []) ≡ true
unfolding distinct contains
distinct-append ip [] d h = refl
distinct-append ip (c ∷ rest) d h = ground (
  arith,
  distinct-append ip rest,
  contains-append c ip rest,
  bytes_eq_sym ip c,
  contains-subst c ip rest,
)

-- Adding keeps the addresses distinct, and adds the one address.
pub added-distinct :
    (clients : ClientList) (ip : Ip) → distinct clients ≡ true → distinct (added clients ip) ≡ true
added-distinct clients ip d = ground (arith, distinct-append ip clients)

pub contains-added :
    (j ip : Ip) (clients : ClientList)
    → contains j (added clients ip) ≡ (contains j clients || bytes_eq ip j)
contains-added j ip clients =
    ground (arith, contains-append j ip clients, contains-subst ip j clients)

-- `without` leaves a list as it is from which the address is absent.
pub without_absent : (ip : Ip) (l : ClientList) → contains ip l ≡ false → without ip l ≡ l
unfolding contains without
without_absent ip [] h = refl
without_absent ip (c ∷ rest) h = ground (arith, without_absent ip rest)

-- Of distinct addresses it takes away one, if that one is there.
pub length-without :
    (ip : Ip) (l : ClientList)
    → distinct l ≡ true
    → contains ip l ≡ true
    → length (without ip l) + 1 ≡ length l
unfolding contains without distinct
length-without ip [] d h = cc
length-without ip (c ∷ rest) d h =
    ground (arith, length-without ip rest, without_absent ip rest, contains-subst c ip rest)

-- The count of the nodes is the length of the list.
pub count_nodes_lem : (c : Ip) (rest : ClientList) → count_nodes (c ∷ rest) ≡ ok (length (c ∷ rest))
unfolding count_nodes
count_nodes_lem c [] = refl
count_nodes_lem c (d ∷ rest) = ground (arith, count_nodes_lem d rest)

-- Every node of a list is freed, once and from the head on.
pub destroy_client_list_lem :
    (c : Ip) (rest : ClientList) → destroy_client_list (c ∷ rest) ≡ ok (c ∷ rest)
unfolding destroy_client_list
destroy_client_list_lem c [] = refl
destroy_client_list_lem c (d ∷ rest) = ground (arith, destroy_client_list_lem d rest)
