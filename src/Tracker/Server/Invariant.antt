-- ===== src/Tracker/Server/Invariant.antt =====
-- The list and the count of the server of src/tracker_serv.c, and its answers.
use soft_sys_dubstep_ducks.Prelude.{
  ℕ, ◌+◌, ◌%◌, ◌≡◌, refl, ap, List, [], ◌∷◌, Bool, true, false, ok, Option, none, some, length,
  arith, if◌then◌else◌, ◌==◌, length-append, Bool-cases, inl, inr, not, ◌&&◌, bytes_eq_refl,
}
use soft_sys_dubstep_ducks.Tracker.Clients.{Ip, ClientList, contains, distinct, without}
use soft_sys_dubstep_ducks.Tracker.Clients.Absent.{
  added, add_if_absent_lem, contains-added, added-distinct,
}
use soft_sys_dubstep_ducks.Tracker.Message.{recv_msg, has_word, length-recv_msg}
use soft_sys_dubstep_ducks.Tracker.Reply.{send_clients}
use soft_sys_dubstep_ducks.Tracker.Reply.Sound.{entries, send_clients-entries}
use soft_sys_dubstep_ducks.Tracker.Peers.{list_word}
use soft_sys_dubstep_ducks.Tracker.Server.{Server, Accepted, register, handle_client, serve}

-- The count is the length of the list, and no address stands in it twice.
pub record IsServing (s : Server) : Type 0 where
  pub counted : s.num_clients ≡ length s.c_head
  pub once : distinct s.c_head ≡ true

-- The server with one more client, unless it is there.
abbrev pub joined : Server → Ip → Server
joined s ip = record { num_clients = length (added s.c_head ip); c_head = added s.c_head ip }

length-added :
    (l : ClientList) (ip : Ip)
    → length (added l ip) ≡ (if contains ip l then length l else length l + 1)
length-added l ip = ground (arith, length-append l (ip ∷ []))

register-joined :
    (l : ClientList) (n : ℕ) (ip : Ip)
    → n ≡ length l
    → register (record { num_clients = n; c_head = l }) ip
      ≡ ok (joined (record { num_clients = n; c_head = l }) ip)
unfolding register contains
register-joined [] n ip e = rw e
register-joined (c ∷ rest) n ip e =
    ground (arith, add_if_absent_lem c rest ip n, length-added (c ∷ rest) ip)

-- The answer to the client: the number of the others, and their entries.
abbrev pub answer : (Ip → ℕ → ℕ) → Ip → ClientList → List ℕ
answer heap ip l = (length (without ip l) % 256) ∷ entries heap (without ip l)

send_clients-answer :
    (fresh : ℕ → ℕ) (heap : Ip → ℕ → ℕ) (l : ClientList) (ip : Ip)
    → distinct l ≡ true
    → contains ip l ≡ true
    → send_clients fresh heap l (length l) ip ≡ ok (some (answer heap ip l))
unfolding contains
send_clients-answer fresh heap [] ip d m = cc
send_clients-answer fresh heap (c ∷ rest) ip d m =
    send_clients-entries fresh heap c rest ip (length (c ∷ rest)) refl d m

contains-added_self : (l : ClientList) (ip : Ip) → contains ip (added l ip) ≡ true
contains-added_self l ip = ground (arith, contains-added ip ip l, bytes_eq_refl ip)

-- What the server takes for a request of the list: a receive buffer whose first byte is not 0 and which
-- reads "list" behind it. What was not received are bytes that malloc has left there.
abbrev pub asks : List ℕ → Bool
asks [] = false
asks (b ∷ rest) = not (b == 0) && has_word (b ∷ rest) list_word

-- A whole round of the loop, on both kinds of message: it returns; a request registers the client
-- and answers with the others; anything else changes nothing and is not answered.
pub handle_client_lem :
    (fresh : ℕ → ℕ) (heap : Ip → ℕ → ℕ) (s : Server) (a : Accepted)
    → IsServing s
    → handle_client fresh heap s a
      ≡ ok (
          if asks (recv_msg a.leftover a.received)
          then (joined s a.ip, some (answer heap a.ip (added s.c_head a.ip)))
          else (s, none))
unfolding handle_client
handle_client_lem fresh heap s a v = go (recv_msg a.leftover a.received) refl
  where
    go :
        (msg : List ℕ)
        → recv_msg a.leftover a.received ≡ msg
        → handle_client fresh heap s a
          ≡ ok (
              if asks msg
              then (joined s a.ip, some (answer heap a.ip (added s.c_head a.ip)))
              else (s, none))
    go [] e = absurd (omega (arith, length-recv_msg a.leftover a.received, ap length e))
    go (b ∷ rest) e =
        rw
          (
            e,
            register-joined s.c_head s.num_clients a.ip v.counted,
            send_clients-answer fresh heap (added s.c_head a.ip) a.ip
                (added-distinct s.c_head a.ip v.once) (contains-added_self s.c_head a.ip),
          )
          (ground arith)

-- The server after a round.
abbrev pub after : Server → Accepted → Server
after s a = if asks (recv_msg a.leftover a.received) then joined s a.ip else s

joined-IsServing : (s : Server) (ip : Ip) → IsServing s → IsServing (joined s ip)
joined-IsServing s ip v = record { counted = refl; once = added-distinct s.c_head ip v.once }

pub after-IsServing : (s : Server) (a : Accepted) → IsServing s → IsServing (after s a)
after-IsServing s a v = elim (Bool-cases (asks (recv_msg a.leftover a.received))) [
  | inl yes_asks ↦ rw yes_asks (joined-IsServing s a.ip v)
  | inr not_asks ↦ rw not_asks v
]

-- The server after a history.
abbrev pub after_all : Server → List Accepted → Server
after_all s [] = s
after_all s (a ∷ rest) = after_all (after s a) rest

-- The answer to a connection, and the answers to a history.
abbrev pub reply : (Ip → ℕ → ℕ) → Server → Accepted → Option (List ℕ)
reply heap s a =
    if asks (recv_msg a.leftover a.received)
    then some (answer heap a.ip (added s.c_head a.ip))
    else none

abbrev pub replies : (Ip → ℕ → ℕ) → Server → List Accepted → List (Option (List ℕ))
replies heap s [] = []
replies heap s (a ∷ rest) = reply heap s a ∷ replies heap (after s a) rest

handle_client-after :
    (fresh : ℕ → ℕ) (heap : Ip → ℕ → ℕ) (s : Server) (a : Accepted)
    → IsServing s
    → handle_client fresh heap s a ≡ ok (after s a, reply heap s a)
handle_client-after fresh heap s a v = rw (handle_client_lem fresh heap s a v) (ground arith)

-- From a state whose list and count agree, and in whose list no address stands twice, the loop goes through
-- any history of connections to its end, where the bytes behind the texts of the addresses are `heap`: it
-- registers exactly the clients of which the receive buffer begins with a byte that is not 0 and "list",
-- and answers exactly those, each with the number of the others that are registered by then and their
-- entries. In the state that it reaches list and count agree again, and no address stands in the list
-- twice.
pub serve_lem :
    (fresh : ℕ → ℕ) (heap : Ip → ℕ → ℕ) (connections : List Accepted) (s : Server)
    → IsServing s
    → (serve fresh heap s connections ≡ ok (after_all s connections, replies heap s connections))
      × IsServing (after_all s connections)
unfolding serve
serve_lem fresh heap [] s v = (refl, v)
serve_lem fresh heap (a ∷ rest) s v =
    let ih = serve_lem fresh heap rest (after s a) (after-IsServing s a v) in
    (rw (handle_client-after fresh heap s a v, ih.0), ih.1)
