-- ===== src/Threads.antt =====
-- The handler threads of the tracker in examples/tracker/tracker2.c, over the variables that they and
-- main share. A thread goes on by one access to `args`, `numClients` or `clients` at a time, but for
-- a round of the loop in sendClients, which is one step.
pub mod System
pub mod Runs
pub mod Pointers
pub mod Aliased
pub mod Latest
pub mod Alone
pub mod Commands
pub mod Listing
pub mod Filled
pub mod Orders
pub mod Turns
pub mod Exclusive
pub mod Races
pub mod Overrun
pub mod Listed
pub mod Client
pub mod Start
pub mod Serial
pub mod Served
pub mod Session
pub mod Told
use soft_sys_dubstep_ducks.Prelude.{
  ℕ, zero, suc, ◌+◌, ◌*◌, ◌%◌, List, [], ◌∷◌, Bool, true, false, Outcome, ok, ◌>>=◌, Option, none,
  some, or_undefined, get_elem?, load, malloc, read_at, write_at, if◌then◌else◌, ◌==◌, ltb,
}
use soft_sys_dubstep_ducks.Tracker.Clients.{Ip}
use soft_sys_dubstep_ducks.Tracker.Message.{send_data, send_msg, recv_msg, has_word}
use soft_sys_dubstep_ducks.Tracker.Reply.{ip_entry}
use soft_sys_dubstep_ducks.Tracker.Peers.{list_word, join_word, joined_word}
use soft_sys_dubstep_ducks.Torrent.Connecting.{store}

-- MAXCLIENTS.
abbrev pub max_clients : ℕ
max_clients = 30

-- "failed to join"
abbrev pub failed_word : List ℕ
failed_word =
    b'f' ∷ b'a' ∷ b'i' ∷ b'l' ∷ b'e' ∷ b'd' ∷ 32 ∷ b't' ∷ b'o' ∷ 32 ∷ b'j' ∷ b'o' ∷ b'i' ∷ b'n' ∷ []

-- What is shared: `numClients`, `clients` with its NULLs, the fields of `args` in the frame of main,
-- and the texts at the addresses that are pointed to.
pub record Memory : Type 0 where
  pub num_clients : ℕ
  pub clients : List (Option ℕ)
  pub args_fd : ℕ
  pub args_ip : ℕ
  pub texts : ℕ → Ip

-- Where a handler stands, with its socket, its pointer to an address and what else is live.
pub data Pc : Type 0 where
  starting : Pc
  got_socket : (fd : ℕ) → Pc
  receiving : (fd ip : ℕ) → Pc
  -- addClient, for "list" or for "join"
  testing : (fd ip : ℕ) (lists : Bool) → Pc
  indexing : (fd ip : ℕ) (lists : Bool) → Pc
  loading : (fd ip : ℕ) (lists : Bool) → Pc
  storing : (fd ip : ℕ) (lists : Bool) (n : ℕ) → Pc
  answering : (fd ip : ℕ) (added : Bool) → Pc
  -- sendClients
  listing : (fd ip : ℕ) → Pc
  heading : (fd ip : ℕ) (block : List ℕ) → Pc
  measuring : (fd ip : ℕ) (block : List ℕ) → Pc
  copying : (fd ip : ℕ) (block : List ℕ) (dl i : ℕ) → Pc
  ended : Pc

-- What happens to a thread that it does not decide: what recv delivers, what malloc has left in the
-- buffer for it, and whether send succeeds.
pub record Input : Type 0 where
  pub received : Option (List ℕ)
  pub leftover : ℕ → ℕ
  pub sends : Bool

-- By the message: a first byte 0 ends the loop.
unfoldable pub command : ℕ → ℕ → ℕ → List ℕ → Pc
command fd ip first msg =
    if first == 0
    then ended
    else if has_word msg join_word
    then testing fd ip false
    else if has_word msg list_word
    then testing fd ip true
    else receiving fd ip

-- Behind addClient: for "list" its result is not looked at.
abbrev pub behind_add : ℕ → ℕ → Bool → Bool → Pc
behind_add fd ip true added = listing fd ip
behind_add fd ip false added = answering fd ip added

-- What reaches a socket.
abbrev pub to_socket : ℕ → Option (List ℕ) → Option (ℕ × List ℕ)
to_socket fd none = none
to_socket fd (some bytes) = some (fd, bytes)

-- What a step makes of the memory and of the thread, and what it sends to which socket.
abbrev pub Stepped : Type 0
Stepped = Memory × Pc × Option (ℕ × List ℕ)

-- The round of the loop in sendClients for entry i, while i < numClients; then sendData of dl bytes.
unfoldable pub copy_client : (Ip → ℕ → ℕ) → Memory → ℕ → ℕ → List ℕ → ℕ → ℕ → Bool → Outcome Stepped
copy_client heap m fd ip block dl i sends =
    let copy = do
      entry ← or_undefined (get_elem? m.clients i)
      client ← or_undefined entry
      block' ← write_at block (1 + 16 * i) (ip_entry heap (m.texts client))
      ok (m, copying fd ip block' dl (i + 1), none)
    in let send = do
      bytes ← read_at block 0 dl
      ok (m, receiving fd ip, to_socket fd (send_data sends bytes).0)
      in if ltb i m.num_clients then copy else send

-- One step of a handler. `heap` is what stands in memory behind a text.
unfoldable pub advance : (ℕ → ℕ) → (Ip → ℕ → ℕ) → Memory → Pc → Input → Outcome Stepped
unfolding command copy_client
advance fresh heap m starting v = ok (m, got_socket m.args_fd, none)
advance fresh heap m (got_socket fd) v = ok (m, receiving fd m.args_ip, none)
advance fresh heap m (receiving fd ip) v = do
  let msg = recv_msg v.leftover v.received
  first ← load msg 0
  ok (m, command fd ip first msg, none)
advance fresh heap m (testing fd ip lists) v = ok (
  m,
  (if ltb m.num_clients max_clients then indexing fd ip lists else behind_add fd ip lists false),
  none,
)
advance fresh heap m (indexing fd ip lists) v = do
  clients ← store m.clients m.num_clients (some ip)
  ok (record m { clients = clients }, loading fd ip lists, none)
advance fresh heap m (loading fd ip lists) v = ok (m, storing fd ip lists m.num_clients, none)
advance fresh heap m (storing fd ip lists n) v =
    ok (record m { num_clients = n + 1 }, behind_add fd ip lists true, none)
advance fresh heap m (answering fd ip added) v = do
  r ← send_msg v.sends fresh (if added then joined_word else failed_word)
  ok (m, receiving fd ip, to_socket fd r.0)
advance fresh heap m (listing fd ip) v =
    ok (m, heading fd ip (malloc fresh (1 + 16 * m.num_clients)), none)
advance fresh heap m (heading fd ip block) v = do
  block' ← write_at block 0 ((m.num_clients % 256) ∷ [])
  ok (m, measuring fd ip block', none)
advance fresh heap m (measuring fd ip block) v =
    ok (m, copying fd ip block (16 * m.num_clients) 0, none)
advance fresh heap m (copying fd ip block dl i) v = copy_client heap m fd ip block dl i v.sends
advance fresh heap m ended v = ok (m, ended, none)
