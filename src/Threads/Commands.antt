-- ===== src/Threads/Commands.antt =====
-- A command of a client of examples/tracker/tracker2.c, from recv to send, while no other thread and
-- not main goes on.
use soft_sys_dubstep_ducks.Prelude.{
  ℕ, ◌+◌, ◌<◌, ◌≡◌, refl, List, [], ◌∷◌, Bool, true, false, ok, none, some, arith, get_elem?, set,
  set_same, map, replicate, length, bytes_eq, if◌then◌else◌, ltb, lt→ltb, ltb→lt, Bool-cases, inl,
  inr,
}
use soft_sys_dubstep_ducks.Tracker.Clients.{Ip}
use soft_sys_dubstep_ducks.Tracker.Message.{send_msg, build_msg_lem, recv_msg-append, has_word}
use soft_sys_dubstep_ducks.Tracker.Peers.{list_word, join_word, joined_word}
use soft_sys_dubstep_ducks.Torrent.Connecting.{store}
use soft_sys_dubstep_ducks.Threads.{
  max_clients, failed_word, Memory, receiving, testing, answering, Input, command, behind_add,
  advance,
}
use soft_sys_dubstep_ducks.Threads.System.{State, turn, run}
use soft_sys_dubstep_ducks.Threads.Alone.{alone, run-alone, also-none}

-- A word of 4 letters is received, and nothing fails.
abbrev pub asks : (ℕ → ℕ) → List ℕ → Input
asks left word = record { received = some (4 ∷ word); leftover = left; sends = true }

-- A client is added.
abbrev pub added : Memory → ℕ → Memory
added m ip = record m {
  num_clients = m.num_clients + 1;
  clients = set m.clients m.num_clients (some ip);
}

module _ (fresh : ℕ → ℕ) (heap : Ip → ℕ → ℕ) (m : Memory) (fd ip : ℕ) where
  hears-join :
      advance fresh heap m (receiving fd ip) (asks fresh join_word)
      ≡ ok (m, testing fd ip false, none)
  unfolding advance command has_word bytes_eq
  hears-join = rw (recv_msg-append fresh (4 ∷ join_word) (omega arith)) refl

  pub hears-list :
      advance fresh heap m (receiving fd ip) (asks fresh list_word)
      ≡ ok (m, testing fd ip true, none)
  unfolding advance command has_word bytes_eq
  hears-list = rw (recv_msg-append fresh (4 ∷ list_word) (omega arith)) refl

  answers :
      (v : Input) (is_added : Bool)
      → v.sends ≡ true
      → advance fresh heap m (answering fd ip is_added) v
        ≡ ok (
          m,
          receiving fd ip,
          some (fd, (if is_added then 6 ∷ joined_word else 14 ∷ failed_word)),
        )
  unfolding advance send_msg
  answers v true e = rw (e, build_msg_lem fresh joined_word) refl
  answers v false e = rw (e, build_msg_lem fresh failed_word) refl

  -- addClient with room: the table grows by one.
  pub alone-adds :
      (lists : Bool) (v : Input) (inputs : List Input)
      → m.num_clients < max_clients
      → length m.clients ≡ max_clients
      → alone fresh heap m (testing fd ip lists) (v ∷ v ∷ v ∷ v ∷ inputs)
        ≡ alone fresh heap (added m ip) (behind_add fd ip lists true) inputs
  unfolding alone advance store
  alone-adds lists v inputs room size =
      let rest = alone fresh heap (added m ip) (behind_add fd ip lists true) inputs in
      rw
        (
          lt→ltb m.num_clients max_clients room,
          lt→ltb m.num_clients (length m.clients) (omega arith),
        )
        (rw (also-none rest, also-none rest, also-none rest, also-none rest) refl)

  -- Without room nothing changes.
  pub alone-fails :
      (lists : Bool) (v : Input) (inputs : List Input)
      → ltb m.num_clients max_clients ≡ false
      → alone fresh heap m (testing fd ip lists) (v ∷ inputs)
        ≡ alone fresh heap m (behind_add fd ip lists false) inputs
  unfolding alone advance
  alone-fails lists v inputs full =
      rw full (also-none (alone fresh heap m (behind_add fd ip lists false) inputs))

-- What "join" makes of the memory, and how many steps it takes.
abbrev pub joined : Memory → ℕ → Memory
joined m ip = if ltb m.num_clients max_clients then added m ip else m

abbrev pub join_steps : Memory → ℕ
join_steps m = if ltb m.num_clients max_clients then 6 else 3

abbrev pub join_reply : Memory → List ℕ
join_reply m = if ltb m.num_clients max_clients then 6 ∷ joined_word else 14 ∷ failed_word

alone-join :
    (fresh : ℕ → ℕ) (heap : Ip → ℕ → ℕ) (m : Memory) (fd ip : ℕ)
    → length m.clients ≡ max_clients
    → alone fresh heap m (receiving fd ip) (replicate (join_steps m) (asks fresh join_word))
      ≡ ok (joined m ip, receiving fd ip, (fd, join_reply m) ∷ [])
unfolding alone
alone-join fresh heap m fd ip size = elim (Bool-cases (ltb m.num_clients max_clients)) [
  | inl room ↦
      rw
        (
          room,
          hears-join fresh heap m fd ip,
          alone-adds fresh heap m fd ip false (asks fresh join_word) (asks fresh join_word ∷ [])
              (ltb→lt m.num_clients max_clients room) size,
          answers fresh heap (added m ip) fd ip (asks fresh join_word) true refl,
        )
        refl
  | inr full ↦
      rw
        (
          full,
          hears-join fresh heap m fd ip,
          alone-fails fresh heap m fd ip false (asks fresh join_word) (asks fresh join_word ∷ [])
              full,
          answers fresh heap m fd ip (asks fresh join_word) false refl,
        )
        refl
]

-- A client's "join", when nothing else goes on: with less than 30 clients it is added behind the
-- others and "joined" is sent to it, after 6 steps; with more, nothing changes and "failed to join" is
-- sent, after 3. Its thread waits for the next message then.
pub serial_join :
    (fresh : ℕ → ℕ) (heap : Ip → ℕ → ℕ) (ntoa : ℕ) (s : State) (k fd ip : ℕ)
    → get_elem? s.threads k ≡ some (receiving fd ip)
    → length s.memory.clients ≡ max_clients
    → run fresh heap ntoa s (map (turn k) (replicate (join_steps s.memory) (asks fresh join_word)))
      ≡ ok (record s { memory = joined s.memory ip }, (fd, join_reply s.memory) ∷ [])
serial_join fresh heap ntoa s k fd ip at_k size =
    rw
      (
        run-alone fresh heap ntoa s k (receiving fd ip)
            (replicate (join_steps s.memory) (asks fresh join_word)) at_k,
        alone-join fresh heap s.memory fd ip size,
        set_same s.threads k (receiving fd ip) at_k,
      )
      refl
