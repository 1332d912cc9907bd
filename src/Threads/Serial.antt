-- ===== src/Threads/Serial.antt =====
-- The commands of the clients of examples/tracker/tracker2.c, one after the other: what its table and its
-- threads do for them, held against a number of clients.
use soft_sys_dubstep_ducks.Prelude.{
  ℕ, ap, ◌∙◌, ◌+◌, ◌<◌, ◌≡◌, refl, List, [], ◌∷◌, ◌++◌, ok, some, arith, All, All-set, get_elem?,
  get_elem?-set_self, length-set, map, replicate, length, length-append, ltb, ltb→lt, if◌then◌else◌,
  Bool-cases, inl, inr, set,
}
use soft_sys_dubstep_ducks.Tracker.Clients.{Ip}
use soft_sys_dubstep_ducks.Tracker.Peers.{list_word, join_word, joined_word}
use soft_sys_dubstep_ducks.Threads.{max_clients, failed_word, Memory, Pc, receiving}
use soft_sys_dubstep_ducks.Threads.System.{State, Event, turn, run}
use soft_sys_dubstep_ducks.Threads.Runs.{run-append}
use soft_sys_dubstep_ducks.Threads.Pointers.{PointsThere, IsAliased}
use soft_sys_dubstep_ducks.Threads.Commands.{asks, added, joined, serial_join}
use soft_sys_dubstep_ducks.Threads.Filled.{IsFilled}
use soft_sys_dubstep_ducks.Threads.Orders.{behind, stored_unused}
use soft_sys_dubstep_ducks.Threads.Listed.{same_entries, aliased-list}

-- What a client asks for.
pub data Command : Type 0 where
  join_table : Command
  get_list : Command

abbrev pub word : Command → List ℕ
word join_table = join_word
word get_list = list_word

-- The number of clients behind a command, whichever it is.
abbrev pub grow : ℕ → ℕ
grow n = if ltb n max_clients then n + 1 else n

abbrev pub steps : ℕ → Command → ℕ
steps n join_table = if ltb n max_clients then 6 else 3
steps n get_list = if ltb n max_clients then n + 10 else n + 6

abbrev pub answer : (Ip → ℕ → ℕ) → Ip → ℕ → Command → List ℕ
answer heap x n join_table = if ltb n max_clients then 6 ∷ joined_word else 14 ∷ failed_word
answer heap x n get_list = same_entries heap (grow n) x

-- A command of the client of thread k, on socket fd.
abbrev pub Asked : Type 0
Asked = ℕ × ℕ × Command

-- The turns that the commands take, one after the other, beginning with n clients.
unfoldable pub schedule : (ℕ → ℕ) → ℕ → List Asked → List Event
schedule fresh n [] = []
schedule fresh n ((k, fd, c) ∷ commands) =
    map (turn k) (replicate (steps n c) (asks fresh (word c))) ++ schedule fresh (grow n) commands

-- What is to be sent, when every entry is for the address x.
unfoldable pub promised : (Ip → ℕ → ℕ) → Ip → ℕ → List Asked → List (ℕ × List ℕ)
promised heap x n [] = []
promised heap x n ((k, fd, c) ∷ commands) =
    (fd, answer heap x n c) ∷ promised heap x (grow n) commands

unfoldable pub clients_after : ℕ → List Asked → ℕ
clients_after n [] = n
clients_after n (a ∷ commands) = clients_after (grow n) commands

-- The thread waits for a message on that socket.
abbrev pub Waits : ℕ → List Pc → Asked → Type 0
Waits ntoa threads (k, fd, c) = get_elem? threads k ≡ some (receiving fd ntoa)

added-IsFilled :
    (m : Memory) (p : ℕ) → IsFilled m → m.num_clients < max_clients → IsFilled (added m p)
added-IsFilled m p filled room =
    let inside : m.num_clients < length m.clients = rw filled.size room in
    let rest = stored_unused filled.pointers filled.unused m.num_clients (some p) filled.count in
    let stored : set m.clients m.num_clients (some p) ≡ map some filled.pointers ++ rest.0 =
      rw filled.table rest.1 in
    let there' : get_elem? (set m.clients m.num_clients (some p)) m.num_clients ≡ some (some p) =
      get_elem?-set_self m.clients m.num_clients (some p) inside in
    let there = behind filled.pointers rest.0 m.num_clients p filled.count (rw stored at there') in
    record {
      pointers = filled.pointers ++ p ∷ [];
      unused = there.0;
      table = stored ∙ there.1;
      count = omega (arith, filled.count, length-append filled.pointers (p ∷ []));
      size = length-set m.clients m.num_clients (some p) ∙ filled.size;
    }

pub joined-IsFilled : (m : Memory) (p : ℕ) → IsFilled m → IsFilled (joined m p)
joined-IsFilled m p filled = elim (Bool-cases (ltb m.num_clients max_clients)) [
  | inl room ↦ rw room (added-IsFilled m p filled (ltb→lt m.num_clients max_clients room))
  | inr full ↦ rw full filled
]

pub joined-IsAliased :
    (ntoa : ℕ) (t : State)
    → IsAliased ntoa t
    → IsAliased ntoa (record t { memory = joined t.memory ntoa })
joined-IsAliased ntoa t inv = elim (Bool-cases (ltb t.memory.num_clients max_clients)) [
  | inl room ↦ rw room (record {
    known =
        All-set (PointsThere ntoa) t.memory.clients t.memory.num_clients (some ntoa) inv.known refl;
    handlers = inv.handlers;
    written = inv.written;
  })
  | inr full ↦ rw full inv
]

pub joined-texts : (m : Memory) (p : ℕ) → (joined m p).texts ≡ m.texts
joined-texts m p = elim (Bool-cases (ltb m.num_clients max_clients)) [
  | inl room ↦ rw room refl
  | inr full ↦ rw full refl
]

pub grow-joined : (m : Memory) (p : ℕ) → (joined m p).num_clients ≡ grow m.num_clients
grow-joined m p = elim (Bool-cases (ltb m.num_clients max_clients)) [
  | inl room ↦ rw room refl
  | inr full ↦ rw full refl
]

module _ (fresh : ℕ → ℕ) (heap : Ip → ℕ → ℕ) (ntoa : ℕ) where
  -- One command.
  pub serves :
      (t : State) (k fd : ℕ) (c : Command)
      → IsAliased ntoa t
      → IsFilled t.memory
      → get_elem? t.threads k ≡ some (receiving fd ntoa)
      → run fresh heap ntoa t
          (map (turn k) (replicate (steps t.memory.num_clients c) (asks fresh (word c))))
        ≡ ok (
          record t { memory = joined t.memory ntoa },
          (fd, answer heap (t.memory.texts ntoa) t.memory.num_clients c) ∷ [],
        )
  serves t k fd join_table inv filled at_k =
      serial_join fresh heap ntoa t k fd ntoa at_k filled.size
  serves t k fd get_list inv filled at_k =
      rw (← grow-joined t.memory ntoa) (aliased-list fresh heap ntoa t k fd ntoa inv filled at_k)

  -- What comes of commands from a state on: what is promised is sent, the threads wait as before, and the
  -- table is in order.
  abbrev pub Serves : State → List Asked → Ip → Type 0
  Serves t commands x =
      (u : State) × (run fresh heap ntoa t (schedule fresh t.memory.num_clients commands)
        ≡ ok (u, promised heap x t.memory.num_clients commands))
      × IsFilled u.memory
      × (u.threads ≡ t.threads)
      × (u.memory.num_clients ≡ clients_after t.memory.num_clients commands)

  pub each_in_turn :
      (t : State) (commands : List Asked)
      → IsAliased ntoa t
      → IsFilled t.memory
      → All (Waits ntoa t.threads) commands
      → Serves t commands (t.memory.texts ntoa)
  unfolding schedule promised clients_after
  each_in_turn t [] inv filled waits = (t, unfold run in refl, filled, refl, refl)
  each_in_turn t ((k, fd, c) ∷ commands) inv filled (waits, more) =
      let t' : State = record t { memory = joined t.memory ntoa } in
      let ih =
        each_in_turn t' commands (joined-IsAliased ntoa t inv)
          (joined-IsFilled t.memory ntoa filled) more in
      let texts = ap (λ f. f ntoa) (joined-texts t.memory ntoa) in
      let n = grow-joined t.memory ntoa in
      let turns = map (turn k) (replicate (steps t.memory.num_clients c) (asks fresh (word c))) in
      let after : run fresh heap ntoa t' (schedule fresh (grow t.memory.num_clients) commands)
          ≡ ok (ih.0, promised heap (t.memory.texts ntoa) (grow t.memory.num_clients) commands) =
        (rw (n, texts) at ih.1) in
      (
        ih.0,
        rw
            (
              run-append fresh heap ntoa t turns
                  (schedule fresh (grow t.memory.num_clients) commands),
              serves t k fd c inv filled waits,
              after,
            )
            refl,
        ih.2,
        ih.3,
        (rw n at ih.4),
      )
