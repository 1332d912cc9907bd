-- ===== src/Threads/Filled.antt =====
-- The table of addClient in examples/tracker/tracker2.c, filled from its beginning, and what a thread
-- that is inside of addClient takes for granted of it.
use soft_sys_dubstep_ducks.Prelude.{
  ℕ, suc, ap, ◌<◌, ◌≡◌, refl, List, [], ◌∷◌, ◌++◌, Bool, true, false, Option, some, get_elem?, map,
  length,
}
use soft_sys_dubstep_ducks.Threads.{
  max_clients, Memory, Pc, starting, got_socket, receiving, testing, indexing, loading, storing,
  answering, listing, heading, measuring, copying, ended,
}

-- The first numClients entries are pointers.
pub record IsFilled (m : Memory) : Type 0 where
  pub pointers : List ℕ
  pub unused : List (Option ℕ)
  pub table : m.clients ≡ map some pointers ++ unused
  pub count : m.num_clients ≡ length pointers
  pub size : length m.clients ≡ max_clients

-- Between the test of addClient and its last store.
abbrev pub adds : Pc → Bool
adds starting = false
adds (got_socket fd) = false
adds (receiving fd ip) = false
adds (testing fd ip lists) = false
adds (indexing fd ip lists) = true
adds (loading fd ip lists) = true
adds (storing fd ip lists n) = true
adds (answering fd ip added) = false
adds (listing fd ip) = false
adds (heading fd ip block) = false
adds (measuring fd ip block) = false
adds (copying fd ip block dl i) = false
adds ended = false

-- The next entry holds a pointer already.
abbrev pub IsStored : ℕ → List (Option ℕ) → Type 0
IsStored n clients = (n < max_clients) × (p : ℕ) × (get_elem? clients n ≡ some (some p))

-- What a thread takes for granted, by the number of clients and the table.
abbrev pub ReadyAt : ℕ → List (Option ℕ) → Pc → Type 0
ReadyAt n clients starting = Unit
ReadyAt n clients (got_socket fd) = Unit
ReadyAt n clients (receiving fd ip) = Unit
ReadyAt n clients (testing fd ip lists) = Unit
ReadyAt n clients (indexing fd ip lists) = n < max_clients
ReadyAt n clients (loading fd ip lists) = IsStored n clients
ReadyAt n clients (storing fd ip lists i) = (i ≡ n) × IsStored n clients
ReadyAt n clients (answering fd ip added) = Unit
ReadyAt n clients (listing fd ip) = Unit
ReadyAt n clients (heading fd ip block) = Unit
ReadyAt n clients (measuring fd ip block) = Unit
ReadyAt n clients (copying fd ip block dl i) = Unit
ReadyAt n clients ended = Unit

abbrev pub Ready : Memory → Pc → Type 0
Ready m pc = ReadyAt m.num_clients m.clients pc

pub Ready-idle : (m : Memory) (pc : Pc) → adds pc ≡ false → Ready m pc
Ready-idle m starting e = tt
Ready-idle m (got_socket fd) e = tt
Ready-idle m (receiving fd ip) e = tt
Ready-idle m (testing fd ip lists) e = tt
Ready-idle m (indexing fd ip lists) e = absurd (cc)
Ready-idle m (loading fd ip lists) e = absurd (cc)
Ready-idle m (storing fd ip lists n) e = absurd (cc)
Ready-idle m (answering fd ip added) e = tt
Ready-idle m (listing fd ip) e = tt
Ready-idle m (heading fd ip block) e = tt
Ready-idle m (measuring fd ip block) e = tt
Ready-idle m (copying fd ip block dl i) e = tt
Ready-idle m ended e = tt

pub length-some : (ps : List ℕ) → length (map some ps) ≡ length ps
length-some [] = refl
length-some (p ∷ ps) = ap suc (length-some ps)
