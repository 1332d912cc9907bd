-- ===== src/Threads/System.antt =====
-- main of examples/tracker/tracker2.c and the threads that it has created, interleaved in any order.
-- That a data race is undefined in C is passed over: each access takes effect when it is made.
use soft_sys_dubstep_ducks.Prelude.{
  ℕ, ◌≡◌, List, [], ◌∷◌, ◌++◌, Bool, Outcome, ok, exits, ◌>>=◌, Option, none, some, get_elem?, set,
  replicate, if◌then◌else◌, ◌==◌,
}
use soft_sys_dubstep_ducks.Tracker.Clients.{Ip}
use soft_sys_dubstep_ducks.Threads.{Memory, Pc, starting, Input, max_clients, advance}

-- Where main stands in its loop: before accept, before args.ip is assigned, before pthread_create.
pub data MainPc : Type 0 where
  accepting : MainPc
  naming : (ip : Ip) → MainPc
  creating : MainPc

pub record State : Type 0 where
  pub memory : Memory
  pub main : MainPc
  pub threads : List Pc

-- What happens next: main goes on, with what accept returns and whether a thread is created, or
-- thread i does.
pub data Event : Type 0 where
  main_turn : (accepted : Option (ℕ × Ip)) (creates : Bool) → Event
  turn : (i : ℕ) (input : Input) → Event

abbrev pub update : (ℕ → Ip) → ℕ → Ip → ℕ → Ip
update texts p ip q = if p == q then ip else texts q

-- No client, and the fields of `args` unwritten.
abbrev pub initial : ℕ → ℕ → (ℕ → Ip) → State
initial fd ip texts = record {
  memory = record {
    num_clients = 0;
    clients = replicate max_clients none;
    args_fd = fd;
    args_ip = ip;
    texts = texts;
  };
  main = accepting;
  threads = [];
}

-- inet_ntoa writes each text into its one static buffer, at address `ntoa`, and returns that address.
-- main returns, and the process ends, when accept fails.
unfoldable pub main_step : ℕ → State → MainPc → Option (ℕ × Ip) → Bool → Outcome State
main_step ntoa s accepting none creates = exits 0
main_step ntoa s accepting (some (fd, ip)) creates =
    ok (record s { memory = record s.memory { args_fd = fd }; main = naming ip })
main_step ntoa s (naming ip) accepted creates = ok (record s {
  memory = record s.memory { args_ip = ntoa; texts = update s.memory.texts ntoa ip };
  main = creating;
})
main_step ntoa s creating accepted creates = ok (record s {
  main = accepting;
  threads = (if creates then s.threads ++ starting ∷ [] else s.threads);
})

-- Of a thread that is not there nothing happens.
unfoldable pub thread_step :
    (ℕ → ℕ) → (Ip → ℕ → ℕ) → State → ℕ → Option Pc → Input → Outcome (State × Option (ℕ × List ℕ))
thread_step fresh heap s i none v = ok (s, none)
thread_step fresh heap s i (some pc) v = do
  r ← advance fresh heap s.memory pc v
  ok (record s { memory = r.0; threads = set s.threads i r.1 }, r.2)

-- The state afterwards, and what is sent to which socket.
unfoldable pub step :
    (ℕ → ℕ) → (Ip → ℕ → ℕ) → ℕ → State → Event → Outcome (State × Option (ℕ × List ℕ))
unfolding main_step thread_step
step fresh heap ntoa s (main_turn accepted creates) = do
  s' ← main_step ntoa s s.main accepted creates
  ok (s', none)
step fresh heap ntoa s (turn i v) = thread_step fresh heap s i (get_elem? s.threads i) v

abbrev pub collect : Option (ℕ × List ℕ) → List (ℕ × List ℕ) → List (ℕ × List ℕ)
collect none more = more
collect (some sent) more = sent ∷ more

-- As many steps as there are events, with all that was sent.
unfoldable pub run :
    (ℕ → ℕ) → (Ip → ℕ → ℕ) → ℕ → State → List Event → Outcome (State × List (ℕ × List ℕ))
unfolding step
run fresh heap ntoa s [] = ok (s, [])
run fresh heap ntoa s (e ∷ events) = do
  r ← step fresh heap ntoa s e
  more ← run fresh heap ntoa r.0 events
  ok (more.0, collect r.1 more.1)

-- The states that are reached from one.
pub data Reach (fresh : ℕ → ℕ) (heap : Ip → ℕ → ℕ) (ntoa : ℕ) (s : State) : State → Type 0 where
  here : Reach fresh heap ntoa s s
  next :
      {t u : State}
      → Reach fresh heap ntoa s t
      → (e : Event) (sent : Option (ℕ × List ℕ)) → step fresh heap ntoa t e ≡ ok (u, sent)
      → Reach fresh heap ntoa s u
