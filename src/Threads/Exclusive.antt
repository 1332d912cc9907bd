-- ===== src/Threads/Exclusive.antt =====
-- The table of examples/tracker/tracker2.c when no two threads are inside of addClient at a time. The
-- source has no lock, so this is up to the order in which the threads go on.
use soft_sys_dubstep_ducks.Prelude.{
  ℕ, ap, ◌<◌, ◌≤◌, ◌≡◌, refl, [], ◌∷◌, ◌++◌, Bool, Option, none, some, sym, ◌∙◌, length, arith, All,
  All-append, All-get, All-set, Always, Always-bind, Always-ok, Always-returned, get_elem?, set,
  replicate, if-both, length-replicate, length-append, map, Bool-cases, inl, inr,
}
use soft_sys_dubstep_ducks.Tracker.Clients.{Ip}
use soft_sys_dubstep_ducks.Threads.{
  max_clients, Memory, Pc, starting, indexing, Input, Stepped, advance,
}
use soft_sys_dubstep_ducks.Threads.System.{
  MainPc, accepting, naming, creating, State, Event, main_turn, turn, update, initial, main_step,
  thread_step, step, Reach, here, next,
}
use soft_sys_dubstep_ducks.Threads.Filled.{IsFilled, length-some, adds, Ready}
use soft_sys_dubstep_ducks.Threads.Orders.{Orders, advance-Orders}
use soft_sys_dubstep_ducks.Threads.Turns.{adders, TakesTurns, adder-Ready, All-same}

pub IsFilled-same :
    (m m' : Memory)
    → m'.num_clients ≡ m.num_clients
    → m'.clients ≡ m.clients
    → IsFilled m
    → IsFilled m'
IsFilled-same m m' count table filled = record {
  pointers = filled.pointers;
  unused = filled.unused;
  table = table ∙ filled.table;
  count = count ∙ filled.count;
  size = ap length table ∙ filled.size;
}

pub IsFilled-bound : (m : Memory) → IsFilled m → m.num_clients ≤ max_clients
IsFilled-bound m filled =
    let whole : length (map some filled.pointers ++ filled.unused) ≡ max_clients =
      ap length (sym filled.table) ∙ filled.size in
    omega (
      arith,
      whole,
      filled.count,
      length-some filled.pointers,
      length-append (map some filled.pointers) filled.unused,
    )

-- The invariant.
pub record IsOrderly (s : State) : Type 0 where
  pub filled : IsFilled s.memory
  pub ready : All (Ready s.memory) s.threads

module _ (fresh : ℕ → ℕ) (heap : Ip → ℕ → ℕ) (ntoa : ℕ) where
  moved :
      (s : State) (m : Memory) (main : MainPc)
      → m.num_clients ≡ s.memory.num_clients
      → m.clients ≡ s.memory.clients
      → IsOrderly s
      → IsOrderly (record s { memory = m; main = main })
  moved s m main count table inv = record {
    filled = IsFilled-same s.memory m count table inv.filled;
    ready = All-same s.memory m s.threads count table inv.ready;
  }

  thread_step-IsOrderly :
      (s : State) (k : ℕ) (o : Option Pc) (v : Input)
      → get_elem? s.threads k ≡ o
      → adders s.threads ≤ 1
      → IsOrderly s
      → Always (λ r. IsOrderly r.0) (thread_step fresh heap s k o v)
  unfolding thread_step
  thread_step-IsOrderly s k none v at_k one inv = Always-returned _ _ inv
  thread_step-IsOrderly s k (some pc) v at_k one inv =
      Always-bind (Orders s.memory (adds pc)) _ (advance fresh heap s.memory pc v) _
        (advance-Orders fresh heap s.memory pc v inv.filled
          (All-get (Ready s.memory) s.threads k pc inv.ready at_k))
        (λ r o. Always-returned _ _ (record { filled = o.0; ready = others r o }))
    where
      others : (r : Stepped) → Orders s.memory (adds pc) r → All (Ready r.0) (set s.threads k r.1)
      others r o = elim (Bool-cases (adds pc)) [
        | inl a ↦ adder-Ready r.0 s.threads k pc r.1 at_k a one o.1
        | inr a ↦
            All-set (Ready r.0) s.threads k r.1
              (All-same s.memory r.0 s.threads (o.2 a).0 (o.2 a).1 inv.ready) o.1
      ]

  main_step-IsOrderly :
      (s : State) (main : MainPc) (accepted : Option (ℕ × Ip)) (creates : Bool)
      → IsOrderly s
      → Always IsOrderly (main_step ntoa s main accepted creates)
  unfolding main_step Always
  main_step-IsOrderly s accepting none creates inv = tt
  main_step-IsOrderly s accepting (some (fd, ip)) creates inv =
      moved s (record s.memory { args_fd = fd }) (naming ip) refl refl inv
  main_step-IsOrderly s (naming ip) accepted creates inv =
      moved s (record s.memory { args_ip = ntoa; texts = update s.memory.texts ntoa ip }) creating
        refl refl inv
  main_step-IsOrderly s creating accepted creates inv = record {
    filled = inv.filled;
    ready =
        if-both (All (Ready s.memory)) creates _ _
          (All-append (Ready s.memory) s.threads (starting ∷ []) inv.ready (tt, tt)) inv.ready;
  }

  step-IsOrderly :
      (s : State) (e : Event)
      → adders s.threads ≤ 1
      → IsOrderly s
      → Always (λ r. IsOrderly r.0) (step fresh heap ntoa s e)
  unfolding step
  step-IsOrderly s (main_turn accepted creates) one inv =
      Always-bind IsOrderly _ (main_step ntoa s s.main accepted creates) _
        (main_step-IsOrderly s s.main accepted creates inv) (λ t k. Always-returned _ _ k)
  step-IsOrderly s (turn k v) one inv =
      thread_step-IsOrderly s k (get_elem? s.threads k) v refl one inv

  Reach-IsOrderly :
      {s t : State} (reached : Reach fresh heap ntoa s t)
      → TakesTurns reached
      → IsOrderly s
      → IsOrderly t
  unfolding TakesTurns
  Reach-IsOrderly here turns inv = inv
  Reach-IsOrderly (next {t} {u} reached e sent h) turns inv =
      Always-ok (λ r. IsOrderly r.0) (step fresh heap ntoa t e) (u, sent)
        (step-IsOrderly t e turns.1 (Reach-IsOrderly reached turns.0 inv)) h

  -- As long as no step is taken while two threads are inside of addClient, its table stays in order:
  -- numClients is the number of the pointers at its beginning, and at most 30; and a thread that is about to
  -- store a pointer finds less than 30, so that it stores it inside of the table.
  pub Reach-IsFilled :
      {fd₀ p₀ : ℕ} {texts : ℕ → Ip} {t : State}
      (reached : Reach fresh heap ntoa (initial fd₀ p₀ texts) t)
      → TakesTurns reached
      → IsFilled t.memory
        × (t.memory.num_clients ≤ max_clients)
        × ((k fd ip : ℕ) (lists : Bool)
            → get_elem? t.threads k ≡ some (indexing fd ip lists)
            → t.memory.num_clients < max_clients)
  Reach-IsFilled {t} reached turns =
      let inv = Reach-IsOrderly reached turns (record {
        filled = record {
          pointers = [];
          unused = replicate max_clients none;
          table = refl;
          count = refl;
          size = length-replicate {A = Option ℕ} max_clients none;
        };
        ready = tt;
      }) in
      (
        inv.filled,
        IsFilled-bound t.memory inv.filled,
        λ k fd ip lists at_k.
            All-get (Ready t.memory) t.threads k (indexing fd ip lists) inv.ready at_k,
      )
