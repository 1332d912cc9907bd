-- ===== src/Threads/Alone.antt =====
-- A thread of examples/tracker/tracker2.c that goes on while no other one does.
use soft_sys_dubstep_ducks.Prelude.{
  ℕ, ◌≡◌, refl, List, [], ◌∷◌, ok, exits, undefined, out_of_fuel, Outcome, ◌>>=◌, Option, none,
  some, get_elem?, get_elem?-set_self, set, set-set, set_same, map,
}
use soft_sys_dubstep_ducks.Tracker.Clients.{Ip}
use soft_sys_dubstep_ducks.Torrent.Loop.Visits.{index_inside}
use soft_sys_dubstep_ducks.Threads.{Memory, Pc, Input, Stepped, advance}
use soft_sys_dubstep_ducks.Threads.System.{State, turn, collect, thread_step, step, run}

-- The memory, where the thread stands, and all that is sent.
abbrev pub Work : Type 0
Work = Memory × Pc × List (ℕ × List ℕ)

abbrev pub also : Option (ℕ × List ℕ) → Work → Outcome Work
also sent w = ok (w.0, w.1, collect sent w.2)

pub also-none : (o : Outcome Work) → (o >>= also none) ≡ o
also-none (ok w) = refl
also-none (exits n) = refl
also-none undefined = refl
also-none out_of_fuel = refl

abbrev pub settle : State → ℕ → Work → Outcome (State × List (ℕ × List ℕ))
settle s k w = ok (record s { memory = w.0; threads = set s.threads k w.1 }, w.2)

abbrev also_run :
    Option (ℕ × List ℕ) → State × List (ℕ × List ℕ) → Outcome (State × List (ℕ × List ℕ))
also_run sent r = ok (r.0, collect sent r.1)

module _ (fresh : ℕ → ℕ) (heap : Ip → ℕ → ℕ) where
  -- As many steps as there are inputs.
  unfoldable pub alone : Memory → Pc → List Input → Outcome Work
  alone m pc [] = ok (m, pc, [])
  alone m pc (v ∷ inputs) = do
    r ← advance fresh heap m pc v
    more ← alone r.0 r.1 inputs
    ok (more.0, more.1, collect r.2 more.2)

  -- A step at which nothing is sent.
  pub alone-quiet :
      (m m' : Memory) (pc pc' : Pc) (v : Input) (inputs : List Input)
      → advance fresh heap m pc v ≡ ok (m', pc', none)
      → alone m pc (v ∷ inputs) ≡ alone m' pc' inputs
  unfolding alone
  alone-quiet m m' pc pc' v inputs e = rw e (also-none (alone m' pc' inputs))

  settle-also :
      (s : State) (k : ℕ) (pc : Pc) (m : Memory) (sent : Option (ℕ × List ℕ)) (o : Outcome Work)
      → ((o >>= settle (record s { memory = m; threads = set s.threads k pc }) k) >>= also_run sent)
        ≡ ((o >>= also sent) >>= settle s k)
  settle-also s k pc m sent (ok w) = rw (set-set s.threads k pc w.1)
  settle-also s k pc m sent (exits n) = refl
  settle-also s k pc m sent undefined = refl
  settle-also s k pc m sent out_of_fuel = refl

  -- The same of the whole.
  pub run-alone :
      (ntoa : ℕ) (s : State) (k : ℕ) (pc : Pc) (inputs : List Input)
      → get_elem? s.threads k ≡ some pc
      → run fresh heap ntoa s (map (turn k) inputs) ≡ (alone s.memory pc inputs >>= settle s k)
  unfolding run step thread_step alone
  run-alone ntoa s k pc [] at_k = rw (set_same s.threads k pc at_k) refl
  run-alone ntoa s k pc (v ∷ inputs) at_k = rw at_k (
      by_step (advance fresh heap s.memory pc v) (λ r.
        run-alone ntoa (record s { memory = r.0; threads = set s.threads k r.1 }) k r.1 inputs
          (get_elem?-set_self s.threads k r.1 (index_inside s.threads k pc at_k))))
    where
      by_step :
          (o : Outcome Stepped)
          → ((r : Stepped)
              → run fresh heap ntoa
                  (record s { memory = r.0; threads = set s.threads k r.1 })
                  (map (turn k) inputs)
                ≡ (alone r.0 r.1 inputs
                    >>= settle (record s { memory = r.0; threads = set s.threads k r.1 }) k))
          → ◌>>=◌ {A = State × Option (ℕ × List ℕ)}
              (o >>= λ r. ok (record s { memory = r.0; threads = set s.threads k r.1 }, r.2))
              (λ r. run fresh heap ntoa r.0 (map (turn k) inputs) >>= also_run r.1)
            ≡ ((o >>= λ r. alone r.0 r.1 inputs >>= also r.2) >>= settle s k)
      by_step (ok r) ih = rw (ih r) (settle-also s k r.1 r.0 r.2 (alone r.0 r.1 inputs))
      by_step (exits n) ih = refl
      by_step undefined ih = refl
      by_step out_of_fuel ih = refl
