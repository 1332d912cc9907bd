-- ===== src/Threads/Turns.antt =====
-- How many threads of examples/tracker/tracker2.c are inside of addClient, and what the others take for
-- granted.
use soft_sys_dubstep_ducks.Prelude.{
  ℕ, zero, suc, ◌≤◌, ◌≡◌, refl, List, [], ◌∷◌, true, some, some-eq, subst, sym, arith, All,
  get_elem?, set, if◌then◌else◌, Bool-cases, inl, inr,
}
use soft_sys_dubstep_ducks.Tracker.Clients.{Ip}
use soft_sys_dubstep_ducks.Threads.{Memory, Pc}
use soft_sys_dubstep_ducks.Threads.System.{State, Reach, here, next}
use soft_sys_dubstep_ducks.Threads.Filled.{adds, Ready, Ready-idle, ReadyAt}

-- How many threads are between the test of addClient and its last store.
unfoldable pub adders : List Pc → ℕ
adders [] = 0
adders (pc ∷ threads) = let rest = adders threads in if adds pc then suc rest else rest

-- At every step that is taken there is one at most.
unfoldable pub TakesTurns :
    {fresh : ℕ → ℕ} {heap : Ip → ℕ → ℕ} {ntoa : ℕ} {s t : State}
    → Reach fresh heap ntoa s t
    → Type 0
TakesTurns here = Unit
TakesTurns (next {t} reached e sent h) = TakesTurns reached × (adders t.threads ≤ 1)

adders-cons : (pc : Pc) (threads : List Pc) → adders threads ≤ adders (pc ∷ threads)
unfolding adders
adders-cons pc threads = elim (Bool-cases (adds pc)) [
  | inl e ↦ rw e (omega arith)
  | inr e ↦ rw e (omega arith)
]

adders-adds :
    (pc : Pc) (threads : List Pc) → adds pc ≡ true → adders (pc ∷ threads) ≡ suc (adders threads)
unfolding adders
adders-adds pc threads e = rw e refl

-- Without one inside nothing is taken for granted.
All-Ready : (m : Memory) (threads : List Pc) → adders threads ≡ 0 → All (Ready m) threads
unfolding adders
All-Ready m [] e = tt
All-Ready m (pc ∷ threads) e = elim (Bool-cases (adds pc)) [
  | inl a ↦ absurd (omega (arith, adders-adds pc threads a))
  | inr a ↦ (Ready-idle m pc a, All-Ready m threads (omega (arith, adders-cons pc threads)))
]

adders-get :
    (threads : List Pc) (k : ℕ) (pc : Pc)
    → get_elem? threads k ≡ some pc
    → adds pc ≡ true
    → 1 ≤ adders threads
adders-get [] k pc at_k e = absurd (cc)
adders-get (t ∷ threads) zero pc at_k e = omega (arith, adders-adds t threads (rw (some-eq at_k) e))
adders-get (t ∷ threads) (suc k) pc at_k e =
    omega (arith, adders-get threads k pc at_k e, adders-cons t threads)

-- The only one that is inside changes the table, and the others do not mind.
pub adder-Ready :
    (m : Memory) (threads : List Pc) (k : ℕ) (pc pc' : Pc)
    → get_elem? threads k ≡ some pc
    → adds pc ≡ true
    → adders threads ≤ 1
    → Ready m pc'
    → All (Ready m) (set threads k pc')
adder-Ready m [] k pc pc' at_k e one ready = absurd (cc)
adder-Ready m (t ∷ threads) zero pc pc' at_k e one ready =
    (ready, All-Ready m threads (omega (arith, adders-adds t threads (rw (some-eq at_k) e))))
adder-Ready m (t ∷ threads) (suc k) pc pc' at_k e one ready = elim (Bool-cases (adds t)) [
  | inl a ↦ absurd (omega (arith, adders-adds t threads a, adders-get threads k pc at_k e))
  | inr a ↦ (
    Ready-idle m t a,
    adder-Ready m threads k pc pc' at_k e (omega (arith, adders-cons t threads)) ready,
  )
]

-- What is taken for granted is a matter of the table.
Ready-same :
    (m m' : Memory) (pc : Pc)
    → m'.num_clients ≡ m.num_clients
    → m'.clients ≡ m.clients
    → Ready m pc
    → Ready m' pc
Ready-same m m' pc count table ready =
    subst (λ n. ReadyAt n m'.clients pc) (sym count)
      (subst (λ clients. ReadyAt m.num_clients clients pc) (sym table) ready)

pub All-same :
    (m m' : Memory) (threads : List Pc)
    → m'.num_clients ≡ m.num_clients
    → m'.clients ≡ m.clients
    → All (Ready m) threads
    → All (Ready m') threads
All-same m m' [] count table h = tt
All-same m m' (pc ∷ threads) count table h =
    (Ready-same m m' pc count table h.0, All-same m m' threads count table h.1)
