-- ===== src/Threads/Runs.antt =====
-- Runs of main and the threads of examples/tracker/tracker2.c.
use soft_sys_dubstep_ducks.Prelude.{
  ℕ, ◌≡◌, refl, List, [], ◌∷◌, ◌++◌, Outcome, ok, exits, undefined, out_of_fuel, ◌>>=◌, Option,
  none, some, Always, Always-bind, Always-self, Always-returned,
}
use soft_sys_dubstep_ducks.Tracker.Clients.{Ip}
use soft_sys_dubstep_ducks.Threads.System.{State, Event, collect, step, run, Reach, next}

-- A state, and all that is sent on the way there.
abbrev pub Ran : Type 0
Ran = State × List (ℕ × List ℕ)

abbrev also_run : Option (ℕ × List ℕ) → Ran → Outcome Ran
also_run sent r = ok (r.0, collect sent r.1)

abbrev pub gather : List (ℕ × List ℕ) → Ran → Outcome Ran
gather sent q = ok (q.0, sent ++ q.1)

gather-none : (o : Outcome Ran) → o ≡ (o >>= gather [])
gather-none (ok q) = refl
gather-none (exits n) = refl
gather-none undefined = refl
gather-none out_of_fuel = refl

also-gather :
    (sent : Option (ℕ × List ℕ)) (before : List (ℕ × List ℕ)) (o : Outcome Ran)
    → ((o >>= gather before) >>= also_run sent) ≡ (o >>= gather (collect sent before))
also-gather none before (ok q) = refl
also-gather (some b) before (ok q) = refl
also-gather sent before (exits n) = refl
also-gather sent before undefined = refl
also-gather sent before out_of_fuel = refl

module _ (fresh : ℕ → ℕ) (heap : Ip → ℕ → ℕ) (ntoa : ℕ) where
  abbrev pub go_on : List Event → Ran → Outcome Ran
  go_on fs r = run fresh heap ntoa r.0 fs >>= gather r.1

  also-go_on :
      (sent : Option (ℕ × List ℕ)) (fs : List Event) (o : Outcome Ran)
      → ((o >>= go_on fs) >>= also_run sent) ≡ ((o >>= also_run sent) >>= go_on fs)
  also-go_on sent fs (ok r) = also-gather sent r.1 (run fresh heap ntoa r.0 fs)
  also-go_on sent fs (exits n) = refl
  also-go_on sent fs undefined = refl
  also-go_on sent fs out_of_fuel = refl

  -- Events that are taken from one state to another, and from there.
  pub run-append :
      (s : State) (es fs : List Event)
      → run fresh heap ntoa s (es ++ fs) ≡ (run fresh heap ntoa s es >>= go_on fs)
  unfolding run
  run-append s [] fs = gather-none (run fresh heap ntoa s fs)
  run-append s (e ∷ es) fs = by_step (λ t. run-append t es fs) (step fresh heap ntoa s e)
    where
      by_step :
          ((t : State) → run fresh heap ntoa t (es ++ fs) ≡ (run fresh heap ntoa t es >>= go_on fs))
          → (o : Outcome (State × Option (ℕ × List ℕ)))
          → ◌>>=◌ {B = Ran} o (λ r. run fresh heap ntoa r.0 (es ++ fs) >>= also_run r.1)
            ≡ (◌>>=◌ {B = Ran} o (λ r. run fresh heap ntoa r.0 es >>= also_run r.1) >>= go_on fs)
      by_step ih (ok r) = rw (ih r.0) (also-go_on r.1 fs (run fresh heap ntoa r.0 es))
      by_step ih (exits n) = refl
      by_step ih undefined = refl
      by_step ih out_of_fuel = refl

  -- Every state that a run passes is reached.
  pub run-Reach :
      {s : State} (t : State) (events : List Event)
      → Reach fresh heap ntoa s t
      → Always (λ r. Reach fresh heap ntoa s r.0) (run fresh heap ntoa t events)
  unfolding run
  run-Reach t [] reached = Always-returned _ _ reached
  run-Reach t (e ∷ events) reached =
      Always-bind (λ r. step fresh heap ntoa t e ≡ ok r) _ (step fresh heap ntoa t e) _
        (Always-self (step fresh heap ntoa t e))
        (λ r goes.
          Always-bind _ _ (run fresh heap ntoa r.0 events) _
            (run-Reach r.0 events (next reached e r.1 goes))
            (λ more there. Always-returned _ _ there))
