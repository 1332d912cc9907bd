-- ===== src/Threads/Latest.antt =====
-- Whose address the threads of examples/tracker/tracker2.c put into a reply.
use soft_sys_dubstep_ducks.Prelude.{
  ℕ, zero, suc, ◌+◌, ◌*◌, ◌≡◌, refl, List, Bool, ok, Option, none, some, All, All-get, Always,
  Always-bind, Always-ok, Always-returned, get_elem?, write_at, ==_refl, replicate,
}
use soft_sys_dubstep_ducks.Tracker.Clients.{Ip}
use soft_sys_dubstep_ducks.Tracker.Reply.{ip_entry}
use soft_sys_dubstep_ducks.Threads.{Memory, Pc, copying, Stepped, advance}
use soft_sys_dubstep_ducks.Threads.System.{
  MainPc, accepting, naming, creating, State, Event, main_turn, turn, initial, main_step,
  thread_step, step, Reach, here, next,
}
use soft_sys_dubstep_ducks.Threads.Pointers.{
  PointsThere, HasBuffer, IsAliased, Keeps, advance-Keeps,
}
use soft_sys_dubstep_ducks.Threads.Aliased.{written-there, Reach-IsAliased}

-- The address that main has taken last, when it goes on from a point of its loop.
abbrev named : MainPc → Ip → Ip
named accepting ip = ip
named (naming ip') ip = ip'
named creating ip = ip

abbrev pub last_at : State → Event → Ip → Ip
last_at s (main_turn accepted creates) ip = named s.main ip
last_at s (turn i v) ip = ip

-- The address of the connection that was accepted last, or what was at the buffer's address before
-- there was any.
unfoldable pub last_ip :
    {fresh : ℕ → ℕ} {heap : Ip → ℕ → ℕ} {ntoa : ℕ} {s t : State} → Reach fresh heap ntoa s t → Ip
last_ip {ntoa} {s} here = s.memory.texts ntoa
last_ip (next {t = t} reached e sent h) = last_at t e (last_ip reached)

All-none : (ntoa n : ℕ) → All (PointsThere ntoa) (replicate n none)
All-none ntoa zero = tt
All-none ntoa (suc n) = (tt, All-none ntoa n)

pub initial-IsAliased : (ntoa fd p : ℕ) (texts : ℕ → Ip) → IsAliased ntoa (initial fd p texts)
initial-IsAliased ntoa fd p texts = record { known = All-none ntoa 30; handlers = tt; written = tt }

module _ (fresh : ℕ → ℕ) (heap : Ip → ℕ → ℕ) (ntoa : ℕ) where
  -- The buffer of inet_ntoa holds what main has stored there last.
  abbrev Holds : State → Event → State → Type 0
  Holds s e t = t.memory.texts ntoa ≡ last_at s e (s.memory.texts ntoa)

  main_step-Holds :
      (s : State) (main : MainPc) (accepted : Option (ℕ × Ip)) (creates : Bool)
      → Always
          (λ t. t.memory.texts ntoa ≡ named main (s.memory.texts ntoa))
          (main_step ntoa s main accepted creates)
  unfolding main_step Always
  main_step-Holds s accepting none creates = tt
  main_step-Holds s accepting (some (fd, ip)) creates = refl
  main_step-Holds s (naming ip) accepted creates = rw (==_refl ntoa) refl
  main_step-Holds s creating accepted creates = refl

  step-Holds :
      (s : State) (e : Event)
      → IsAliased ntoa s
      → Always (λ r. Holds s e r.0) (step fresh heap ntoa s e)
  unfolding step thread_step
  step-Holds s (main_turn accepted creates) inv =
      Always-bind _ _ (main_step ntoa s s.main accepted creates) _
        (main_step-Holds s s.main accepted creates) (λ t k. Always-returned _ _ k)
  step-Holds s (turn i v) inv = by_thread (get_elem? s.threads i) refl
    where
      by_thread :
          (o : Option Pc)
          → get_elem? s.threads i ≡ o
          → Always (λ r. Holds s (turn i v) r.0) (thread_step fresh heap s i o v)
      by_thread none e = Always-returned _ _ refl
      by_thread (some pc) e =
          Always-bind (Keeps ntoa s.memory) _ (advance fresh heap s.memory pc v) _
            (advance-Keeps ntoa fresh heap s.memory pc v
              (written-there ntoa fresh heap s.memory.args_ip s.main s.threads i pc inv.written e)
              inv.known (All-get (HasBuffer ntoa) s.threads i pc inv.handlers e))
            (λ r k. Always-returned _ _ (rw k.3 refl))

  pub Reach-last :
      {s t : State} (reached : Reach fresh heap ntoa s t)
      → IsAliased ntoa s
      → t.memory.texts ntoa ≡ last_ip reached
  unfolding last_ip
  Reach-last here inv = refl
  Reach-last (next {t} {u} reached e sent h) inv =
      let kept =
        Always-ok (λ r. Holds t e r.0) (step fresh heap ntoa t e) (u, sent)
          (step-Holds t e (Reach-IsAliased ntoa fresh heap reached inv)) h in
      rw (← Reach-last reached inv) kept

  -- What the round for an entry makes of the block.
  abbrev Copied : Memory → ℕ → ℕ → List ℕ → ℕ → ℕ → Stepped → Type 0
  Copied m fd ip block dl i r =
      (block' : List ℕ) × (write_at block (1 + 16 * i) (ip_entry heap (m.texts ntoa)) ≡ ok block')
      × (r ≡ (m, copying fd ip block' dl (i + 1), none))

  abbrev Shows : State → ℕ → ℕ → ℕ → List ℕ → ℕ → ℕ → State × Option (ℕ × List ℕ) → Type 0
  Shows s k fd ip block dl i r =
      (block' : List ℕ) × (write_at block (1 + 16 * i) (ip_entry heap (s.memory.texts ntoa))
        ≡ ok block')
      × (r.0.memory ≡ s.memory)
      × (get_elem? r.0.threads k ≡ some (copying fd ip block' dl (i + 1)))
