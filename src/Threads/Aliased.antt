-- ===== src/Threads/Aliased.antt =====
-- The pointers of the threads of examples/tracker/tracker2.c, from the start of main on.
use soft_sys_dubstep_ducks.Prelude.{
  ℕ, zero, suc, if-both, ◌≡◌, refl, List, [], ◌∷◌, Bool, Option, none, some, All, All-set, All-get,
  All-append, Always, Always-bind, Always-ok, Always-returned, get_elem?, set,
}
use soft_sys_dubstep_ducks.Tracker.Clients.{Ip}
use soft_sys_dubstep_ducks.Threads.{Pc, starting, Input, advance}
use soft_sys_dubstep_ducks.Threads.System.{
  MainPc, accepting, naming, creating, State, Event, main_turn, turn, main_step, thread_step, step,
  Reach, here, next,
}
use soft_sys_dubstep_ducks.Threads.Pointers.{
  HasBuffer, ArgsWritten, IsAliased, Keeps, advance-Keeps,
}

module _ (ntoa : ℕ) where
  module _ (fresh : ℕ → ℕ) (heap : Ip → ℕ → ℕ) where
    ArgsWritten-set :
        (p : ℕ) (main : MainPc) (threads : List Pc) (i : ℕ) (pc : Pc)
        → ArgsWritten ntoa p main threads
        → ArgsWritten ntoa p main (set threads i pc)
    ArgsWritten-set p creating threads i pc h = h
    ArgsWritten-set p accepting [] i pc h = h
    ArgsWritten-set p accepting (t ∷ ts) zero pc h = h
    ArgsWritten-set p accepting (t ∷ ts) (suc i) pc h = h
    ArgsWritten-set p (naming ip) [] i pc h = h
    ArgsWritten-set p (naming ip) (t ∷ ts) zero pc h = h
    ArgsWritten-set p (naming ip) (t ∷ ts) (suc i) pc h = h

    written-naming :
        (p : ℕ) (ip : Ip) (threads : List Pc)
        → ArgsWritten ntoa p accepting threads
        → ArgsWritten ntoa p (naming ip) threads
    written-naming p ip [] h = h
    written-naming p ip (t ∷ ts) h = h

    pub written-any : (p : ℕ) (threads : List Pc) → p ≡ ntoa → ArgsWritten ntoa p accepting threads
    written-any p [] e = tt
    written-any p (t ∷ ts) e = e

    -- Where there is a thread, args.ip is written.
    pub written-there :
        (p : ℕ) (main : MainPc) (threads : List Pc) (i : ℕ) (pc : Pc)
        → ArgsWritten ntoa p main threads
        → get_elem? threads i ≡ some pc
        → p ≡ ntoa
    written-there p creating threads i pc h e = h
    written-there p accepting [] i pc h e = absurd (cc)
    written-there p accepting (t ∷ ts) i pc h e = h
    written-there p (naming ip) [] i pc h e = absurd (cc)
    written-there p (naming ip) (t ∷ ts) i pc h e = h

    thread_step-IsAliased :
        (s : State) (i : ℕ) (o : Option Pc) (v : Input)
        → get_elem? s.threads i ≡ o
        → IsAliased ntoa s
        → Always (λ r. IsAliased ntoa r.0) (thread_step fresh heap s i o v)
    unfolding thread_step
    thread_step-IsAliased s i none v e inv = Always-returned _ _ inv
    thread_step-IsAliased s i (some pc) v e inv =
        let written = written-there s.memory.args_ip s.main s.threads i pc inv.written e in
        Always-bind (Keeps ntoa s.memory) _ (advance fresh heap s.memory pc v) _
          (advance-Keeps ntoa fresh heap s.memory pc v written inv.known
            (All-get (HasBuffer ntoa) s.threads i pc inv.handlers e))
          (λ r k. Always-returned _ _ (record {
            known = k.0;
            handlers = All-set (HasBuffer ntoa) s.threads i r.1 inv.handlers k.1;
            written = ArgsWritten-set r.0.args_ip s.main s.threads i r.1 (rw k.2 inv.written);
          }))

    main_step-IsAliased :
        (s : State) (main : MainPc) (accepted : Option (ℕ × Ip)) (creates : Bool)
        → s.main ≡ main
        → IsAliased ntoa s
        → Always (IsAliased ntoa) (main_step ntoa s main accepted creates)
    unfolding main_step Always
    main_step-IsAliased s accepting none creates e inv = tt
    main_step-IsAliased s accepting (some (fd, ip)) creates e inv =
        Always-returned (IsAliased ntoa) _ (record {
          known = inv.known;
          handlers = inv.handlers;
          written = written-naming s.memory.args_ip ip s.threads (rw e at inv.written);
        })
    main_step-IsAliased s (naming ip) accepted creates e inv =
        Always-returned (IsAliased ntoa) _
          (record { known = inv.known; handlers = inv.handlers; written = refl })
    main_step-IsAliased s creating accepted creates e inv =
        let written : s.memory.args_ip ≡ ntoa = (rw e at inv.written) in
        Always-returned (IsAliased ntoa) _ (record {
          known = inv.known;
          handlers =
              if-both (All (HasBuffer ntoa)) creates _ _
                (All-append (HasBuffer ntoa) s.threads (starting ∷ []) inv.handlers (tt, tt))
                inv.handlers;
          written = written-any s.memory.args_ip _ written;
        })

    step-IsAliased :
        (s : State) (e : Event)
        → IsAliased ntoa s
        → Always (λ r. IsAliased ntoa r.0) (step fresh heap ntoa s e)
    unfolding step
    step-IsAliased s (main_turn accepted creates) inv =
        Always-bind (IsAliased ntoa) _ (main_step ntoa s s.main accepted creates) _
          (main_step-IsAliased s s.main accepted creates refl inv)
          (λ s' inv'. Always-returned _ _ inv')
    step-IsAliased s (turn i v) inv = thread_step-IsAliased s i (get_elem? s.threads i) v refl inv

    pub Reach-IsAliased :
        {s t : State} → Reach fresh heap ntoa s t → IsAliased ntoa s → IsAliased ntoa t
    Reach-IsAliased here inv = inv
    Reach-IsAliased (next {t} {u} reached e sent h) inv =
        Always-ok (λ r. IsAliased ntoa r.0) (step fresh heap ntoa t e) (u, sent)
          (step-IsAliased t e (Reach-IsAliased reached inv)) h
