-- ===== src/Threads/Races.antt =====
-- Orders of the threads of examples/tracker/tracker2.c in which their accesses to what they share get
-- into each other's way.
use soft_sys_dubstep_ducks.Prelude.{
  ℕ, ◌+◌, ◌<◌, ◌≤◌, ◌≡◌, ◌≢◌, refl, sym, List, [], ◌∷◌, ◌++◌, Bool, true, false, Outcome, ok,
  undefined, exits, out_of_fuel, ◌>>=◌, none, some, arith, get_elem?, get_elem?-set_self,
  get_elem?-set_ne, get_elem?-append_at, set, set-append_at, length, length-set, ltb, lt→ltb,
}
use soft_sys_dubstep_ducks.Tracker.Clients.{Ip}
use soft_sys_dubstep_ducks.Torrent.Connecting.{store}
use soft_sys_dubstep_ducks.Torrent.Loop.Visits.{index_inside}
use soft_sys_dubstep_ducks.Threads.{
  max_clients, Memory, Pc, starting, got_socket, testing, indexing, loading, storing, Input,
  behind_add, advance,
}
use soft_sys_dubstep_ducks.Threads.System.{
  State, accepting, naming, Event, main_turn, turn, update, main_step, thread_step, step, run,
}

-- Nothing is added to what is sent.
quiet : (o : Outcome (State × List (ℕ × List ℕ))) → (o >>= λ r. ok (r.0, r.1)) ≡ o
quiet (ok r) = refl
quiet (exits n) = refl
quiet undefined = refl
quiet out_of_fuel = refl

module _ (fresh : ℕ → ℕ) (heap : Ip → ℕ → ℕ) (ntoa : ℕ) where
  abbrev pub moved : State → ℕ → Memory → Pc → State
  moved s k m pc = record s { memory = m; threads = set s.threads k pc }

  pub run-quiet :
      (s : State) (k : ℕ) (pc pc' : Pc) (m : Memory) (v : Input) (events : List Event)
      → get_elem? s.threads k ≡ some pc
      → advance fresh heap s.memory pc v ≡ ok (m, pc', none)
      → run fresh heap ntoa s (turn k v ∷ events) ≡ run fresh heap ntoa (moved s k m pc') events
  unfolding run step thread_step
  run-quiet s k pc pc' m v events at_k e =
      rw (at_k, e) (quiet (run fresh heap ntoa (moved s k m pc') events))

  run-stuck :
      (s : State) (k : ℕ) (pc : Pc) (v : Input) (events : List Event)
      → get_elem? s.threads k ≡ some pc
      → advance fresh heap s.memory pc v ≡ undefined
      → run fresh heap ntoa s (turn k v ∷ events) ≡ undefined
  unfolding run step thread_step
  run-stuck s k pc v events at_k e = rw (at_k, e) refl

  -- Two connections that are accepted before the first one's thread takes its arguments: the thread
  -- takes the socket of the second.
  pub lost_socket :
      (s : State) (fd₁ fd₂ : ℕ) (ip₁ ip₂ : Ip) (v : Input)
      → s.main ≡ accepting
      → run fresh heap ntoa s (
          main_turn (some (fd₁, ip₁)) true
          ∷ main_turn none true
          ∷ main_turn none true
          ∷ main_turn (some (fd₂, ip₂)) true
          ∷ turn (length s.threads) v
          ∷ [])
        ≡ ok (
          record s {
            memory = record s.memory {
              args_fd = fd₂;
              args_ip = ntoa;
              texts = update s.memory.texts ntoa ip₁;
            };
            main = naming ip₂;
            threads = s.threads ++ got_socket fd₂ ∷ [];
          },
          [],
        )
  unfolding run step main_step thread_step advance
  lost_socket s fd₁ fd₂ ip₁ ip₂ v e =
      rw
        (
          e,
          get_elem?-append_at s.threads [] (length s.threads) starting refl,
          set-append_at s.threads [] (length s.threads) starting (got_socket fd₂) refl,
        )
        refl

  -- What a turn of thread i leaves thread i at, and what it leaves thread j at.
  pub at_self :
      (threads : List Pc) (i : ℕ) (pc pc' : Pc)
      → get_elem? threads i ≡ some pc
      → get_elem? (set threads i pc') i ≡ some pc'
  at_self threads i pc pc' e = get_elem?-set_self threads i pc' (index_inside threads i pc e)

  pub at_other :
      (threads : List Pc) (i j : ℕ) (pc pc' : Pc)
      → i ≢ j
      → get_elem? threads j ≡ some pc
      → get_elem? (set threads i pc') j ≡ some pc
  at_other threads i j pc pc' ne e = rw (get_elem?-set_ne threads i j pc' ne) e

  tests :
      (m : Memory) (fd ip : ℕ) (lists : Bool) (v : Input)
      → m.num_clients < max_clients
      → advance fresh heap m (testing fd ip lists) v ≡ ok (m, indexing fd ip lists, none)
  tests m fd ip lists v room = unfold advance in rw (lt→ltb m.num_clients max_clients room) refl

  stores :
      (m : Memory) (fd ip : ℕ) (lists : Bool) (v : Input)
      → m.num_clients < length m.clients
      → advance fresh heap m (indexing fd ip lists) v
        ≡ ok (
          record m { clients = set m.clients m.num_clients (some ip) },
          loading fd ip lists,
          none,
        )
  stores m fd ip lists v room =
      unfold advance store in rw (lt→ltb m.num_clients (length m.clients) room) refl

  overflows :
      (m : Memory) (fd ip : ℕ) (lists : Bool) (v : Input)
      → length m.clients ≤ m.num_clients
      → advance fresh heap m (indexing fd ip lists) v ≡ undefined
  overflows m fd ip lists v full =
      let over : ltb m.num_clients (length m.clients) ≡ false = ground arith in
      unfold advance store in rw over refl

  loads :
      (m : Memory) (fd ip : ℕ) (lists : Bool) (v : Input)
      → advance fresh heap m (loading fd ip lists) v
        ≡ ok (m, storing fd ip lists m.num_clients, none)
  unfolding advance
  loads m fd ip lists v = refl

  pub counts :
      (m : Memory) (fd ip : ℕ) (lists : Bool) (n : ℕ) (v : Input)
      → advance fresh heap m (storing fd ip lists n) v
        ≡ ok (record m { num_clients = n + 1 }, behind_add fd ip lists true, none)
  unfolding advance
  counts m fd ip lists n v = refl

  -- Two threads that are both past the test of addClient when one entry is left: the second stores
  -- behind the end of the table.
  pub race_overflow :
      (s : State) (i j fd fd' ip ip' : ℕ) (lists lists' : Bool) (v : Input)
      → i ≢ j
      → get_elem? s.threads i ≡ some (testing fd ip lists)
      → get_elem? s.threads j ≡ some (testing fd' ip' lists')
      → s.memory.num_clients + 1 ≡ max_clients
      → length s.memory.clients ≡ max_clients
      → run fresh heap ntoa s (turn i v ∷ turn j v ∷ turn i v ∷ turn i v ∷ turn i v ∷ turn j v ∷ [])
        ≡ undefined
  race_overflow s i j fd fd' ip ip' lists lists' v ne at_i at_j last size =
      let m = s.memory in
      let m' : Memory = record m { clients = set m.clients m.num_clients (some ip) } in
      let m'' : Memory = record m' { num_clients = m.num_clients + 1 } in
      let ne' : j ≢ i = λ e. ne (sym e) in
      let s1 = moved s i m (indexing fd ip lists) in
      let s2 = moved s1 j m (indexing fd' ip' lists') in
      let s3 = moved s2 i m' (loading fd ip lists) in
      let s4 = moved s3 i m' (storing fd ip lists m.num_clients) in
      let s5 = moved s4 i m'' (behind_add fd ip lists true) in
      let i1 = at_self s.threads i _ (indexing fd ip lists) at_i in
      let j1 = at_other s.threads i j _ (indexing fd ip lists) ne at_j in
      let i2 = at_other s1.threads j i _ (indexing fd' ip' lists') ne' i1 in
      let j2 = at_self s1.threads j _ (indexing fd' ip' lists') j1 in
      let i3 = at_self s2.threads i _ (loading fd ip lists) i2 in
      let j3 = at_other s2.threads i j _ (loading fd ip lists) ne j2 in
      let i4 = at_self s3.threads i _ (storing fd ip lists m.num_clients) i3 in
      let j4 = at_other s3.threads i j _ (storing fd ip lists m.num_clients) ne j3 in
      let j5 = at_other s4.threads i j _ (behind_add fd ip lists true) ne j4 in
      rw
        (
          run-quiet s i (testing fd ip lists) (indexing fd ip lists) m v _ at_i
              (tests m fd ip lists v (omega arith)),
          run-quiet s1 j _ _ m v _ j1 (tests m fd' ip' lists' v (omega arith)),
          run-quiet s2 i _ _ m' v _ i2 (stores m fd ip lists v (omega arith)),
          run-quiet s3 i _ _ m' v _ i3 (loads m' fd ip lists v),
          run-quiet s4 i _ _ m'' v _ i4 (counts m' fd ip lists m.num_clients v),
        )
        (run-stuck s5 j _ v [] j5 (
          overflows m'' fd' ip' lists' v
            (omega (arith, length-set m.clients m.num_clients (some ip)))))
