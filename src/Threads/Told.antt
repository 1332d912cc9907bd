-- ===== src/Threads/Told.antt =====
-- That the tracker of examples/tracker/tracker2.c does what is told of it for connections and commands that
-- do not overlap.
use soft_sys_dubstep_ducks.Prelude.{
  ℕ, zero, suc, ◌≡◌, sym, ◌∙◌, ap, subst, refl, List, [], ◌∷◌, ◌++◌, ok, Option, none, some,
  All-append, get_elem?, get_elem?-append_at, some-eq, set-append_at, map, replicate, length,
  ==_refl, length-replicate,
}
use soft_sys_dubstep_ducks.Sockets.{Network, configure_tracker_socket}
use soft_sys_dubstep_ducks.Tracker.Clients.{Ip}
use soft_sys_dubstep_ducks.Threads.{max_clients, Pc, starting, got_socket, receiving, advance}
use soft_sys_dubstep_ducks.Threads.System.{
  State, accepting, update, initial, main_step, thread_step, step, run,
}
use soft_sys_dubstep_ducks.Threads.Runs.{run-append}
use soft_sys_dubstep_ducks.Threads.Pointers.{HasBuffer, ArgsWritten, IsAliased}
use soft_sys_dubstep_ducks.Threads.Aliased.{written-any}
use soft_sys_dubstep_ducks.Threads.Latest.{initial-IsAliased}
use soft_sys_dubstep_ducks.Threads.Commands.{joined}
use soft_sys_dubstep_ducks.Threads.Filled.{IsFilled}
use soft_sys_dubstep_ducks.Threads.Exclusive.{IsFilled-same}
use soft_sys_dubstep_ducks.Threads.Serial.{
  Command, grow, answer, grow-joined, joined-IsFilled, joined-IsAliased, joined-texts, serves,
}
use soft_sys_dubstep_ducks.Threads.Start.{tracker}
use soft_sys_dubstep_ducks.Threads.Session.{
  Act, connects, commands, connecting, commanding, script, told,
}

-- Every thread waits for a command.
abbrev waiting : ℕ → List ℕ → List Pc
waiting ntoa fds = map (λ fd. receiving fd ntoa) fds

-- The state between two acts.
record Rests (ntoa : ℕ) (s : State) (n : ℕ) (fds : List ℕ) (last : Ip) : Type 0 where
  aliased : IsAliased ntoa s
  filled : IsFilled s.memory
  at_loop : s.main ≡ accepting
  threads_wait : s.threads ≡ waiting ntoa fds
  count : s.memory.num_clients ≡ n
  latest : s.memory.texts ntoa ≡ last

waits_at :
    (ntoa : ℕ) (fds : List ℕ) (k fd : ℕ)
    → get_elem? fds k ≡ some fd
    → get_elem? (waiting ntoa fds) k ≡ some (receiving fd ntoa)
waits_at ntoa [] k fd e = absurd (cc)
waits_at ntoa (f ∷ fds) zero fd e = rw (some-eq e) refl
waits_at ntoa (f ∷ fds) (suc k) fd e = waits_at ntoa fds k fd e

waiting-append :
    (ntoa : ℕ) (fds : List ℕ) (fd : ℕ)
    → waiting ntoa (fds ++ fd ∷ []) ≡ waiting ntoa fds ++ receiving fd ntoa ∷ []
waiting-append ntoa [] fd = refl
waiting-append ntoa (f ∷ fds) fd = ap (◌∷◌ (receiving f ntoa)) (waiting-append ntoa fds fd)

length-waiting : (ntoa : ℕ) (fds : List ℕ) → length (waiting ntoa fds) ≡ length fds
length-waiting ntoa [] = refl
length-waiting ntoa (f ∷ fds) = ap suc (length-waiting ntoa fds)

module _ (fresh : ℕ → ℕ) (heap : Ip → ℕ → ℕ) (ntoa : ℕ) where
  abbrev connected : State → ℕ → Ip → State
  connected s fd ip = record s {
    memory = record s.memory {
      args_fd = fd;
      args_ip = ntoa;
      texts = update s.memory.texts ntoa ip;
    };
    threads = s.threads ++ receiving fd ntoa ∷ [];
  }

  connects_lem :
      (s : State) (fd : ℕ) (ip : Ip) (k : ℕ)
      → s.main ≡ accepting
      → k ≡ length s.threads
      → run fresh heap ntoa s (connecting fresh fd ip k) ≡ ok (connected s fd ip, [])
  unfolding run step main_step thread_step advance
  connects_lem s fd ip k at_loop e =
      rw
        (
          at_loop,
          get_elem?-append_at s.threads [] k starting e,
          set-append_at s.threads [] k starting (got_socket fd) e,
          get_elem?-append_at s.threads [] k (got_socket fd) e,
          set-append_at s.threads [] k (got_socket fd) (receiving fd ntoa) e,
        )
        refl

  connected-Rests :
      (s : State) (n : ℕ) (fds : List ℕ) (last : Ip) (fd : ℕ) (ip : Ip)
      → Rests ntoa s n fds last
      → Rests ntoa (connected s fd ip) n (fds ++ fd ∷ []) ip
  connected-Rests s n fds last fd ip r = record {
    aliased = record {
      known = r.aliased.known;
      handlers =
          All-append (HasBuffer ntoa) s.threads (receiving fd ntoa ∷ []) r.aliased.handlers
            (refl, tt);
      written =
          subst (λ m. ArgsWritten ntoa ntoa m (s.threads ++ receiving fd ntoa ∷ [])) (sym r.at_loop)
            (written-any ntoa fresh heap ntoa (s.threads ++ receiving fd ntoa ∷ []) refl);
    };
    filled = IsFilled-same s.memory (connected s fd ip).memory refl refl r.filled;
    at_loop = r.at_loop;
    threads_wait =
        ap (λ ts. ts ++ receiving fd ntoa ∷ []) r.threads_wait ∙ sym (waiting-append ntoa fds fd);
    count = r.count;
    latest = rw (==_refl ntoa) refl;
  }

  joined-Rests :
      (s : State) (n : ℕ) (fds : List ℕ) (last : Ip)
      → Rests ntoa s n fds last
      → Rests ntoa (record s { memory = joined s.memory ntoa }) (grow n) fds last
  joined-Rests s n fds last r = record {
    aliased = joined-IsAliased ntoa s r.aliased;
    filled = joined-IsFilled s.memory ntoa r.filled;
    at_loop = r.at_loop;
    threads_wait = r.threads_wait;
    count = grow-joined s.memory ntoa ∙ ap grow r.count;
    latest = ap (λ f. f ntoa) (joined-texts s.memory ntoa) ∙ r.latest;
  }

  -- One command of a client that has connected.
  commands_lem :
      (s : State) (n : ℕ) (fds : List ℕ) (last : Ip) (k fd : ℕ) (c : Command)
      → Rests ntoa s n fds last
      → get_elem? fds k ≡ some fd
      → run fresh heap ntoa s (commanding fresh n k c)
        ≡ ok (record s { memory = joined s.memory ntoa }, (fd, answer heap last n c) ∷ [])
  commands_lem s n fds last k fd c r at_k =
      let waits : get_elem? s.threads k ≡ some (receiving fd ntoa) =
        rw r.threads_wait (waits_at ntoa fds k fd at_k) in
      rw (← r.count, ← r.latest) (serves fresh heap ntoa s k fd c r.aliased r.filled waits)

  -- What a client sees, and that the table is in order.
  abbrev pub Sees : State → ℕ → List ℕ → Ip → List Act → Type 0
  Sees s n fds last acts =
      (u : State) × (run fresh heap ntoa s (script fresh n fds acts)
        ≡ ok (u, told heap n fds last acts))
      × IsFilled u.memory

  sees :
      (s : State) (n : ℕ) (fds : List ℕ) (last : Ip) (acts : List Act)
      → Rests ntoa s n fds last
      → Sees s n fds last acts
  unfolding script told
  sees s n fds last [] r = (s, unfold run in refl, r.filled)
  sees s n fds last (connects fd ip ∷ acts) r =
      let ih =
        sees (connected s fd ip) n (fds ++ fd ∷ []) ip acts
          (connected-Rests s n fds last fd ip r) in
      let k : length fds ≡ length s.threads =
        sym (ap length r.threads_wait ∙ length-waiting ntoa fds) in
      let turns = connecting fresh fd ip (length fds) in
      (
        ih.0,
        rw
            (
              run-append fresh heap ntoa s turns (script fresh n (fds ++ fd ∷ []) acts),
              connects_lem s fd ip (length fds) r.at_loop k,
              ih.1,
            )
            refl,
        ih.2,
      )
  sees s n fds last (commands k c ∷ acts) r =
      by_socket (get_elem? fds k) refl (sees s n fds last acts r) (
        sees (record s { memory = joined s.memory ntoa }) (grow n) fds last acts
          (joined-Rests s n fds last r))
    where
      by_socket :
          (o : Option ℕ)
          → get_elem? fds k ≡ o
          → Sees s n fds last acts
          → Sees (record s { memory = joined s.memory ntoa }) (grow n) fds last acts
          → (u : State) × (run fresh heap ntoa s (elim o [
            | none ↦ script fresh n fds acts
            | some fd ↦ commanding fresh n k c ++ script fresh (grow n) fds acts
          ])
              ≡ ok (
                u,
                elim o [
                  | none ↦ told heap n fds last acts
                  | some fd ↦ (fd, answer heap last n c) ∷ told heap (grow n) fds last acts
                ],
              ))
            × IsFilled u.memory
      by_socket none e same more = same
      by_socket (some fd) e same more = (
        more.0,
        rw
            (
              run-append fresh heap ntoa s (commanding fresh n k c)
                  (script fresh (grow n) fds acts),
              commands_lem s n fds last k fd c r e,
              more.1,
            )
            refl,
        more.2,
      )

  -- From its start on, when it gets a listening socket, the tracker does for connections and commands that
  -- come one after the other what is told: while there are less than 30 clients, each "join" and each
  -- "list" adds one. A "join" is answered "joined" then, and "failed to join" otherwise; a "list" with the
  -- number of clients and an entry for each, always of the address that has connected last, without
  -- the last byte. Its table is in order afterwards.
  pub tracker-told :
      (net : Network) (fd p : ℕ) (texts : ℕ → Ip) (listening_socket : Option ℕ) (acts : List Act)
      → configure_tracker_socket net ≡ ok listening_socket
      → (u : State) × (tracker fresh heap ntoa net fd p texts (script fresh 0 [] acts)
          ≡ ok (u, told heap 0 [] (texts ntoa) acts))
        × IsFilled u.memory
  unfolding tracker
  tracker-told net fd p texts listening_socket acts opens = rw opens (
      sees (initial fd p texts) 0 [] (texts ntoa) acts (record {
        aliased = initial-IsAliased ntoa fd p texts;
        filled = record {
          pointers = [];
          unused = replicate max_clients none;
          table = refl;
          count = refl;
          size = length-replicate {A = Option ℕ} max_clients none;
        };
        at_loop = refl;
        threads_wait = refl;
        count = refl;
        latest = refl;
      }))
