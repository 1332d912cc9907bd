-- ===== src/Threads/Start.antt =====
-- main of examples/tracker/tracker2.c from its beginning: the listening socket, made as in src/tracker.c,
-- and then the loop with its threads.
use soft_sys_dubstep_ducks.Prelude.{ℕ, ◌≡◌, List, Outcome, ok, ◌>>=◌, Always-any, Always-ok}
use soft_sys_dubstep_ducks.Sockets.{Network, configure_tracker_socket}
use soft_sys_dubstep_ducks.Tracker.Clients.{Ip}
use soft_sys_dubstep_ducks.Threads.System.{State, Event, initial, run, Reach, here}
use soft_sys_dubstep_ducks.Threads.Runs.{run-Reach}
use soft_sys_dubstep_ducks.Threads.Pointers.{IsAliased}
use soft_sys_dubstep_ducks.Threads.Aliased.{Reach-IsAliased}
use soft_sys_dubstep_ducks.Threads.Latest.{initial-IsAliased}

module _ (fresh : ℕ → ℕ) (heap : Ip → ℕ → ℕ) (ntoa : ℕ) where
  -- fd and p are what stands in the fields of `args` before they are written.
  unfoldable pub tracker :
      Network → ℕ → ℕ → (ℕ → Ip) → List Event → Outcome (State × List (ℕ × List ℕ))
  tracker net fd p texts events = do
    listening_socket ← configure_tracker_socket net
    run fresh heap ntoa (initial fd p texts) events

  -- Whatever happens, and in which order the threads go on: in every state that main comes to, all
  -- pointers in the table and all that the threads hold are that of the one buffer of inet_ntoa.
  pub tracker-IsAliased :
      (net : Network) (fd p : ℕ) (texts : ℕ → Ip) (events : List Event) (u : State)
      (sent : List (ℕ × List ℕ))
      → tracker net fd p texts events ≡ ok (u, sent)
      → IsAliased ntoa u
  unfolding tracker
  tracker-IsAliased net fd p texts events u sent goes =
      let reached =
        Always-ok (λ r. Reach fresh heap ntoa (initial fd p texts) r.0)
          (tracker net fd p texts events) (u, sent)
          (Always-any _ (configure_tracker_socket net) _
            (λ listening_socket. run-Reach fresh heap ntoa (initial fd p texts) events here))
          goes in
      Reach-IsAliased ntoa fresh heap reached (initial-IsAliased ntoa fd p texts)
