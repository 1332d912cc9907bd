-- ===== src/Threads/Session.antt =====
-- The tracker of examples/tracker/tracker2.c from its start on, as its clients see it while connections
-- and commands do not overlap.
use soft_sys_dubstep_ducks.Prelude.{
  ℕ, List, [], ◌∷◌, ◌++◌, true, none, some, get_elem?, map, replicate, length,
}
use soft_sys_dubstep_ducks.Tracker.Clients.{Ip}
use soft_sys_dubstep_ducks.Tracker.Peers.{list_word}
use soft_sys_dubstep_ducks.Threads.System.{Event, main_turn, turn}
use soft_sys_dubstep_ducks.Threads.Commands.{asks}
use soft_sys_dubstep_ducks.Threads.Serial.{Command, word, grow, steps, answer}

-- A client connects, from an address and over a socket, or the client of thread k gives a command.
pub data Act : Type 0 where
  connects : (fd : ℕ) (ip : Ip) → Act
  commands : (k : ℕ) (c : Command) → Act

-- main accepts the connection, and thread k takes its arguments.
abbrev pub connecting : (ℕ → ℕ) → ℕ → Ip → ℕ → List Event
connecting fresh fd ip k =
    main_turn (some (fd, ip)) true
    ∷ main_turn none true
    ∷ main_turn none true
    ∷ turn k (asks fresh list_word)
    ∷ turn k (asks fresh list_word)
    ∷ []

abbrev pub commanding : (ℕ → ℕ) → ℕ → ℕ → Command → List Event
commanding fresh n k c = map (turn k) (replicate (steps n c) (asks fresh (word c)))

-- The turns, beginning with n clients in the table and the sockets of the threads. A client that has not
-- connected gives no command.
unfoldable pub script : (ℕ → ℕ) → ℕ → List ℕ → List Act → List Event
script fresh n fds [] = []
script fresh n fds (connects fd ip ∷ acts) =
    connecting fresh fd ip (length fds) ++ script fresh n (fds ++ fd ∷ []) acts
script fresh n fds (commands k c ∷ acts) = elim (get_elem? fds k) [
  | none ↦ script fresh n fds acts
  | some fd ↦ commanding fresh n k c ++ script fresh (grow n) fds acts
]

-- What is to be sent, where `last` is the address that has connected last.
unfoldable pub told : (Ip → ℕ → ℕ) → ℕ → List ℕ → Ip → List Act → List (ℕ × List ℕ)
told heap n fds last [] = []
told heap n fds last (connects fd ip ∷ acts) = told heap n (fds ++ fd ∷ []) ip acts
told heap n fds last (commands k c ∷ acts) = elim (get_elem? fds k) [
  | none ↦ told heap n fds last acts
  | some fd ↦ (fd, answer heap last n c) ∷ told heap (grow n) fds last acts
]
