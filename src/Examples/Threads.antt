-- ===== src/Examples/Threads.antt =====
-- The tracker of examples/tracker/tracker2.c with two clients.
use soft_sys_dubstep_ducks.Prelude.{
  ℕ, ◌<◌, ◌≤◌, ◌≡◌, refl, List, [], ◌∷◌, ◌++◌, Bool, true, false, ok, exits, undefined, out_of_fuel,
  none, some, arith, get_elem?, map, replicate, write_at, malloc, bytes_eq,
}
use soft_sys_dubstep_ducks.Tracker.Clients.{Ip}
use soft_sys_dubstep_ducks.Tracker.Message.{recv_msg, has_word, send_msg, build_msg}
use soft_sys_dubstep_ducks.Torrent.Connecting.{store}
use soft_sys_dubstep_ducks.Tracker.Peers.{list_word, join_word, joined_word}
use soft_sys_dubstep_ducks.Tracker.Reply.{ip_entry}
use soft_sys_dubstep_ducks.Threads.{
  max_clients, got_socket, indexing, testing, storing, listing, command, copy_client, advance,
}
use soft_sys_dubstep_ducks.Threads.System.{
  State, naming, Event, main_turn, turn, update, initial, main_step, thread_step, step, run, Reach,
  here, next,
}
use soft_sys_dubstep_ducks.Threads.Latest.{last_ip}
use soft_sys_dubstep_ducks.Threads.Commands.{asks}
use soft_sys_dubstep_ducks.Threads.Filled.{IsFilled}
use soft_sys_dubstep_ducks.Threads.Turns.{adders, TakesTurns}
use soft_sys_dubstep_ducks.Threads.Exclusive.{Reach-IsFilled}
use soft_sys_dubstep_ducks.Threads.Listed.{same_entries}
use soft_sys_dubstep_ducks.Threads.Serial.{Asked, join_table, get_list}
use soft_sys_dubstep_ducks.Sockets.{Network, configure_tracker_socket}
use soft_sys_dubstep_ducks.Threads.Start.{tracker, tracker-IsAliased}
use soft_sys_dubstep_ducks.Threads.Pointers.{IsAliased}
use soft_sys_dubstep_ducks.Threads.Session.{Act, connects, commands, script, told}
use soft_sys_dubstep_ducks.Threads.Told.{tracker-told}
use soft_sys_dubstep_ducks.Threads.Races.{race_overflow, lost_socket}
use soft_sys_dubstep_ducks.Threads.Overrun.{race_overrun}

abbrev fresh : ℕ → ℕ
fresh i = 0

abbrev heap : Ip → ℕ → ℕ
heap ip i = 0

abbrev nowhere : ℕ → Ip
nowhere p = 0 ∷ []

abbrev first : Ip
first = b'1' ∷ 0 ∷ []

abbrev second : Ip
second = b'2' ∷ 0 ∷ []

abbrev before : State
before = initial 0 0 nowhere

-- The state that is reached by the events, up to the first that leads to none.
abbrev explore :
    {t : State}
    → Reach fresh heap 9 before t
    → List Event
    → (u : State) × Reach fresh heap 9 before u
explore {t} reached [] = (t, reached)
explore {t} reached (e ∷ events) =
    (elim (step fresh heap 9 t e)
        as (λ o. step fresh heap 9 t e ≡ o → (u : State) × Reach fresh heap 9 before u) [
          | ok r ↦ λ eq. explore (next reached e r.1 eq) events
          | exits n ↦ λ eq. (t, reached)
          | undefined ↦ λ eq. (t, reached)
          | out_of_fuel ↦ λ eq. (t, reached)
        ])
      refl

abbrev accepts : ℕ → Ip → List Event
accepts fd ip = main_turn (some (fd, ip)) true ∷ main_turn none true ∷ main_turn none true ∷ []

-- The first client has asked for the list, and the second is accepted while its entry is copied.
abbrev events : List Event
events =
    accepts 4 first
    ++ (map (turn 0) (replicate 10 (asks fresh list_word))
        ++ main_turn (some (5, second)) true ∷ main_turn none true ∷ [])

abbrev busy : (u : State) × Reach fresh heap 9 before u
busy = explore here events

abbrev later : State
later = (explore busy.1 (turn 0 (asks fresh list_word) ∷ [])).0

-- It is the second client's.
latest : last_ip busy.1 ≡ second
unfolding step main_step thread_step advance command copy_client recv_msg has_word bytes_eq store
    write_at malloc ip_entry last_ip
latest = refl

-- Both are connected, the second has been added, and both wait for their commands.
abbrev connected : (u : State) × Reach fresh heap 9 before u
connected = explore here (
    accepts 4 first
    ++ (map (turn 0) (replicate 2 (asks fresh list_word))
        ++ (accepts 5 second ++ map (turn 1) (replicate 8 (asks fresh join_word)))))

none_inside : 0 ≤ 1
none_inside = omega arith

one_inside : 1 ≤ 1
one_inside = omega arith

Reach-IsFilled_example :
    IsFilled connected.0.memory
    × (connected.0.memory.num_clients ≤ max_clients)
    × ((k fd ip : ℕ) (lists : Bool)
        → get_elem? connected.0.threads k ≡ some (indexing fd ip lists)
        → connected.0.memory.num_clients < max_clients)
unfolding step main_step thread_step advance command copy_client recv_msg has_word bytes_eq store
    write_at malloc send_msg build_msg adders TakesTurns
Reach-IsFilled_example = Reach-IsFilled fresh heap 9 connected.1 (search (none_inside, one_inside))

-- All calls for the listening socket succeed.
abbrev network : Network
network = record { socket = some 3; setsockopt = λ s. true; bind = λ s. true; listen = λ s. true }

abbrev acts : List Act
acts =
    connects 4 first
    ∷ commands 0 get_list
    ∷ connects 5 second
    ∷ commands 1 join_table
    ∷ commands 0 get_list
    ∷ commands 7 join_table
    ∷ []

tracker-told_example :
    (u : State) × (tracker fresh heap 9 network 0 0 nowhere (script fresh 0 [] acts)
      ≡ ok (u, told heap 0 [] (nowhere 9) acts))
    × IsFilled u.memory
unfolding configure_tracker_socket
tracker-told_example = tracker-told fresh heap 9 network 0 0 nowhere (some 3) acts refl

opens : configure_tracker_socket network ≡ ok (some 3)
unfolding configure_tracker_socket
opens = refl

tracker-IsAliased_example :
    IsAliased 9 (tracker-told fresh heap 9 network 0 0 nowhere (some 3) acts opens).0
tracker-IsAliased_example =
    tracker-IsAliased fresh heap 9 network 0 0 nowhere (script fresh 0 [] acts)
      (tracker-told fresh heap 9 network 0 0 nowhere (some 3) acts opens).0
      (told heap 0 [] (nowhere 9) acts)
      (tracker-told fresh heap 9 network 0 0 nowhere (some 3) acts opens).1

-- Three replies, the last one with 3 entries.
told-acts :
    told heap 0 [] (nowhere 9) acts
    ≡ (4, same_entries heap 1 first) ∷ (5, 6 ∷ joined_word) ∷ (4, same_entries heap 3 second) ∷ []
unfolding told
told-acts = refl

abbrev asked : List Asked
asked = (0, 4, get_list) ∷ (1, 5, join_table) ∷ []

-- 29 clients have joined, and two more are past the test of addClient.
abbrev nearly_full : State
nearly_full = record before {
  memory = record before.memory { num_clients = 29; clients = replicate 29 (some 9) ++ none ∷ [] };
  threads = testing 4 9 false ∷ testing 5 9 true ∷ [];
}

race_overflow_example :
    run fresh heap 9 nearly_full
      (map (λ i. turn i (asks fresh join_word)) (0 ∷ 1 ∷ 0 ∷ 0 ∷ 0 ∷ 1 ∷ []))
    ≡ undefined
race_overflow_example =
    race_overflow fresh heap 9 nearly_full 0 1 4 5 9 9 false true (asks fresh join_word)
      (λ e. omega arith) refl refl refl refl

-- One client has joined, and another's reply is under way.
abbrev replying : State
replying = record before {
  memory = record before.memory { num_clients = 1; clients = some 9 ∷ some 9 ∷ replicate 28 none };
  threads = listing 4 9 ∷ storing 5 9 false 1 ∷ [];
}

race_overrun_example :
    run fresh heap 9 replying
      (map (λ i. turn i (asks fresh join_word)) (0 ∷ 1 ∷ 0 ∷ 0 ∷ 0 ∷ 0 ∷ []))
    ≡ undefined
race_overrun_example =
    race_overrun fresh heap 9 replying 0 1 4 5 9 9 9 false (asks fresh join_word) (9 ∷ [])
      (replicate 28 none) (λ e. omega arith) refl refl refl refl

lost_socket_example :
    run fresh heap 9 before
      (accepts 4 first ++ (main_turn (some (5, second)) true ∷ turn 0 (asks fresh join_word) ∷ []))
    ≡ ok (
      record before {
        memory = record before.memory { args_fd = 5; args_ip = 9; texts = update nowhere 9 first };
        main = naming second;
        threads = got_socket 5 ∷ [];
      },
      [],
    )
lost_socket_example = lost_socket fresh heap 9 before 4 5 first second (asks fresh join_word) refl
