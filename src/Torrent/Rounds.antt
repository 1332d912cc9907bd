-- ===== src/Torrent/Rounds.antt =====
-- The `while (1)` loop of main in src/torrent.c as a state machine: it is about to call poll, or about
-- to test the condition of the loop over the entries of `fds`.
pub mod Room
pub mod Idle
pub mod Closed
pub mod Choked
pub mod Haves
pub mod Steps
pub mod Served
use soft_sys_dubstep_ducks.Prelude.{
  ℕ, ◌+◌, ◌≡◌, List, [], ◌∷◌, Outcome, ok, ◌>>=◌, length, replicate, if◌then◌else◌, ltb,
}
use soft_sys_dubstep_ducks.Torrent.Loop.{
  Download, Client, Visit, count_have, accept_connection, visit,
}

pub data Point : Type 0 where
  polling : Client → Point
  visiting : Client → ℕ → Point

abbrev pub client_at : Point → Client
client_at (polling s) = s
client_at (visiting s i) = s

-- What there is on the listener: nothing, a connection that accept fails on, or one that it returns.
pub data Listener : Type 0 where
  quiet : Listener
  refused : Listener
  accepted : Listener

-- What poll reports: -1, 0, or sockets that are ready.
pub data Polled : Type 0 where
  poll_error : Polled
  timed_out : Polled
  ready : Listener → Polled

-- What the operating system does next: what poll reports if it is called, and what happens on a visit
-- if there is one.
pub record Event : Type 0 where
  pub polled : Polled
  pub next_visit : Visit

unfoldable pub check_listener : Client → Listener → Outcome Client
check_listener s quiet = ok s
check_listener s refused = ok s
check_listener s accepted = accept_connection s

-- Behind poll.
unfoldable pub on_poll : Client → Polled → Outcome Point
unfolding check_listener
on_poll s poll_error = ok (polling s)
on_poll s timed_out = ok (polling s)
on_poll s (ready l) = do s' ← check_listener s l; ok (visiting s' 1)

-- From one point to the next: to poll, with the buffer cleared and the pieces counted, or one round of
-- the inner loop.
unfoldable pub step : (ℕ → ℕ) → Download → Point → Event → Outcome Point
unfolding on_poll
step fresh d (polling s) e = do
  num_have_pieces ← count_have d.own d.total_pieces_in_file
  on_poll (record s { buffer = replicate (length s.buffer) 0 }) e.polled
step fresh d (visiting s i) e =
    let go = do r ← visit fresh d s i e.next_visit; ok (visiting r.0 (r.1 + 1))
    in if ltb i (s.max_peer_index + 1) then go else ok (polling s)

-- As many steps as there are events.
unfoldable pub run : (ℕ → ℕ) → Download → Point → List Event → Outcome Point
unfolding step
run fresh d p [] = ok p
run fresh d p (e ∷ events) = do q ← step fresh d p e; run fresh d q events

-- The points that are reached from one.
pub data Reach (fresh : ℕ → ℕ) (d : Download) (p : Point) : Point → Type 0 where
  here : Reach fresh d p p
  next :
      {q r : Point} → Reach fresh d p q → (e : Event) → step fresh d q e ≡ ok r → Reach fresh d p r

abbrev pub accepting : Polled → ℕ
accepting (ready accepted) = 1
accepting (ready quiet) = 0
accepting (ready refused) = 0
accepting poll_error = 0
accepting timed_out = 0

-- 1 for a step that accepts a connection.
abbrev pub accepts_at : Point → Event → ℕ
accepts_at (polling s) e = accepting e.polled
accepts_at (visiting s i) e = 0

-- How many connections were accepted on the way.
unfoldable pub accepts : {fresh : ℕ → ℕ} {d : Download} {p q : Point} → Reach fresh d p q → ℕ
accepts here = 0
accepts (next {q = q} r e h) = accepts r + accepts_at q e
