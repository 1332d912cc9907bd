-- ===== src/Torrent/Rounds/Closed.antt =====
-- Which entries of `fds` the loop of main in src/torrent.c opens.
use soft_sys_dubstep_ducks.Prelude.{
  ℕ, ◌+◌, ◌≡◌, ◌≢◌, List, Bool, true, false, get_elem?, get_elem?-set_ne, some, sym, Always,
  Always-bind, Always-any, Always-ok, Always-returned, Always-undefined, ltb, length, Bool-cases,
  inl, inr, replicate,
}
use soft_sys_dubstep_ducks.Torrent.Connecting.{store}
use soft_sys_dubstep_ducks.Torrent.Loop.{Download, Client, count_have, accept_connection, visit}
use soft_sys_dubstep_ducks.Torrent.Loop.Visits.{Keeps, visit-Keeps}
use soft_sys_dubstep_ducks.Torrent.Rounds.{
  Point, polling, visiting, client_at, quiet, refused, accepted, Polled, poll_error, timed_out,
  ready, Event, on_poll, step, Reach, here, next,
}

-- Entry k is closed.
abbrev IsClosed : ℕ → Point → Type 0
IsClosed k p = get_elem? (client_at p).fds k ≡ some false

store-other :
    (array : List Bool) (i k : ℕ) (a : Bool)
    → i ≢ k
    → Always (λ array'. get_elem? array' k ≡ get_elem? array k) (store array i a)
unfolding store
store-other array i k a other = elim (Bool-cases (ltb i (length array))) [
  | inl inside ↦ rw inside (Always-returned _ _ (get_elem?-set_ne array i k a other))
  | inr outside ↦ rw outside (Always-undefined _)
]

module _ (k : ℕ) (other : k ≢ 1) where
  on_poll-IsClosed :
      (s : Client) (p : Polled) → get_elem? s.fds k ≡ some false → Always (IsClosed k) (on_poll s p)
  unfolding on_poll accept_connection
  on_poll-IsClosed s poll_error closed = Always-returned _ _ closed
  on_poll-IsClosed s timed_out closed = Always-returned _ _ closed
  on_poll-IsClosed s (ready quiet) closed = Always-returned _ _ closed
  on_poll-IsClosed s (ready refused) closed = Always-returned _ _ closed
  on_poll-IsClosed s (ready accepted) closed =
      Always-bind _ (IsClosed k) (accept_connection s) _
        (Always-bind _ (λ s'. get_elem? s'.fds k ≡ some false) (store s.fds 1 true) _
          (store-other s.fds 1 k true (λ e. other (sym e)))
          (λ fds same. Always-returned _ _ (rw same closed)))
        (λ s' closed'. Always-returned _ _ closed')

  step-IsClosed :
      (fresh : ℕ → ℕ) (d : Download) (p : Point) (e : Event)
      → IsClosed k p
      → Always (IsClosed k) (step fresh d p e)
  unfolding step
  step-IsClosed fresh d (polling s) e closed =
      Always-any _ (count_have d.own d.total_pieces_in_file) _ (λ n.
        on_poll-IsClosed (record s { buffer = replicate (length s.buffer) 0 }) e.polled closed)
  step-IsClosed fresh d (visiting s i) e closed = elim (Bool-cases (ltb i (s.max_peer_index + 1))) [
    | inl within ↦ rw within (
        Always-bind (Keeps s) (IsClosed k) (visit fresh d s i e.next_visit) _
          (visit-Keeps fresh d s i e.next_visit) (λ r kept. Always-returned _ _ (kept.3 k closed)))
    | inr over ↦ rw over (Always-returned _ _ closed)
  ]

  -- However often main accepts a connection, only entry 1 of `fds` is ever opened: another one that is
  -- closed stays closed at every later point.
  pub Reach-IsClosed :
      {fresh : ℕ → ℕ} {d : Download} {p q : Point}
      → Reach fresh d p q
      → get_elem? (client_at p).fds k ≡ some false
      → get_elem? (client_at q).fds k ≡ some false
  Reach-IsClosed here closed = closed
  Reach-IsClosed {fresh} {d} (next {q} {r} reached e h) closed =
      Always-ok (IsClosed k) (step fresh d q e) r
        (step-IsClosed fresh d q e (Reach-IsClosed reached closed)) h
