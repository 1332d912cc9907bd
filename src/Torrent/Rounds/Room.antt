-- ===== src/Torrent/Rounds/Room.antt =====
-- How many connections main of src/torrent.c can accept.
use soft_sys_dubstep_ducks.Prelude.{
  ℕ, ◌+◌, ◌≤◌, ◌≡◌, refl, true, arith, length, Always, Always-bind, Always-any, Always-ok,
  Always-returned, ◌∙◌, ltb, Bool-cases, inl, inr, replicate,
}
use soft_sys_dubstep_ducks.Torrent.Connecting.{store}
use soft_sys_dubstep_ducks.Torrent.Connecting.Room.{store-length}
use soft_sys_dubstep_ducks.Torrent.Loop.{Download, Client, count_have, accept_connection, visit}
use soft_sys_dubstep_ducks.Torrent.Loop.Visits.{Keeps, visit-Keeps}
use soft_sys_dubstep_ducks.Torrent.Rounds.{
  Point, polling, visiting, client_at, quiet, refused, accepted, Polled, poll_error, timed_out,
  ready, Event, on_poll, step, Reach, here, next, accepting, accepts_at, accepts,
}

-- The arrays have MAX_PEERS entries.
abbrev pub Sized : Client → Type 0
Sized s = (length s.connections ≡ 10) × (length s.fds ≡ 10)

-- Before poll at most 9 entries are visited, entry 0 aside; an entry in the loop is one of `fds`, or
-- just behind them.
abbrev pub HasRoom : Point → Type 0
HasRoom (polling s) = Sized s × (s.max_peer_index ≤ 9)
HasRoom (visiting s i) = Sized s × (s.max_peer_index ≤ 10) × (i ≤ 10)

-- As many entries more are visited as connections were accepted.
abbrev Counted : ℕ → Client → Point → Type 0
Counted n s p = (client_at p).max_peer_index ≡ s.max_peer_index + n

accept_connection-room :
    (s : Client)
    → Sized s
    → Always (λ s'. Sized s' × (s'.max_peer_index ≡ s.max_peer_index + 1)) (accept_connection s)
unfolding accept_connection
accept_connection-room s size =
    Always-bind _ _ (store s.fds 1 true) _ (store-length s.fds 1 true)
      (λ fds p. Always-returned _ _ ((size.0, p.0 ∙ size.1), refl))

on_poll-room :
    (s : Client) (p : Polled)
    → Sized s
    → s.max_peer_index ≤ 9
    → Always (λ q. HasRoom q × Counted (accepting p) s q) (on_poll s p)
unfolding on_poll
on_poll-room s poll_error size few = Always-returned _ _ ((size, few), omega arith)
on_poll-room s timed_out size few = Always-returned _ _ ((size, few), omega arith)
on_poll-room s (ready quiet) size few =
    Always-returned _ _ ((size, omega arith, omega arith), omega arith)
on_poll-room s (ready refused) size few =
    Always-returned _ _ ((size, omega arith, omega arith), omega arith)
on_poll-room s (ready accepted) size few =
    Always-bind _ _ (accept_connection s) _ (accept_connection-room s size)
      (λ s' p. Always-returned _ _ ((p.0, omega (arith, p.1), omega arith), p.1))

module _ (fresh : ℕ → ℕ) (d : Download) where
  step-room :
      (p : Point) (e : Event)
      → HasRoom p
      → Always (λ q. HasRoom q × Counted (accepts_at p e) (client_at p) q) (step fresh d p e)
  unfolding step
  step-room (polling s) e room = Always-any _ (count_have d.own d.total_pieces_in_file) _ (λ n.
      on_poll-room (record s { buffer = replicate (length s.buffer) 0 }) e.polled room.0 room.1)
  step-room (visiting s i) e room = elim (Bool-cases (ltb i (s.max_peer_index + 1))) [
    | inl within ↦ rw within (
        Always-bind (Keeps s) _ (visit fresh d s i e.next_visit) _
          (visit-Keeps fresh d s i e.next_visit)
          (λ r k. Always-returned _ _ (
            (
              (k.0 ∙ room.0.0, k.1 ∙ room.0.1),
              omega (arith, k.2, room.1),
              omega (arith, k.4, room.0),
            ),
            omega (arith, k.2),
          )))
    | inr over ↦ rw over (Always-returned _ _ ((room.0, ground arith), omega arith))
  ]

  pub Reach-HasRoom : {p q : Point} → Reach fresh d p q → HasRoom p → HasRoom q
  Reach-HasRoom here room = room
  Reach-HasRoom (next {q} {r} reached e h) room =
      (Always-ok _ (step fresh d q e) r (step-room q e (Reach-HasRoom reached room)) h).0

  Reach-Counted :
      {p q : Point} (reached : Reach fresh d p q)
      → HasRoom p
      → Counted (accepts reached) (client_at p) q
  unfolding accepts
  Reach-Counted here room = omega arith
  Reach-Counted (next {q} {r} reached e h) room =
      let counted =
        Always-ok _ (step fresh d q e) r (step-room q e (Reach-HasRoom reached room)) h in
      omega (arith, counted.1, Reach-Counted reached room)

  -- From a call of poll with arrays of MAX_PEERS entries on, main comes back to poll after at most 9
  -- accepted connections, those before included, and each one raises the number of entries that are
  -- visited by one.
  pub Reach-accepts :
      {s s' : Client} (reached : Reach fresh d (polling s) (polling s'))
      → length s.connections ≡ 10
      → length s.fds ≡ 10
      → s.max_peer_index ≤ 9
      → (s'.max_peer_index ≡ s.max_peer_index + accepts reached)
        × (s.max_peer_index + accepts reached ≤ 9)
  Reach-accepts reached size size' few =
      let room = Reach-HasRoom reached ((size, size'), few) in
      let counted = Reach-Counted reached ((size, size'), few) in
      (counted, omega (arith, counted, room.1))
