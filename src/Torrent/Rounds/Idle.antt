-- ===== src/Torrent/Rounds/Idle.antt =====
-- Rounds of main in src/torrent.c in which nobody is served.
use soft_sys_dubstep_ducks.Prelude.{
  ℕ, ◌+◌, ◌≤◌, ◌<◌, ◌≡◌, refl, List, [], ◌∷◌, false, ok, arith, length, get_elem?, some, Always,
  Always-any, Always-ok, Always-returned, ltb, lt→ltb, Bool-cases, inl, inr, replicate,
}
use soft_sys_dubstep_ducks.Torrent.Loop.{Download, Client, count_have, visit}
use soft_sys_dubstep_ducks.Torrent.Rounds.{
  Point, polling, visiting, client_at, quiet, refused, accepted, Polled, poll_error, timed_out,
  ready, Event, on_poll, step, run, Reach, here, next, accepting, accepts_at, accepts,
}

-- The connections, the entries of `fds` and the block `test` of another client, with no entry to visit.
abbrev SameClient : Client → Client → Type 0
SameClient s s' =
    (s'.connections ≡ s.connections)
    × (s'.fds ≡ s.fds)
    × (s'.test_freed ≡ s.test_freed)
    × (s'.max_peer_index ≡ 0)

abbrev IsIdle : Client → Point → Type 0
IsIdle s (polling s') = SameClient s s'
IsIdle s (visiting s' i) = SameClient s s' × (1 ≤ i)

on_poll-IsIdle :
    (s s' : Client) (p : Polled)
    → SameClient s s'
    → accepting p ≡ 0
    → Always (IsIdle s) (on_poll s' p)
unfolding on_poll
on_poll-IsIdle s s' poll_error same none = Always-returned _ _ same
on_poll-IsIdle s s' timed_out same none = Always-returned _ _ same
on_poll-IsIdle s s' (ready quiet) same none = Always-returned _ _ (same, omega arith)
on_poll-IsIdle s s' (ready refused) same none = Always-returned _ _ (same, omega arith)
on_poll-IsIdle s s' (ready accepted) same none = absurd (omega arith)

module _ (fresh : ℕ → ℕ) (d : Download) where
  step-IsIdle :
      (s : Client) (p : Point) (e : Event)
      → IsIdle s p
      → accepts_at p e ≡ 0
      → Always (IsIdle s) (step fresh d p e)
  unfolding step
  step-IsIdle s (polling s') e same none =
      Always-any _ (count_have d.own d.total_pieces_in_file) _ (λ n.
        on_poll-IsIdle s (record s' { buffer = replicate (length s'.buffer) 0 }) e.polled same none)
  step-IsIdle s (visiting s' i) e same none = elim (Bool-cases (ltb i (s'.max_peer_index + 1))) [
    | inl within ↦ absurd (ground (arith, same.0.3, same.1))
    | inr over ↦ rw over (Always-returned _ _ same.0)
  ]

  Reach-IsIdle :
      (s : Client) {p q : Point} (reached : Reach fresh d p q)
      → IsIdle s p
      → accepts reached ≡ 0
      → IsIdle s q
  unfolding accepts
  Reach-IsIdle s here idle none = idle
  Reach-IsIdle s (next {q} {r} reached e h) idle none =
      Always-ok _ (step fresh d q e) r
        (step-IsIdle s q e (Reach-IsIdle s reached idle (omega arith)) (omega arith)) h

  -- From a call of poll with no entry to visit on, as main begins, connections and descriptors stay as
  -- they are, and no entry is to be visited, until a connection is accepted.
  pub Reach-idle :
      {s : Client} {q : Point} (reached : Reach fresh d (polling s) q)
      → s.max_peer_index ≡ 0
      → accepts reached ≡ 0
      → ((client_at q).connections ≡ s.connections)
        × ((client_at q).fds ≡ s.fds)
        × ((client_at q).test_freed ≡ s.test_freed)
        × ((client_at q).max_peer_index ≡ 0)
  Reach-idle {s} {q} reached start none =
      same_client q (Reach-IsIdle s reached (refl, refl, refl, start) none)
    where
      same_client : (p : Point) → IsIdle s p → SameClient s (client_at p)
      same_client (polling s') same = same
      same_client (visiting s' i) same = same.0

  closed-step :
      (s : Client) (i : ℕ) (e : Event)
      → i < s.max_peer_index + 1
      → get_elem? s.fds i ≡ some false
      → step fresh d (visiting s i) e ≡ ok (visiting s (i + 1))
  unfolding step visit
  closed-step s i e within closed = rw (lt→ltb i (s.max_peer_index + 1) within, closed)

  -- Where all entries that are visited are closed, the inner loop ends and main comes back to poll,
  -- after one test of its condition for each entry and one more, whatever happens meanwhile, and
  -- the client is what it was.
  pub closed_round :
      (s : Client) (i : ℕ) (e : Event) (events : List Event)
      → i + length events ≡ s.max_peer_index + 1
      → ((k : ℕ) → i ≤ k → k ≤ s.max_peer_index → get_elem? s.fds k ≡ some false)
      → run fresh d (visiting s i) (e ∷ events) ≡ ok (polling s)
  unfolding run
  closed_round s i e [] last closed = rw (step_over s i e (omega arith))
    where
      step_over :
          (s : Client) (i : ℕ) (e : Event)
          → s.max_peer_index + 1 ≤ i
          → step fresh d (visiting s i) e ≡ ok (polling s)
      step_over s i e over = unfold step in ground arith
  closed_round s i e (e' ∷ events) last closed =
      rw (closed-step s i e (omega arith) (closed i (omega arith) (omega arith)))
        (closed_round s (i + 1) e' events (omega arith) (λ k low high. closed k (omega arith) high))
