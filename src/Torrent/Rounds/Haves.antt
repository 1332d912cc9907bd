-- ===== src/Torrent/Rounds/Haves.antt =====
-- How many HAVE messages the loop of main in src/torrent.c goes through.
use soft_sys_dubstep_ducks.Prelude.{
  ℕ, ◌+◌, ◌≤◌, ◌≡◌, Bool, true, false, ◌&&◌, Option, none, some, ok, ◌>>=◌, arith, get_elem?,
  or_undefined, or_undefined-eq, Always, Always-any, Always-bind, Always-if, Always-mono, Always-ok,
  Always-returned, ltb, if◌then◌else◌, length, replicate, Bool-cases, inl, inr,
}
use soft_sys_dubstep_ducks.Torrent.Connecting.{store}
use soft_sys_dubstep_ducks.Torrent.Receive.Have.{is_have, as_number, Counts, on_received-Counts}
use soft_sys_dubstep_ducks.Torrent.Loop.{
  Download, Client, Visit, count_have, accept_connection, write_out, read_in, visit,
}
use soft_sys_dubstep_ducks.Torrent.Rounds.{
  Point, polling, visiting, client_at, quiet, refused, accepted, Polled, poll_error, timed_out,
  ready, Event, on_poll, step, Reach, here, next,
}

abbrev is_open_entry : Option Bool → Bool
is_open_entry none = false
is_open_entry (some is_open) = is_open

-- 1 for the visit to an open entry at which something is received that is taken for a HAVE message.
abbrev pub have_at : Download → Point → Event → ℕ
have_at d (polling s) e = 0
have_at d (visiting s i) e = as_number (
    ltb i (s.max_peer_index + 1)
    && (is_open_entry (get_elem? s.fds i) && is_have d.total_pieces_in_file e.next_visit.received))

-- How many such visits there were on the way.
unfoldable pub haves : {fresh : ℕ → ℕ} {d : Download} {p q : Point} → Reach fresh d p q → ℕ
haves here = 0
haves {d = d} (next {q = q} reached e h) = haves reached + have_at d q e

abbrev freed : Client → ℕ
freed s = as_number s.test_freed

as_number-le : (b : Bool) → as_number b ≤ 1
as_number-le true = omega arith
as_number-le false = omega arith

on_poll-freed :
    (s : Client) (p : Polled) → Always (λ q. freed s ≤ freed (client_at q)) (on_poll s p)
unfolding on_poll accept_connection
on_poll-freed s poll_error = Always-returned _ _ (omega arith)
on_poll-freed s timed_out = Always-returned _ _ (omega arith)
on_poll-freed s (ready quiet) = Always-returned _ _ (omega arith)
on_poll-freed s (ready refused) = Always-returned _ _ (omega arith)
on_poll-freed s (ready accepted) =
    Always-bind (λ s'. freed s ≤ freed s') _ (accept_connection s) _
      (Always-any _ (store s.fds 1 true) _ (λ fds. Always-returned _ _ (omega arith)))
      (λ s' k. Always-returned _ _ k)

module _ (fresh : ℕ → ℕ) (d : Download) where
  read_in-freed :
      (s : Client) (i : ℕ) (v : Visit)
      → Always
          (λ s'. Counts (is_have d.total_pieces_in_file v.received) s.test_freed s'.test_freed)
          (read_in fresh d s i v)
  unfolding read_in
  read_in-freed s i v = Always-any _ (or_undefined (get_elem? s.connections i)) _ (λ c.
      Always-bind _ _ _ _
        (on_received-Counts fresh v.answers d.total_pieces_in_file d.own d.own_handshake _
          v.received)
        (λ p k. Always-returned _ _ k))

  visit-freed :
      (s : Client) (i : ℕ) (v : Visit)
      → Always
          (λ r.
            Counts
              (is_open_entry (get_elem? s.fds i) && is_have d.total_pieces_in_file v.received)
              s.test_freed
              r.0.test_freed)
          (visit fresh d s i v)
  unfolding visit write_out
  visit-freed s i v =
      Always-bind (λ b. get_elem? s.fds i ≡ some b) _ (or_undefined (get_elem? s.fds i)) _
        (or_undefined-eq (get_elem? s.fds i)) (λ is_open e. rw e (by_state is_open))
    where
      by_state :
          (is_open : Bool)
          → Always
              (λ r.
                Counts
                  (is_open && is_have d.total_pieces_in_file v.received)
                  s.test_freed
                  r.0.test_freed)
              (if is_open
                then (read_in fresh d s i v >>= λ s'.
                    if v.writable && d.pollout i
                    then write_out fresh d s' i v.sends
                    else ok (s', i))
                else ok (s, i))
      by_state true = Always-bind _ _ (read_in fresh d s i v) _ (read_in-freed s i v) (λ s' k.
          Always-if _ (v.writable && d.pollout i) _ _
            (Always-any _ _ _ (λ w. Always-returned _ _ k)) (Always-returned _ _ k))
      by_state false = Always-returned _ _ (omega arith)

  step-freed :
      (p : Point) (e : Event)
      → Always (λ q. have_at d p e + freed (client_at p) ≤ freed (client_at q)) (step fresh d p e)
  unfolding step
  step-freed (polling s) e = Always-any _ (count_have d.own d.total_pieces_in_file) _ (λ n.
      Always-mono _ _ _
        (on_poll-freed (record s { buffer = replicate (length s.buffer) 0 }) e.polled)
        (λ q k. omega (arith, k)))
  step-freed (visiting s i) e = elim (Bool-cases (ltb i (s.max_peer_index + 1))) [
    | inl within ↦ rw within (
        Always-bind _ _ (visit fresh d s i e.next_visit) _ (visit-freed s i e.next_visit)
          (λ r k. Always-returned _ _ k))
    | inr over ↦ rw over (Always-returned _ _ (omega arith))
  ]

  Reach-freed :
      {p q : Point} (reached : Reach fresh d p q)
      → haves reached + freed (client_at p) ≤ freed (client_at q)
  unfolding haves
  Reach-freed here = omega arith
  Reach-freed (next {q} {r} reached e h) =
      let k =
        Always-ok (λ r. have_at d q e + freed (client_at q) ≤ freed (client_at r))
          (step fresh d q e) r (step-freed q e) h in
      omega (arith, Reach-freed reached, k)

  -- On any way of the loop there is at most one visit to an open entry at which a HAVE message is
  -- received, and none if the block `test` is freed where it begins: main has no further step at a
  -- second one.
  pub Reach-haves :
      {p q : Point} (reached : Reach fresh d p q)
      → haves reached + as_number (client_at p).test_freed ≤ 1
  Reach-haves {q} reached =
      omega (arith, Reach-freed reached, as_number-le (client_at q).test_freed)
