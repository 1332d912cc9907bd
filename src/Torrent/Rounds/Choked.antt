-- ===== src/Torrent/Rounds/Choked.antt =====
-- The peers that the loop of main in src/torrent.c keeps choked, and what it writes to them.
use soft_sys_dubstep_ducks.Prelude.{
  ℕ, ◌+◌, ◌≡◌, All, All-set, All-get, ok, get_elem?, or_undefined, or_undefined-eq, Always,
  Always-any, Always-bind, Always-if, Always-ok, Always-returned, ◌&&◌, ltb, length, replicate,
  true, none,
}
use soft_sys_dubstep_ducks.Connection.Choke.{IsChoked}
use soft_sys_dubstep_ducks.Torrent.Connecting.{store}
use soft_sys_dubstep_ducks.Torrent.Receive.Choke.{IsCalm, on_received-Choked}
use soft_sys_dubstep_ducks.Torrent.Writable.{Written, on_writable}
use soft_sys_dubstep_ducks.Torrent.Writable.Choke.{KeepsChoked, on_writable-KeepsChoked}
use soft_sys_dubstep_ducks.Torrent.Loop.{
  Download, Client, Visit, count_have, accept_connection, write_out, read_in, visit,
}
use soft_sys_dubstep_ducks.Torrent.Rounds.{
  Point, polling, visiting, client_at, quiet, refused, accepted, Polled, poll_error, timed_out,
  ready, Event, on_poll, step, Reach, here, next,
}

-- Every connection's peer is choked.
abbrev pub AllChoked : Client → Type 0
AllChoked s = All IsChoked s.connections

-- What is received at a visit, if the next step is one, is calm.
abbrev pub CalmAt : Point → Event → Type 0
CalmAt (polling s) e = Unit
CalmAt (visiting s i) e = IsCalm e.next_visit.received

-- All that was received on the way was.
unfoldable pub AllCalm : {fresh : ℕ → ℕ} {d : Download} {p q : Point} → Reach fresh d p q → Type 0
AllCalm here = Unit
AllCalm (next {q = q} reached e h) = AllCalm reached × CalmAt q e

on_poll-AllChoked :
    (s : Client) (p : Polled) → AllChoked s → Always (λ q. AllChoked (client_at q)) (on_poll s p)
unfolding on_poll accept_connection
on_poll-AllChoked s poll_error h = Always-returned _ _ h
on_poll-AllChoked s timed_out h = Always-returned _ _ h
on_poll-AllChoked s (ready quiet) h = Always-returned _ _ h
on_poll-AllChoked s (ready refused) h = Always-returned _ _ h
on_poll-AllChoked s (ready accepted) h =
    Always-bind AllChoked _ (accept_connection s) _
      (Always-any AllChoked (store s.fds 1 true) _ (λ fds. Always-returned AllChoked _ h))
      (λ s' h'. Always-returned _ _ h')

module _ (fresh : ℕ → ℕ) (d : Download) where
  read_in-AllChoked :
      (s : Client) (i : ℕ) (v : Visit)
      → IsCalm v.received
      → AllChoked s
      → Always AllChoked (read_in fresh d s i v)
  unfolding read_in
  read_in-AllChoked s i v calm h =
      Always-bind _ AllChoked (or_undefined (get_elem? s.connections i)) _
        (or_undefined-eq (get_elem? s.connections i))
        (λ c at_i.
          Always-bind _ AllChoked _ _
            (on_received-Choked fresh v.answers d.total_pieces_in_file d.own d.own_handshake
              (record {
                connection = c;
                is_open = true;
                buffer = s.buffer;
                test_freed = s.test_freed;
                sent = none;
              })
              v.received calm (All-get IsChoked s.connections i c h at_i))
            (λ p k.
              Always-returned AllChoked _ (All-set IsChoked s.connections i p.connection h k)))

  visit-AllChoked :
      (s : Client) (i : ℕ) (v : Visit)
      → IsCalm v.received
      → AllChoked s
      → Always (λ r. AllChoked r.0) (visit fresh d s i v)
  unfolding visit write_out
  visit-AllChoked s i v calm h = Always-any _ (or_undefined (get_elem? s.fds i)) _ (λ is_open.
      Always-if _ is_open _ _
        (Always-bind AllChoked _ (read_in fresh d s i v) _ (read_in-AllChoked s i v calm h)
          (λ s' h'.
            Always-if _ (v.writable && d.pollout i) _ _
              (Always-bind KeepsChoked _ _ _
                (on_writable-KeepsChoked s'.connections h' fresh v.sends d.fd d.total_pieces_in_file
                  d.piece_size_bytes d.own i)
                (λ w k. Always-returned _ _ k.0))
              (Always-returned _ _ h')))
        (Always-returned _ _ h))

  step-AllChoked :
      (p : Point) (e : Event)
      → CalmAt p e
      → AllChoked (client_at p)
      → Always (λ q. AllChoked (client_at q)) (step fresh d p e)
  unfolding step
  step-AllChoked (polling s) e calm h =
      Always-any _ (count_have d.own d.total_pieces_in_file) _
        (λ n. on_poll-AllChoked (record s { buffer = replicate (length s.buffer) 0 }) e.polled h)
  step-AllChoked (visiting s i) e calm h =
      Always-if _ (ltb i (s.max_peer_index + 1)) _ _
        (Always-bind (λ r. AllChoked r.0) _ (visit fresh d s i e.next_visit) _
          (visit-AllChoked s i e.next_visit calm h) (λ r k. Always-returned _ _ k))
        (Always-returned _ _ h)

  -- Whatever has been received, but for UNCHOKE, UNINTERESTED, fewer than 5 bytes and the end of a
  -- connection, every peer is choked.
  Reach-AllChoked :
      {p q : Point} (reached : Reach fresh d p q)
      → AllChoked (client_at p)
      → AllCalm reached
      → AllChoked (client_at q)
  unfolding AllCalm
  Reach-AllChoked here h calm = h
  Reach-AllChoked (next {q} {r} reached e k) h calm =
      Always-ok (λ q. AllChoked (client_at q)) (step fresh d q e) r
        (step-AllChoked q e calm.1 (Reach-AllChoked reached h calm.0)) k

  -- A client whose connections are choked, as initialize_connection makes them, writes no PIECE
  -- message and keeps them choked, the UNCHOKE messages that it sends notwithstanding: at every
  -- point that it reaches, as long as each recv fails or gives at least 5 bytes, of which the fifth
  -- is not the id of UNCHOKE or UNINTERESTED.
  pub Reach-withholds :
      {p q : Point} (reached : Reach fresh d p q) (i : ℕ) (v : Visit) (s' : Client) (w : Written)
      → AllChoked (client_at p)
      → AllCalm reached
      → IsCalm v.received
      → read_in fresh d (client_at q) i v ≡ ok s'
      → on_writable fresh v.sends d.fd d.total_pieces_in_file d.piece_size_bytes d.own
          s'.connections i
        ≡ ok w
      → KeepsChoked w
  Reach-withholds {q} reached i v s' w start calm calm' comes writes =
      let h : AllChoked s' =
        Always-ok AllChoked (read_in fresh d (client_at q) i v) s'
          (read_in-AllChoked (client_at q) i v calm' (Reach-AllChoked reached start calm)) comes in
      Always-ok KeepsChoked _ w
        (on_writable-KeepsChoked s'.connections h fresh v.sends d.fd d.total_pieces_in_file
          d.piece_size_bytes d.own i)
        writes
