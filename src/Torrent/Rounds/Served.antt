-- ===== src/Torrent/Rounds/Served.antt =====
-- How a peer of the loop of main in src/torrent.c gets a piece.
use soft_sys_dubstep_ducks.Prelude.{
  ℕ, ◌+◌, ◌*◌, ◌^◌, ◌≤◌, ◌<◌, ◌≡◌, refl, List, [], ◌∷◌, ◌++◌, Bool, true, ok, Option, some, arith,
  ◌==◌, lt→ltb, get_elem?, get_elem?-set_self, length-set, set, length, drop, malloc, int_bytes,
  NoNul, if◌then◌else◌, bit, ◌>>=◌,
}
use soft_sys_dubstep_ducks.Wire.{interested, uninterested, request, piece_id}
use soft_sys_dubstep_ducks.Wire.Layout.{framed}
use soft_sys_dubstep_ducks.Wire.RoundTrip.{int_at-framed}
use soft_sys_dubstep_ducks.Connection.{
  Connection, peer_interested, peer_choke, own_interested, set_flag, send_piece,
}
use soft_sys_dubstep_ducks.Connection.Flags.{set_flag_clears_all, set_flag-set}
use soft_sys_dubstep_ducks.Connection.Sends.{send_piece_cut}
use soft_sys_dubstep_ducks.Torrent.Messages.{respond}
use soft_sys_dubstep_ducks.Torrent.Receive.{bytes}
use soft_sys_dubstep_ducks.Torrent.Writable.{Written, on_writable, deliver}
use soft_sys_dubstep_ducks.Torrent.Loop.{Download, Client, Visit, read_in, visit, write_out}
use soft_sys_dubstep_ducks.Torrent.Loop.Visits.{index_inside}
use soft_sys_dubstep_ducks.Torrent.Rounds.{visiting, Event, run}
use soft_sys_dubstep_ducks.Torrent.Rounds.Steps.{
  message_event, after, cleared, read_in_message, round,
}

respond-uninterested :
    (total : ℕ) (msg : List ℕ) (freed : Bool) (c : Connection)
    → respond total msg uninterested freed c ≡ ok (record c { status_flags = 0 }, freed)
unfolding respond
respond-uninterested total msg freed c = rw (set_flag_clears_all c peer_interested)

respond-interested :
    (total : ℕ) (msg : List ℕ) (freed : Bool) (c : Connection)
    → respond total msg interested freed c ≡ ok (set_flag c peer_interested 1, freed)
unfolding respond
respond-interested total msg freed c = refl

respond-request :
    (total k off len : ℕ) (freed : Bool) (c : Connection)
    → k < 2 ^ 31
    → respond total
        (framed request (int_bytes k ++ (int_bytes off ++ int_bytes len)))
        request
        freed
        c
      ≡ ok (record c { piece_to_send = k }, freed)
unfolding respond
respond-request total k off len freed c small = rw (
    int_at-framed (int_bytes 13 ++ request ∷ []) (int_bytes off ++ int_bytes len) k 5 (omega arith)
      refl)

-- A peer that is interested and not choked, and of which nothing is wanted, is sent the piece that it
-- has asked for.
on_writable_gives :
    (fresh : ℕ → ℕ) (fd : Option (List ℕ)) (total len : ℕ) (own : List ℕ)
    (connections : List Connection) (i : ℕ) (c : Connection)
    → get_elem? connections i ≡ some c
    → bit peer_interested c.status_flags ≡ 1
    → bit own_interested c.status_flags ≡ 0
    → bit peer_choke c.status_flags ≡ 0
    → c.piece_to_send < 2 ^ 31
    → on_writable fresh true fd total len own connections i
      ≡ (send_piece fresh true fd c c.piece_to_send len >>= λ r. ok (deliver connections i r))
unfolding on_writable
on_writable_gives fresh fd total len own connections i c at_i asks unwanted unchoked asked =
    rw (at_i, asks, unwanted, unchoked, lt→ltb c.piece_to_send (2 ^ 31) asked)

-- The connection of a peer that has said UNINTERESTED and INTERESTED and asked for piece k.
abbrev pub asking : Connection → ℕ → Connection
asking c k = record (set_flag (record c { status_flags = 0 }) peer_interested 1) {
  piece_to_send = k;
}

asking-flags :
    (c : Connection) (k : ℕ)
    → (bit peer_interested (asking c k).status_flags ≡ 1)
      × (bit own_interested (asking c k).status_flags ≡ 0)
      × (bit peer_choke (asking c k).status_flags ≡ 0)
unfolding bit
asking-flags c k = (
  flag peer_interested (omega arith),
  flag own_interested (omega arith),
  flag peer_choke (omega arith),
)
  where
    flag :
        (j : ℕ)
        → j < 8
        → bit j (asking c k).status_flags ≡ (if peer_interested == j then 1 else bit j 0)
    flag j h = (set_flag-set (record c { status_flags = 0 }) peer_interested j (omega arith) h).0

-- UNINTERESTED, and in the next round INTERESTED.
abbrev pub turns : List Event
turns =
    message_event (framed uninterested [])
    ∷ message_event []
    ∷ message_event []
    ∷ message_event (framed interested [])
    ∷ message_event []
    ∷ message_event []
    ∷ []

-- A visit at which something is received and then written.
visit-on_writable :
    (fresh : ℕ → ℕ) (d : Download) (s s' : Client) (i : ℕ) (v : Visit) (w : Written)
    → get_elem? s.fds i ≡ some true
    → read_in fresh d s i v ≡ ok s'
    → v.writable ≡ true
    → d.pollout i ≡ true
    → on_writable fresh v.sends d.fd d.total_pieces_in_file d.piece_size_bytes d.own s'.connections
        i
      ≡ ok w
    → visit fresh d s i v ≡ ok (record s' { connections = w.connections }, w.next)
unfolding visit write_out
visit-on_writable fresh d s s' i v w is_open reads can polled writes =
    rw (is_open, reads, can, polled, writes) refl

-- A message arrives, and the socket can be written to.
abbrev pub asks_writable : List ℕ → Visit
asks_writable msg = record { received = bytes msg; answers = true; writable = true; sends = true }

module _ (fresh : ℕ → ℕ) (d : Download) (s : Client) (c : Connection) where
  abbrev gone : Client
  gone = cleared (after s (record c { status_flags = 0 }) (framed uninterested []))

  abbrev back : Client
  back = cleared (
      after gone (set_flag (record c { status_flags = 0 }) peer_interested 1)
        (framed interested []))

  run-turns :
      s.max_peer_index ≡ 1
      → get_elem? s.fds 1 ≡ some true
      → d.total_pieces_in_file ≤ length d.own
      → get_elem? s.connections 1 ≡ some c
      → run fresh d (visiting s 1) turns ≡ ok (visiting back 1)
  unfolding run
  run-turns one is_open counted known = rw (
    round fresh d s uninterested [] c (record c { status_flags = 0 })
        (message_event (framed interested []) ∷ message_event [] ∷ message_event [] ∷ []) one
        is_open counted known (omega arith)
        (respond-uninterested d.total_pieces_in_file (framed uninterested []) s.test_freed c),
    round fresh d gone interested [] (record c { status_flags = 0 })
        (set_flag (record c { status_flags = 0 }) peer_interested 1) [] one
        (get_elem?-set_self s.fds 1 true (index_inside s.fds 1 true is_open)) counted
        (get_elem?-set_self s.connections 1 (record c { status_flags = 0 })
          (index_inside s.connections 1 c known))
        (omega arith)
        (respond-interested d.total_pieces_in_file (framed interested []) s.test_freed
          (record c { status_flags = 0 })),
  )

  -- A peer of the only entry that is visited, entry 1, whatever its flags are, where POLLOUT is asked for
  -- at that entry: UNINTERESTED arrives, and INTERESTED in the next round, while its socket cannot be
  -- written to; then its request for piece k arrives, its socket can be written to, and in that visit the
  -- piece is sent, up to its first 0 byte, with indeterminate bytes behind it; if one's own bitfield
  -- has a byte for each piece, and the piece, which has a 0 byte, begins in the first 2 ^ 31 bytes of
  -- the file.
  pub run_serves :
      (k off len : ℕ) (before text rest tail : List ℕ)
      → s.max_peer_index ≡ 1
      → get_elem? s.fds 1 ≡ some true
      → d.pollout 1 ≡ true
      → d.total_pieces_in_file ≤ length d.own
      → get_elem? s.connections 1 ≡ some c
      → d.fd ≡ some (before ++ ((text ++ 0 ∷ rest) ++ tail))
      → length before ≡ k * d.piece_size_bytes
      → length (text ++ 0 ∷ rest) ≡ d.piece_size_bytes
      → NoNul text
      → k < 2 ^ 31
      → k * d.piece_size_bytes < 2 ^ 31
      → (s' asked : Client) × (w : Written) × (run fresh d (visiting s 1) turns
          ≡ ok (visiting s' 1))
        × (read_in fresh d s' 1
              (asks_writable (framed request (int_bytes k ++ (int_bytes off ++ int_bytes len))))
            ≡ ok asked)
        × (on_writable fresh true d.fd d.total_pieces_in_file d.piece_size_bytes d.own
              asked.connections 1
            ≡ ok w)
        × (visit fresh d s' 1
              (asks_writable (framed request (int_bytes k ++ (int_bytes off ++ int_bytes len))))
            ≡ ok (record asked { connections = w.connections }, w.next))
        × (w.sent
            ≡ some (
              1,
              framed piece_id (
                  int_bytes k
                  ++ (int_bytes 0
                      ++ (text ++ 0 ∷ drop (length text + 1) (malloc fresh d.piece_size_bytes)))),
            ))
  run_serves k off len before text rest tail one is_open polled counted known file place whole plain
        small fits =
      let c₁ : Connection = record c { status_flags = 0 } in
      let c₂ = set_flag c₁ peer_interested 1 in
      let msg = framed request (int_bytes k ++ (int_bytes off ++ int_bytes len)) in
      let asked = after back (asking c k) msg in
      let inside : 1 < length back.connections = omega (
        arith,
        index_inside s.connections 1 c known,
        length-set s.connections 1 c₁,
        length-set (set s.connections 1 c₁) 1 c₂,
      ) in
      let flags = asking-flags c k in
      let gives =
        send_piece_cut fresh true (asking c k) before text rest tail k d.piece_size_bytes 0 place
          fits whole plain (omega arith) in
      let sent = framed piece_id (
        int_bytes k
        ++ (int_bytes 0
            ++ (text ++ 0 ∷ drop (length text + 1) (malloc fresh d.piece_size_bytes)))) in
      let written : Written =
        deliver asked.connections 1
          (sent, record (asking c k) { status_flags = gives.0; requested_piece = k }) in
      let reads =
        read_in_message fresh d back request (int_bytes k ++ (int_bytes off ++ int_bytes len)) c₂
          (asking c k)
          (get_elem?-set_self gone.connections 1 c₂
            (omega (arith, index_inside s.connections 1 c known, length-set s.connections 1 c₁)))
          (omega arith) (respond-request d.total_pieces_in_file k off len s.test_freed c₂ small) in
      let reads_too : read_in fresh d back 1 (asks_writable msg) ≡ ok asked =
        (unfold read_in in reads) in
      let writes : on_writable fresh true d.fd d.total_pieces_in_file d.piece_size_bytes d.own
            asked.connections 1
          ≡ ok written =
        (rw
          (
            on_writable_gives fresh d.fd d.total_pieces_in_file d.piece_size_bytes d.own
                asked.connections 1 (asking c k)
                (get_elem?-set_self back.connections 1 (asking c k) inside) flags.0 flags.1 flags.2
                small,
            file,
            gives.1,
          )
          refl) in
      (
        back,
        asked,
        written,
        run-turns one is_open counted known,
        reads_too,
        writes,
        visit-on_writable fresh d back asked 1 (asks_writable msg) written
            (get_elem?-set_self gone.fds 1 true
              (omega (arith, index_inside s.fds 1 true is_open, length-set s.fds 1 true)))
            reads_too refl polled writes,
        refl,
      )
