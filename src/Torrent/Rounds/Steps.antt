-- ===== src/Torrent/Rounds/Steps.antt =====
-- The steps of the loop of main in src/torrent.c while one peer sends messages.
use soft_sys_dubstep_ducks.Prelude.{
  ℕ, ◌+◌, ◌≤◌, ◌≡◌, List, [], ◌∷◌, ◌++◌, Bool, true, false, ok, some, none, arith, ◌==◌, ltb,
  le→leb, lt→ltb, get_elem?, set, length, drop, replicate,
}
use soft_sys_dubstep_ducks.Wire.Layout.{framed}
use soft_sys_dubstep_ducks.Wire.Parse.{get_next_msg-framed}
use soft_sys_dubstep_ducks.Connection.{Connection}
use soft_sys_dubstep_ducks.Torrent.{bitfield_msg_length}
use soft_sys_dubstep_ducks.Torrent.Messages.{respond, handle_message}
use soft_sys_dubstep_ducks.Torrent.Receive.{bytes, Peer, on_received, on_bytes}
use soft_sys_dubstep_ducks.Torrent.Loop.{Download, Client, Visit, read_in, visit}
use soft_sys_dubstep_ducks.Torrent.Loop.Count.{count_have_lem}
use soft_sys_dubstep_ducks.Torrent.Rounds.{
  visiting, polling, quiet, ready, Event, on_poll, step, run,
}

-- A message arrives, and nothing can be written.
abbrev pub arrives : List ℕ → Visit
arrives msg = record { received = bytes msg; answers = true; writable = false; sends = true }

-- Nobody connects; if there is a visit, msg arrives.
abbrev pub message_event : List ℕ → Event
message_event msg = record { polled = ready quiet; next_visit = arrives msg }

-- The client after a message at entry 1 that has made c of its connection.
abbrev pub after : Client → Connection → List ℕ → Client
after s c msg = record s {
  connections = set s.connections 1 c;
  fds = set s.fds 1 true;
  buffer = msg ++ drop (length msg) s.buffer;
}

-- What the client is behind poll.
abbrev pub cleared : Client → Client
cleared s = record s { buffer = replicate (length s.buffer) 0 }

module _ (fresh : ℕ → ℕ) (d : Download) where
  on_received_message :
      (peer : Peer) (id : ℕ) (payload : List ℕ) (sends : Bool) (c : Connection)
      → length payload ≤ 12
      → respond d.total_pieces_in_file (framed id payload) id peer.test_freed peer.connection
        ≡ ok (c, peer.test_freed)
      → on_received fresh sends d.total_pieces_in_file d.own d.own_handshake peer
          (bytes (framed id payload))
        ≡ ok (record peer {
          connection = c;
          buffer = framed id payload ++ drop (length (framed id payload)) peer.buffer;
          sent = none;
        })
  unfolding on_received on_bytes handle_message
  on_received_message peer id payload sends c short responds =
      let n = length (framed id payload) in
      let some_bytes : (n == 0) ≡ false = ground arith in
      let no_handshake : (n == 68) ≡ false = ground arith in
      let no_bitfield : (n == 68 + bitfield_msg_length d.total_pieces_in_file) ≡ false =
        ground arith in
      rw (
        some_bytes,
        no_handshake,
        no_bitfield,
        get_next_msg-framed id payload (drop n peer.buffer) (omega arith),
        responds,
      )

  -- A message at entry 1 that leaves the block `test` alone.
  module _ (s : Client) (id : ℕ) (payload : List ℕ) (c c' : Connection)
      (known : get_elem? s.connections 1 ≡ some c) (short : length payload ≤ 12)
      (responds : respond d.total_pieces_in_file (framed id payload) id s.test_freed c
        ≡ ok (c', s.test_freed)) where
    abbrev peer : Peer
    peer = record {
      connection = c;
      is_open = true;
      buffer = s.buffer;
      test_freed = s.test_freed;
      sent = none;
    }

    pub read_in_message :
        read_in fresh d s 1 (arrives (framed id payload)) ≡ ok (after s c' (framed id payload))
    unfolding read_in
    read_in_message = rw (known, on_received_message peer id payload true c' short responds)

    step_message :
        1 ≤ s.max_peer_index
        → get_elem? s.fds 1 ≡ some true
        → step fresh d (visiting s 1) (message_event (framed id payload))
          ≡ ok (visiting (after s c' (framed id payload)) 2)
    unfolding step visit
    step_message one is_open = rw (
      lt→ltb 1 (s.max_peer_index + 1) (omega arith),
      is_open,
      known,
      on_received_message peer id payload true c' short responds,
    )

  step_end :
      (s : Client) (e : Event)
      → s.max_peer_index ≡ 1
      → step fresh d (visiting s 2) e ≡ ok (polling s)
  unfolding step
  step_end s e one = let over : ltb 2 (s.max_peer_index + 1) ≡ false = ground arith in rw over

  step_poll :
      (s : Client) (msg : List ℕ)
      → d.total_pieces_in_file ≤ length d.own
      → step fresh d (polling s) (message_event msg) ≡ ok (visiting (cleared s) 1)
  unfolding step on_poll
  step_poll s msg counted = rw (
    count_have_lem d.own d.total_pieces_in_file,
    le→leb d.total_pieces_in_file (length d.own) counted,
  )

  -- From the visit at which a message arrives to the next one, if there is one entry to visit and a
  -- byte of one's own bitfield for each piece.
  pub round :
      (s : Client) (id : ℕ) (payload : List ℕ) (c c' : Connection) (more : List Event)
      → s.max_peer_index ≡ 1
      → get_elem? s.fds 1 ≡ some true
      → d.total_pieces_in_file ≤ length d.own
      → get_elem? s.connections 1 ≡ some c
      → length payload ≤ 12
      → respond d.total_pieces_in_file (framed id payload) id s.test_freed c ≡ ok (c', s.test_freed)
      → run fresh d
          (visiting s 1)
          (message_event (framed id payload) ∷ message_event [] ∷ message_event [] ∷ more)
        ≡ run fresh d (visiting (cleared (after s c' (framed id payload))) 1) more
  unfolding run
  round s id payload c c' more one is_open counted known short responds = rw (
    step_message s id payload c c' known short responds (omega arith) is_open,
    step_end (after s c' (framed id payload)) (message_event []) one,
    step_poll (after s c' (framed id payload)) [] counted,
  )
