-- ===== src/Torrent/Messages/Handled.antt =====
-- What the messages that src/btp.c constructs do to the connection of the client that receives them.
use soft_sys_dubstep_ducks.Prelude.{
  ℕ, zero, suc, ◌-◌, ◌*◌, ◌/◌, ◌%◌, ◌^◌, ◌<◌, ◌≡◌, refl, List, ◌++◌, Bool, true, false, ◌||◌, ok,
  undefined, Option, none, some, arith, length, bit, if◌then◌else◌, ◌==◌, lt→ltb, get_elem?, set,
  get_elem?-set_self, get_elem?-set_ne, ℕ_discrete, load-in, write_at-set, int_bytes,
}
use soft_sys_dubstep_ducks.Wire.{
  choke, unchoke, interested, cancel, construct_state_message, construct_have_message,
  construct_request_message, construct_cancel_message,
}
use soft_sys_dubstep_ducks.Wire.RoundTrip.{
  state_message_roundtrip, have_message_roundtrip, request_message_roundtrip,
}
use soft_sys_dubstep_ducks.Wire.Layout.{framed, construct_cancel_message_lem}
use soft_sys_dubstep_ducks.Wire.Parse.{get_next_msg-framed}
use soft_sys_dubstep_ducks.Connection.Flags.{bit-or_flags}
use soft_sys_dubstep_ducks.Connection.{
  Connection, no_request, own_choke, peer_interested, or_flags, set_flag,
}
use soft_sys_dubstep_ducks.Torrent.Messages.{handle_message, respond, mark_piece, or_byte}

respond_state :
    (id total : ℕ) (msg : List ℕ) (freed : Bool) (c : Connection)
    → id < 4
    → respond total msg id freed c
      ≡ ok (
        set_flag c
            (if id == choke || id == unchoke then own_choke else peer_interested)
            (if id == choke || id == interested then 1 else 0),
        freed,
      )
unfolding respond
respond_state zero total msg freed c h = refl
respond_state (suc zero) total msg freed c h = refl
respond_state (suc (suc zero)) total msg freed c h = refl
respond_state (suc (suc (suc zero))) total msg freed c h = refl
respond_state (suc (suc (suc (suc id)))) total msg freed c h = absurd (omega arith)

-- CHOKE and UNCHOKE call Set_Flag on ownChoke, INTERESTED and UNINTERESTED on peerInterested, with
-- state 1 for CHOKE and INTERESTED and 0 for the others; nothing else changes.
pub state_message_handled :
    (fresh : ℕ → ℕ) (id : ℕ) (rest : List ℕ) (total : ℕ) (freed : Bool) (c : Connection)
    → id < 4
    → (msg : List ℕ) × (construct_state_message fresh id ≡ ok msg)
      × (handle_message total (msg ++ rest) freed c
          ≡ ok (
            set_flag c
                (if id == choke || id == unchoke then own_choke else peer_interested)
                (if id == choke || id == interested then 1 else 0),
            freed,
          ))
unfolding handle_message
state_message_handled fresh id rest total freed c h =
    let found = state_message_roundtrip fresh id rest in
    (found.0, found.1, rw found.2 (respond_state id total found.0 freed c h))

-- A byte of a bitfield, 0 behind its end.
abbrev byte_of : Option ℕ → ℕ
byte_of none = 0
byte_of (some b) = b

-- The bit of a piece: the highest bit of the first byte is that of piece 0.
unfoldable pub has_piece : List ℕ → ℕ → ℕ
has_piece bitfield j = bit (7 - j % 8) (byte_of (get_elem? bitfield (j / 8)))

has_piece-set :
    (bitfield : List ℕ) (i j b : ℕ)
    → i / 8 < length bitfield
    → get_elem? bitfield (i / 8) ≡ some b
    → has_piece (set bitfield (i / 8) (or_flags b (1 * 2 ^ (7 - i % 8)))) j
      ≡ (if i == j then 1 else has_piece bitfield j)
unfolding has_piece
has_piece-set bitfield i j b inside e = elim (ℕ_discrete (i / 8) (j / 8)) [
  | yes same ↦
      rw
        (
          ← same,
          get_elem?-set_self bitfield (i / 8) (or_flags b (1 * 2 ^ (7 - i % 8))) inside,
          e,
          bit-or_flags b (7 - i % 8) (7 - j % 8) (omega arith) (omega arith),
        )
        (ground arith)
  | no other ↦
      rw (get_elem?-set_ne bitfield (i / 8) (j / 8) (or_flags b (1 * 2 ^ (7 - i % 8))) other)
        (ground arith)
]

-- The bit of one piece is set, and no other.
mark_piece-has_piece :
    (bitfield : List ℕ) (i j : ℕ)
    → i < 2 ^ 31
    → i / 8 < length bitfield
    → (bitfield' : List ℕ) × (mark_piece bitfield i ≡ ok bitfield')
      × (has_piece bitfield' j ≡ (if i == j then 1 else has_piece bitfield j))
unfolding mark_piece or_byte
mark_piece-has_piece bitfield i j small inside =
    let found = load-in bitfield (i / 8) inside in
    let b' = or_flags found.0 (1 * 2 ^ (7 - i % 8)) in
    (
      set bitfield (i / 8) b',
      rw (lt→ltb i (2 ^ 31) small, found.1, write_at-set bitfield (i / 8) b' inside),
      has_piece-set bitfield i j found.0 inside found.1,
    )

-- The first HAVE marks its piece, and no other, in the bitfield that is kept of the peer, if it is
-- long enough; any second one writes to a block that is freed.
pub have_message_handled :
    (fresh : ℕ → ℕ) (i j : ℕ) (rest : List ℕ) (total : ℕ) (c c' : Connection)
    → i < 2 ^ 31
    → i / 8 < length c.peer_bitfield
    → (msg bitfield : List ℕ) × (construct_have_message fresh i ≡ ok msg)
      × (handle_message total (msg ++ rest) false c
          ≡ ok (record c { peer_bitfield = bitfield }, true))
      × (has_piece bitfield j ≡ (if i == j then 1 else has_piece c.peer_bitfield j))
      × (handle_message total (msg ++ rest) true c' ≡ undefined)
unfolding handle_message respond
have_message_handled fresh i j rest total c c' small inside =
    let found = have_message_roundtrip fresh i rest (omega arith) in
    let marked = mark_piece-has_piece c.peer_bitfield i j small inside in
    (found.0.0, marked.0, found.0.1, rw (found.0.2, found.1, marked.1), marked.2, rw found.0.2)

-- REQUEST notes the piece that is to be sent, and CANCEL, for whatever piece, that there is none.
pub request_message_handled :
    (fresh : ℕ → ℕ) (i off len : ℕ) (rest : List ℕ) (total : ℕ) (freed : Bool) (c : Connection)
    → i < 2 ^ 32
    → off < 2 ^ 32
    → len < 2 ^ 32
    → (msg back : List ℕ) × (construct_request_message fresh i off len ≡ ok msg)
      × (construct_cancel_message fresh i off len ≡ ok back)
      × (handle_message total (msg ++ rest) freed c ≡ ok (record c { piece_to_send = i }, freed))
      × (handle_message total (back ++ rest) freed c
          ≡ ok (record c { piece_to_send = no_request }, freed))
unfolding handle_message respond
request_message_handled fresh i off len rest total freed c h h₁ h₂ =
    let found = request_message_roundtrip fresh i off len rest h h₁ h₂ in
    let payload = int_bytes i ++ (int_bytes off ++ int_bytes len) in
    (
      found.0.0,
      framed cancel payload,
      found.0.1,
      construct_cancel_message_lem fresh i off len,
      rw (found.0.2, found.1),
      rw (get_next_msg-framed cancel payload rest (omega arith)),
    )
