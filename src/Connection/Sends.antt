-- ===== src/Connection/Sends.antt =====
-- What the Send_… functions of src/btp.c send, and what they do to the flags.
use soft_sys_dubstep_ducks.Prelude.{
  ℕ, ◌+◌, ◌*◌, ◌^◌, ◌<◌, ◌≡◌, List, [], ◌++◌, Bool, ok, exits, arith, if◌then◌else◌, ◌==◌, bit,
  bit_or-zero, int_bytes, some, length, read_at-append, drop, malloc, NoNul, length-append,
  length-drop, length-malloc, append-nil, ◌∷◌,
}
use soft_sys_dubstep_ducks.Wire.{interested, uninterested, unchoke, request, bitfield_id, piece_id}
use soft_sys_dubstep_ducks.Wire.Layout.{
  framed, construct_state_message_lem, construct_request_message_lem, construct_piece_message_lem,
}
use soft_sys_dubstep_ducks.Connection.{
  Connection, own_interested, pending_request, or_flags, send_interested, send_uninterested,
  send_unchoked, send_request, send_piece, set_peer_bitfield,
}
use soft_sys_dubstep_ducks.Pieces.Read.{get_piece_from_file_cut}
use soft_sys_dubstep_ducks.Connection.Flags.{bit-or_flags}

-- If `send` fails the program exits with 1. Otherwise INTERESTED is sent, and the connection keeps
-- everything but its flags, of which ownInterested is now set.
pub send_interested_lem :
    (fresh : ℕ → ℕ) (sends : Bool) (c : Connection) (j : ℕ)
    → j < 8
    → (flags : ℕ) × (send_interested fresh sends c
        ≡ (if sends then ok (framed interested [], record c { status_flags = flags }) else exits 1))
      × (bit j flags ≡ (if own_interested == j then 1 else bit j c.status_flags))
unfolding send_interested
send_interested_lem fresh sends c j h = (
  or_flags c.status_flags (1 * 2 ^ own_interested),
  rw (construct_state_message_lem fresh interested) (ground arith),
  bit-or_flags c.status_flags own_interested j (omega arith) h,
)

or_nothing : (flags : ℕ) → flags < 256 → or_flags flags 0 ≡ flags
or_nothing flags h = rw (bit_or-zero flags) (omega arith)

-- UNINTERESTED is sent, and the connection is left as it is: ownInterested is not cleared.
pub send_uninterested_lem :
    (fresh : ℕ → ℕ) (sends : Bool) (c : Connection)
    → c.status_flags < 256
    → send_uninterested fresh sends c ≡ (if sends then ok (framed uninterested [], c) else exits 1)
unfolding send_uninterested
send_uninterested_lem fresh sends c h =
    rw (construct_state_message_lem fresh uninterested, or_nothing c.status_flags h) (ground arith)

-- UNCHOKE is sent, and the connection is left as it is: peerChoke is not cleared.
pub send_unchoked_lem :
    (fresh : ℕ → ℕ) (sends : Bool) (c : Connection)
    → c.status_flags < 256
    → send_unchoked fresh sends c ≡ (if sends then ok (framed unchoke [], c) else exits 1)
unfolding send_unchoked
send_unchoked_lem fresh sends c h =
    rw (construct_state_message_lem fresh unchoke, or_nothing c.status_flags h) (ground arith)

-- A request for the whole piece is sent, with offset and length 0; the connection notes the piece,
-- and that it waits for it.
pub send_request_lem :
    (fresh : ℕ → ℕ) (sends : Bool) (c : Connection) (piece_index j : ℕ)
    → j < 8
    → (flags : ℕ) × (send_request fresh sends c piece_index ≡ (
        if sends
        then ok (
          framed request (int_bytes piece_index ++ (int_bytes 0 ++ int_bytes 0)),
          record c { status_flags = flags; requested_piece = piece_index },
        )
        else exits 1))
      × (bit j flags ≡ (if pending_request == j then 1 else bit j c.status_flags))
unfolding send_request
send_request_lem fresh sends c piece_index j h = (
  or_flags c.status_flags (1 * 2 ^ pending_request),
  rw (construct_request_message_lem fresh piece_index 0 0) (ground arith),
  bit-or_flags c.status_flags pending_request j (omega arith) h,
)

-- A piece of the file that has a 0 byte is sent up to the first one, with indeterminate bytes behind
-- it; the connection notes the piece as if it had been requested here. If `send` fails the program
-- exits with 1.
pub send_piece_cut :
    (fresh : ℕ → ℕ) (sends : Bool) (c : Connection) (before text rest after : List ℕ)
    (num len j : ℕ)
    → length before ≡ num * len
    → num * len < 2 ^ 31
    → length (text ++ 0 ∷ rest) ≡ len
    → NoNul text
    → j < 8
    → (flags : ℕ) × (send_piece fresh sends
          (some (before ++ ((text ++ 0 ∷ rest) ++ after)))
          c
          num
          len
        ≡ (if sends
            then ok (
              framed piece_id (
                  int_bytes num
                  ++ (int_bytes 0 ++ (text ++ 0 ∷ drop (length text + 1) (malloc fresh len)))),
              record c { status_flags = flags; requested_piece = num },
            )
            else exits 1))
      × (bit j flags ≡ (if pending_request == j then 1 else bit j c.status_flags))
unfolding send_piece
send_piece_cut fresh sends c before text rest after num len j place fits whole h k =
    let piece = text ++ 0 ∷ drop (length text + 1) (malloc fresh len) in
    let size : len ≡ length piece = omega (
      arith,
      length-append text (0 ∷ rest),
      length-append text (0 ∷ drop (length text + 1) (malloc fresh len)),
      length-drop (length text + 1) (malloc fresh len),
      length-malloc fresh len,
    ) in
    (
      or_flags c.status_flags (1 * 2 ^ pending_request),
      rw
          (
            get_piece_from_file_cut fresh before text rest after num len place fits whole h,
            (rw (append-nil piece) at (construct_piece_message_lem fresh num 0 piece [] len size)),
          )
          (ground arith),
      bit-or_flags c.status_flags pending_request j (omega arith) k,
    )

-- What a connection keeps of a peer's handshake and bitfield message is the whole message: the bits
-- of the peer begin behind a length and an id.
pub set_peer_bitfield_lem :
    (handshake bits rest : List ℕ)
    → length handshake ≡ 68
    → set_peer_bitfield (handshake ++ (framed bitfield_id bits ++ rest)) (5 + length bits)
      ≡ ok (framed bitfield_id bits)
unfolding set_peer_bitfield
set_peer_bitfield_lem handshake bits rest h =
    read_at-append handshake (framed bitfield_id bits) rest 68 (5 + length bits) (omega arith)
      (omega arith)
