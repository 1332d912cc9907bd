-- ===== src/Torrent/Receive/Greeting.antt =====
-- Handshakes and bitfields as main in src/torrent.c receives them.
use soft_sys_dubstep_ducks.Prelude.{
  ℕ, ◌+◌, ◌/◌, ◌<◌, ◌≡◌, refl, List, [], ◌++◌, Bool, ◌&&◌, ok, exits, undefined, arith, length,
  drop, malloc, replicate, if◌then◌else◌, ◌==◌, bytes_eq, read_at-append, read_at_overflow,
  write_at-append, length-malloc, length-append, Bool-cases, inl, inr, append-nil, sym, ◌∙◌,
}
use soft_sys_dubstep_ducks.Wire.{bitfield_id}
use soft_sys_dubstep_ducks.Wire.Layout.{framed, construct_bitfield_message_lem}
use soft_sys_dubstep_ducks.Handshake.{construct_handshake, bt_protocol, protocol_name_length}
use soft_sys_dubstep_ducks.Handshake.Verify.{
  handshake_of, construct_handshake_lem, checked_handshake-construct_handshake,
}
use soft_sys_dubstep_ducks.Torrent.{bitfield_len, bitfield_msg_length, file_sha}
use soft_sys_dubstep_ducks.Torrent.Receive.{Peer, bytes, intro_message, on_bytes, on_received}

pub bitfield_len-lt : (total : ℕ) → total / 8 < bitfield_len total
unfolding bitfield_len
bitfield_len-lt total = ground arith

-- The bitfield message that is built has a byte for each 8 pieces; the one that is copied behind the
-- handshake is longer: it is read past its end, whatever the number of pieces.
pub intro_message_overread :
    (fresh : ℕ → ℕ) (total : ℕ) (bits rest handshake behind : List ℕ)
    → length bits ≡ total / 8
    → length handshake ≡ 68
    → intro_message fresh total (bits ++ rest) (handshake ++ behind) ≡ undefined
unfolding intro_message bitfield_msg_length
intro_message_overread fresh total bits rest handshake behind h k =
    let longer : total / 8 < bitfield_len total = bitfield_len-lt total in
    let block = malloc fresh (68 + (4 + 1 + bitfield_len total)) in
    rw (
      construct_bitfield_message_lem fresh bits rest (total / 8) (omega arith),
      read_at-append [] handshake behind 0 68 refl (omega arith),
      write_at-append [] handshake block 0 refl
          (omega (arith, length-malloc fresh (68 + (4 + 1 + bitfield_len total)))),
      read_at_overflow (framed bitfield_id bits) 0 (4 + 1 + bitfield_len total) (omega arith),
    )

ok-eq : {a b : List ℕ} → ok a ≡ ok b → a ≡ b
ok-eq e = cc

pub length-construct_handshake :
    (fresh : ℕ → ℕ) (hash id handshake : List ℕ)
    → length hash ≡ 20
    → length id ≡ 20
    → construct_handshake fresh hash id ≡ ok handshake
    → length handshake ≡ 68
length-construct_handshake fresh hash id handshake h k e =
    let built =
      rw (append-nil hash, append-nil id) at (construct_handshake_lem fresh hash id [] [] h k) in
    let same : handshake ≡ handshake_of protocol_name_length bt_protocol (replicate 8 0) hash id =
      ok-eq (sym e ∙ built) in
    rw same (omega (arith, length-append hash id))

-- When the handshake of another client is received, main exits with 1 if the hash is not the expected
-- one, or the byte behind the copied name is not 0. Otherwise it reads past the end of the bitfield
-- message that it copies into its answer, whatever the number of pieces, which is undefined.
pub on_received_handshake :
    (fresh : ℕ → ℕ) (sends : Bool) (total : ℕ) (bits rest own_handshake behind hash id : List ℕ)
    (peer : Peer)
    → length bits ≡ total / 8
    → length own_handshake ≡ 68
    → length hash ≡ 20
    → length id ≡ 20
    → (handshake : List ℕ) × (construct_handshake fresh hash id ≡ ok handshake)
      × (on_received fresh sends total
            (bits ++ rest)
            (own_handshake ++ behind)
            peer
            (bytes handshake)
          ≡ (if bytes_eq hash file_sha && (fresh 19 == 0) then undefined else exits 1))
unfolding on_received on_bytes
on_received_handshake fresh sends total bits rest own_handshake behind hash id peer h k h' k' =
    let checked =
      checked_handshake-construct_handshake fresh fresh hash id file_sha (drop 68 peer.buffer) h' k'
        refl in
    let size : length checked.0 ≡ 68 =
      length-construct_handshake fresh hash id checked.0 h' k' checked.1 in
    (
      checked.0,
      checked.1,
      elim (Bool-cases (bytes_eq hash file_sha && (fresh 19 == 0))) [
        | inl passes ↦ rw (
          size,
          checked.2,
          passes,
          intro_message_overread fresh total bits rest own_handshake behind h k,
        )
        | inr fails ↦ rw (size, checked.2, fails)
      ],
    )
