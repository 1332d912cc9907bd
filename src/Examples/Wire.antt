-- ===== src/Examples/Wire.antt =====
-- Messages and handshakes of src/btp.c on small inputs.
use soft_sys_dubstep_ducks.Prelude.{
  ℕ, ◌≡◌, refl, List, [], ◌∷◌, ◌++◌, ok, replicate, arith, read_at, drop, bytes_eq,
}
use soft_sys_dubstep_ducks.Wire.{construct_piece_message, piece_id}
use soft_sys_dubstep_ducks.Wire.RoundTrip.{Found, int_at, piece_message_roundtrip}
use soft_sys_dubstep_ducks.Handshake.{
  bt_protocol, bad_hash, verify_handshake, construct_handshake, checked_handshake,
}
use soft_sys_dubstep_ducks.Handshake.Verify.{
  handshake_of, verify_handshake_lem, checked_handshake-construct_handshake,
}

abbrev fresh : ℕ → ℕ
fresh i = 0

abbrev dirty : ℕ → ℕ
dirty i = 170

abbrev word : List ℕ
word = b'a' ∷ b'b' ∷ b'c' ∷ []

piece_message_roundtrip_example :
    (found : Found (construct_piece_message dirty 2 0 3 (word ++ 7 ∷ [])) (9 ∷ []) piece_id 16)
    × (int_at found.0 5 ≡ ok 2)
    × (int_at found.0 9 ≡ ok 0)
    × (read_at found.0 13 3 ≡ ok word)
piece_message_roundtrip_example =
    piece_message_roundtrip dirty 2 0 word (7 ∷ []) (9 ∷ []) (omega arith) (omega arith)
      (omega arith)

abbrev our_hash : List ℕ
our_hash = replicate 20 17

abbrev our_id : List ℕ
our_id = replicate 20 55

verify_handshake_example :
    verify_handshake fresh
      (handshake_of 19 bt_protocol (replicate 8 1) our_id our_id)
      (our_hash ++ word)
    ≡ ok bad_hash
unfolding bytes_eq
verify_handshake_example =
    verify_handshake_lem fresh 19 bt_protocol (replicate 8 1) our_id our_id our_hash word refl refl
      refl refl

checked_handshake_example :
    (handshake : List ℕ) × (construct_handshake dirty our_hash our_id ≡ ok handshake)
    × (checked_handshake fresh (handshake ++ word) our_hash
        ≡ ok (replicate 8 0 ++ drop 8 (handshake ++ word)))
unfolding bytes_eq
checked_handshake_example =
    checked_handshake-construct_handshake dirty fresh our_hash our_id our_hash word refl refl refl
