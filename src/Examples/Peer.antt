-- ===== src/Examples/Peer.antt =====
-- Bitfields and connections of src/btp.c on small inputs.
use soft_sys_dubstep_ducks.Prelude.{ℕ, ◌≡◌, refl, [], ◌∷◌, true, ok, arith, bit}
use soft_sys_dubstep_ducks.Bitfield.{peer_contains_undownloaded_pieces}
use soft_sys_dubstep_ducks.Bitfield.Interest.{
  peer_contains_undownloaded_pieces_lem, some_missing, misses,
}
use soft_sys_dubstep_ducks.Connection.{Connection, no_request}

abbrev fresh : ℕ → ℕ
fresh i = 170

undownloaded_example :
    peer_contains_undownloaded_pieces (240 ∷ 2 ∷ 9 ∷ []) (255 ∷ 1 ∷ []) 2 ≡ ok true
unfolding some_missing misses bit
undownloaded_example =
    peer_contains_undownloaded_pieces_lem (240 ∷ 2 ∷ []) (255 ∷ 1 ∷ []) (9 ∷ []) [] refl
      (omega arith, (omega arith, tt))

-- Interested on both sides, choked on both.
abbrev peer : Connection
peer = record {
  status_flags = 120;
  requested_piece = no_request;
  piece_to_send = no_request;
  peer_bitfield = 240 ∷ [];
}
