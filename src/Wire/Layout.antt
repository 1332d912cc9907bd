-- ===== src/Wire/Layout.antt =====
-- What the message constructors of src/btp.c build: the bytes of each message, in its block.
use soft_sys_dubstep_ducks.Prelude.{
  ℕ, suc, ◌+◌, ◌≡◌, refl, List, [], ◌∷◌, ◌++◌, ok, arith, length, drop, malloc, write_at,
  read_at-append, write_at-append, write_at_last, length-malloc, length-drop, int_bytes,
}
use soft_sys_dubstep_ducks.Wire.{
  construct_bitfield_message, construct_state_message, construct_have_message,
  construct_request_message, construct_piece_message, construct_cancel_message, have, bitfield_id,
  request, piece_id, cancel,
}

-- A message: the length of id and payload, the id, the payload.
abbrev pub framed : ℕ → List ℕ → List ℕ
framed id payload = int_bytes (suc (length payload)) ++ id ∷ payload

pub construct_state_message_lem :
    (fresh : ℕ → ℕ) (id : ℕ) → construct_state_message fresh id ≡ ok (framed id [])
unfolding construct_state_message write_at malloc
construct_state_message_lem fresh id = refl

pub construct_have_message_lem :
    (fresh : ℕ → ℕ) (i : ℕ) → construct_have_message fresh i ≡ ok (framed have (int_bytes i))
unfolding construct_have_message write_at malloc
construct_have_message_lem fresh i = refl

pub construct_request_message_lem :
    (fresh : ℕ → ℕ) (i off len : ℕ)
    → construct_request_message fresh i off len
      ≡ ok (framed request (int_bytes i ++ (int_bytes off ++ int_bytes len)))
unfolding construct_request_message write_at malloc
construct_request_message_lem fresh i off len = refl

pub construct_cancel_message_lem :
    (fresh : ℕ → ℕ) (i off len : ℕ)
    → construct_cancel_message fresh i off len
      ≡ ok (framed cancel (int_bytes i ++ (int_bytes off ++ int_bytes len)))
unfolding construct_cancel_message write_at malloc
construct_cancel_message_lem fresh i off len = refl

pub construct_bitfield_message_lem :
    (fresh : ℕ → ℕ) (bits rest : List ℕ) (n : ℕ)
    → n ≡ length bits
    → construct_bitfield_message fresh (bits ++ rest) n ≡ ok (framed bitfield_id bits)
unfolding construct_bitfield_message
construct_bitfield_message_lem fresh bits rest n e =
    let block = malloc fresh (4 + 1 + n) in
    let size : length block ≡ 5 + n = omega (arith, length-malloc fresh (4 + 1 + n)) in
    let head = int_bytes (n + 1) in
    let tail₁ = drop 4 block in
    let tail₂ = drop 1 tail₁ in
    let size₁ : length tail₁ ≡ 1 + n = omega (arith, length-drop 4 block) in
    let size₂ : length tail₂ ≡ n = omega (arith, length-drop 1 tail₁) in
    let counted : n + 1 ≡ suc (length bits) = omega arith in
    rw (
      write_at-append [] head block 0 refl (omega arith),
      write_at-append head (bitfield_id ∷ []) tail₁ 4 refl (omega arith),
      read_at-append [] bits rest 0 n refl e,
      write_at_last (head ++ bitfield_id ∷ []) bits tail₂ 5 refl (omega arith),
      counted,
    )

pub construct_piece_message_lem :
    (fresh : ℕ → ℕ) (i off : ℕ) (piece rest : List ℕ) (n : ℕ)
    → n ≡ length piece
    → construct_piece_message fresh i off n (piece ++ rest)
      ≡ ok (framed piece_id (int_bytes i ++ (int_bytes off ++ piece)))
unfolding construct_piece_message
construct_piece_message_lem fresh i off piece rest n e =
    let block = malloc fresh (13 + n) in
    let size : length block ≡ 13 + n = omega (arith, length-malloc fresh (13 + n)) in
    let head = int_bytes (9 + n) in
    let head₂ = head ++ piece_id ∷ [] in
    let head₃ = head₂ ++ int_bytes i in
    let tail₁ = drop 4 block in
    let tail₂ = drop 1 tail₁ in
    let tail₃ = drop 4 tail₂ in
    let tail₄ = drop 4 tail₃ in
    let size₁ : length tail₁ ≡ 9 + n = omega (arith, length-drop 4 block) in
    let size₂ : length tail₂ ≡ 8 + n = omega (arith, length-drop 1 tail₁) in
    let size₃ : length tail₃ ≡ 4 + n = omega (arith, length-drop 4 tail₂) in
    let size₄ : length tail₄ ≡ n = omega (arith, length-drop 4 tail₃) in
    let counted : 9 + n ≡ suc (length (int_bytes i ++ (int_bytes off ++ piece))) = omega arith in
    rw (
      write_at-append [] head block 0 refl (omega arith),
      write_at-append head (piece_id ∷ []) tail₁ 4 refl (omega arith),
      write_at-append head₂ (int_bytes i) tail₂ 5 refl (omega arith),
      write_at-append head₃ (int_bytes off) tail₃ 9 refl (omega arith),
      read_at-append [] piece rest 0 n refl e,
      write_at_last (head₃ ++ int_bytes off) piece tail₄ 13 refl (omega arith),
      counted,
    )
