-- ===== src/Handshake/Verify.antt =====
-- When a handshake passes verify_handshake of src/btp.c.
use soft_sys_dubstep_ducks.Prelude.{
  ℕ, ◌≡◌, refl, List, [], ◌∷◌, ◌++◌, ◌&&◌, ok, exits, arith, length, drop, malloc, read_at,
  write_at, read_at-append, write_at-append, write_at_last, replicate, bytes_eq, bytes_eq_refl,
  if◌then◌else◌, ◌==◌, length-malloc, length-drop, append_assoc, append-nil, length-append,
}
use soft_sys_dubstep_ducks.Handshake.{
  bt_protocol, protocol_name_length, construct_handshake, verified, bad_name_length, bad_protocol,
  bad_hash, verify_handshake, checked_handshake,
}

-- A handshake of five parts.
abbrev pub handshake_of : ℕ → List ℕ → List ℕ → List ℕ → List ℕ → List ℕ
handshake_of name_length name reserved hash id = (name_length ∷ name) ++ (reserved ++ (hash ++ id))

pub construct_handshake_lem :
    (fresh : ℕ → ℕ) (hash id behind₁ behind₂ : List ℕ)
    → length hash ≡ 20
    → length id ≡ 20
    → construct_handshake fresh (hash ++ behind₁) (id ++ behind₂)
      ≡ ok (handshake_of protocol_name_length bt_protocol (replicate 8 0) hash id)
unfolding construct_handshake
construct_handshake_lem fresh hash id behind₁ behind₂ h k =
    let block = malloc fresh 68 in
    let size : length block ≡ 68 = length-malloc fresh 68 in
    let head₁ = protocol_name_length ∷ [] in
    let head₂ = head₁ ++ bt_protocol in
    let head₃ = head₂ ++ replicate 8 0 in
    let tail₁ = drop 1 block in
    let tail₂ = drop 19 tail₁ in
    let tail₃ = drop 8 tail₂ in
    let tail₄ = drop (length hash) tail₃ in
    let size₁ : length tail₁ ≡ 67 = omega (arith, length-drop 1 block) in
    let size₂ : length tail₂ ≡ 48 = omega (arith, length-drop 19 tail₁) in
    let size₃ : length tail₃ ≡ 40 = omega (arith, length-drop 8 tail₂) in
    let size₄ : length tail₄ ≡ 20 = omega (arith, length-drop (length hash) tail₃) in
    rw (
      write_at-append [] head₁ block 0 refl (omega arith),
      write_at-append head₁ bt_protocol tail₁ 1 refl (omega arith),
      write_at-append head₂ (replicate 8 0) tail₂ 20 refl (omega arith),
      read_at-append [] hash behind₁ 0 20 refl (omega arith),
      write_at-append head₃ hash tail₃ 28 refl (omega arith),
      read_at-append [] id behind₂ 0 20 refl (omega arith),
      ← append_assoc head₃ hash tail₄,
      write_at_last (head₃ ++ hash) id tail₄ 48 (omega (arith, length-append head₃ hash))
          (omega arith),
      append_assoc head₃ hash id,
    )

bytes_eq-append_last :
    (xs ys : List ℕ) (a b : ℕ)
    → length xs ≡ length ys
    → bytes_eq (xs ++ a ∷ []) (ys ++ b ∷ []) ≡ (bytes_eq xs ys && (a == b))
unfolding bytes_eq
bytes_eq-append_last [] [] a b e = ground arith
bytes_eq-append_last [] (y ∷ ys) a b e = absurd (omega arith)
bytes_eq-append_last (x ∷ xs) [] a b e = absurd (omega arith)
bytes_eq-append_last (x ∷ xs) (y ∷ ys) a b e = ground (arith, bytes_eq-append_last xs ys a b)

-- The copy of the name: its 20th byte is what the block held.
name_copy :
    (fresh : ℕ → ℕ) (name : List ℕ)
    → length name ≡ 19
    → write_at (malloc fresh 20) 0 name ≡ ok (name ++ fresh 19 ∷ [])
name_copy fresh name h =
    rw (write_at-append [] name (malloc fresh 20) 0 refl (omega (arith, length-malloc fresh 20)), h)
      (unfold malloc in refl)

-- The verdict on any handshake, by the first part that fails: the length of the name, the name, the
-- hash. The name passes only if the byte that stands in memory behind its copy happens to be 0.
pub verify_handshake_lem :
    (fresh : ℕ → ℕ) (name_length : ℕ) (name reserved hash id sha behind : List ℕ)
    → length name ≡ 19
    → length reserved ≡ 8
    → length hash ≡ 20
    → length sha ≡ 20
    → verify_handshake fresh (handshake_of name_length name reserved hash id) (sha ++ behind)
      ≡ ok (
          if name_length == 19
          then (if bytes_eq name bt_protocol && (fresh 19 == 0)
              then (if bytes_eq hash sha then verified else bad_hash)
              else bad_protocol)
          else bad_name_length)
unfolding verify_handshake
verify_handshake_lem fresh name_length name reserved hash id sha behind h₁ h₂ h₃ h₄ =
    let before = (name_length ∷ name) ++ reserved in
    let hash_read : read_at (handshake_of name_length name reserved hash id) 28 20 ≡ ok hash =
      rw (← append_assoc (name_length ∷ name) reserved (hash ++ id)) (
        read_at-append before hash id 28 20 (omega (arith, length-append name reserved))
          (omega arith)) in
    rw
      (
        read_at-append (name_length ∷ []) name (reserved ++ (hash ++ id)) 1 19 refl (omega arith),
        name_copy fresh name h₁,
        bytes_eq-append_last name bt_protocol (fresh 19) 0 h₁,
        hash_read,
        read_at-append [] sha behind 0 20 refl (omega arith),
      )
      (ground arith)

-- The client that receives another one's handshake at the head of its buffer goes on if both name
-- the same hash and the byte behind the copied name happens to be 0; otherwise it exits with 1. When
-- it goes on, 8 bytes of the buffer have been cleared, and no others.
pub checked_handshake-construct_handshake :
    (fresh fresh' : ℕ → ℕ) (hash id sha rest : List ℕ)
    → length hash ≡ 20
    → length id ≡ 20
    → length sha ≡ 20
    → (handshake : List ℕ) × (construct_handshake fresh hash id ≡ ok handshake)
      × (checked_handshake fresh' (handshake ++ rest) sha ≡ (
          if bytes_eq hash sha && (fresh' 19 == 0)
          then ok (replicate 8 0 ++ drop 8 (handshake ++ rest))
          else exits 1))
unfolding checked_handshake
checked_handshake-construct_handshake fresh fresh' hash id sha rest h₁ h₂ h₃ =
    let handshake = handshake_of protocol_name_length bt_protocol (replicate 8 0) hash id in
    let size : length handshake ≡ 68 = omega (arith, length-append hash id) in
    (
      handshake,
      built,
      rw
          (
            read_at-append [] handshake rest 0 68 refl (omega arith),
            verdict,
            bytes_eq_refl bt_protocol,
            write_at-append [] (replicate 8 0) (handshake ++ rest) 0 refl
                (omega (arith, length-append handshake rest)),
          )
          (ground arith),
    )
  where
    handshake' : List ℕ
    handshake' = handshake_of protocol_name_length bt_protocol (replicate 8 0) hash id

    built : construct_handshake fresh hash id ≡ ok handshake'
    built =
        rw (append-nil hash, append-nil id) at (construct_handshake_lem fresh hash id [] [] h₁ h₂)

    verdict :
        verify_handshake fresh' handshake' sha
        ≡ ok (
            if bytes_eq bt_protocol bt_protocol && (fresh' 19 == 0)
            then (if bytes_eq hash sha then verified else bad_hash)
            else bad_protocol)
    verdict = rw (append-nil sha) at (
        verify_handshake_lem fresh' protocol_name_length bt_protocol (replicate 8 0) hash id sha []
          refl refl h₁ h₃)
