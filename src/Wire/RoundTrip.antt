-- ===== src/Wire/RoundTrip.antt =====
-- The messages that src/btp.c constructs, taken off a buffer by its get_next_msg and read where main
-- of src/torrent.c reads their fields.
use soft_sys_dubstep_ducks.Prelude.{
  ℕ, suc, ◌+◌, ◌^◌, ◌<◌, ◌≡◌, refl, List, [], ◌∷◌, ◌++◌, Outcome, ok, ◌>>=◌, arith, length, read_at,
  read_at-append, int_bytes, bytes_int, bytes_int-int_bytes, read_at_end,
}
use soft_sys_dubstep_ducks.Wire.{
  get_next_msg, construct_state_message, construct_have_message, construct_request_message,
  construct_piece_message, have, request, piece_id,
}
use soft_sys_dubstep_ducks.Wire.Layout.{
  framed, construct_state_message_lem, construct_have_message_lem, construct_request_message_lem,
  construct_piece_message_lem,
}
use soft_sys_dubstep_ducks.Wire.Parse.{get_next_msg-framed}

-- memcpy(&n, msg + i, 4)
abbrev pub int_at : List ℕ → ℕ → Outcome ℕ
int_at msg i = do bytes ← read_at msg i 4; ok (bytes_int bytes)

-- A message that was built is found again: whole, with this id and this size.
abbrev pub Found : Outcome (List ℕ) → List ℕ → ℕ → ℕ → Type 0
Found built rest id size =
    (msg : List ℕ) × (built ≡ ok msg)
    × (get_next_msg (msg ++ rest) ≡ ok (record { message = msg; msg_id = id; msg_size = size }))

pub int_at-framed :
    (before after : List ℕ) (n i : ℕ)
    → n < 2 ^ 32
    → i ≡ length before
    → int_at (before ++ (int_bytes n ++ after)) i ≡ ok n
int_at-framed before after n i h e =
    rw (read_at-append before (int_bytes n) after i 4 e refl, bytes_int-int_bytes n h)

-- A state message has only its id.
pub state_message_roundtrip :
    (fresh : ℕ → ℕ) (id : ℕ) (rest : List ℕ) → Found (construct_state_message fresh id) rest id 5
state_message_roundtrip fresh id rest = (
  framed id [],
  construct_state_message_lem fresh id,
  get_next_msg-framed id [] rest (omega arith),
)

-- A HAVE message keeps its piece index.
pub have_message_roundtrip :
    (fresh : ℕ → ℕ) (i : ℕ) (rest : List ℕ)
    → i < 2 ^ 32
    → (found : Found (construct_have_message fresh i) rest have 9) × (int_at found.0 5 ≡ ok i)
have_message_roundtrip fresh i rest h =
    let payload = int_bytes i in
    (
      (
        framed have payload,
        construct_have_message_lem fresh i,
        get_next_msg-framed have payload rest (omega arith),
      ),
      int_at-framed (int_bytes 5 ++ have ∷ []) [] i 5 h refl,
    )

-- A request keeps its piece index, block offset and block length.
pub request_message_roundtrip :
    (fresh : ℕ → ℕ) (i off len : ℕ) (rest : List ℕ)
    → i < 2 ^ 32
    → off < 2 ^ 32
    → len < 2 ^ 32
    → (found : Found (construct_request_message fresh i off len) rest request 17) × (int_at found.0
          5
        ≡ ok i)
      × (int_at found.0 9 ≡ ok off)
      × (int_at found.0 13 ≡ ok len)
request_message_roundtrip fresh i off len rest h h₁ h₂ =
    let payload = int_bytes i ++ (int_bytes off ++ int_bytes len) in
    let head = int_bytes 13 ++ request ∷ [] in
    (
      (
        framed request payload,
        construct_request_message_lem fresh i off len,
        get_next_msg-framed request payload rest (omega arith),
      ),
      int_at-framed head (int_bytes off ++ int_bytes len) i 5 h refl,
      int_at-framed (head ++ int_bytes i) (int_bytes len) off 9 h₁ refl,
      int_at-framed (head ++ (int_bytes i ++ int_bytes off)) [] len 13 h₂ refl,
    )

-- A PIECE message keeps its piece index, its block offset and the bytes of the piece.
pub piece_message_roundtrip :
    (fresh : ℕ → ℕ) (i off : ℕ) (piece behind rest : List ℕ)
    → i < 2 ^ 32
    → off < 2 ^ 32
    → 13 + length piece < 2 ^ 31
    → (found : Found
        (construct_piece_message fresh i off (length piece) (piece ++ behind))
        rest
        piece_id
        (13 + length piece))
      × (int_at found.0 5 ≡ ok i)
      × (int_at found.0 9 ≡ ok off)
      × (read_at found.0 13 (length piece) ≡ ok piece)
piece_message_roundtrip fresh i off piece behind rest h h₁ h₂ =
    let payload = int_bytes i ++ (int_bytes off ++ piece) in
    let head = int_bytes (suc (length payload)) ++ piece_id ∷ [] in
    let size : length (framed piece_id payload) ≡ 13 + length piece = omega arith in
    (
      (
        framed piece_id payload,
        construct_piece_message_lem fresh i off piece behind (length piece) refl,
        rw (get_next_msg-framed piece_id payload rest (omega arith), size),
      ),
      int_at-framed head (int_bytes off ++ piece) i 5 h refl,
      int_at-framed (head ++ int_bytes i) piece off 9 h₁ refl,
      read_at_end (head ++ (int_bytes i ++ int_bytes off)) piece 13 (length piece) refl refl,
    )
