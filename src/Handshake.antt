-- ===== src/Handshake.antt =====
-- The handshake of src/btp.c: construct_handshake, verify_handshake and Verify_handshake.
pub mod Verify
use soft_sys_dubstep_ducks.Prelude.{
  ℕ, ◌+◌, List, [], ◌∷◌, ◌++◌, Bool, true, false, not, Outcome, ok, exits, undefined, ◌>>=◌, ◌>>◌,
  exit_if, load, malloc, read_at, write_at, replicate, bytes_eq, if◌then◌else◌, ◌==◌,
}

-- BTPROTOCOL, without its NUL; PROTOCOLNAMELENGTH and FULLHANDSHAKELENGTH.
abbrev pub bt_protocol : List ℕ
bt_protocol =
    b'B' ∷ b'i' ∷ b't' ∷ b'T' ∷ b'o' ∷ b'r' ∷ b'r' ∷ b'e' ∷ b'n' ∷ b't' ∷ 32 ∷ b'p' ∷ b'r' ∷ b'o'
    ∷ b't' ∷ b'o' ∷ b'c' ∷ b'o' ∷ b'l' ∷ []

abbrev pub protocol_name_length : ℕ
protocol_name_length = 19

abbrev pub full_handshake_length : ℕ
full_handshake_length = 68

unfoldable pub construct_handshake : (ℕ → ℕ) → List ℕ → List ℕ → Outcome (List ℕ)
construct_handshake fresh hash id = do
  handshake₁ ← write_at (malloc fresh full_handshake_length) 0 (protocol_name_length ∷ [])
  handshake₂ ← write_at handshake₁ 1 bt_protocol
  handshake₃ ← write_at handshake₂ (1 + protocol_name_length) (replicate 8 0)
  sha ← read_at hash 0 20
  handshake₄ ← write_at handshake₃ (1 + protocol_name_length + 8) sha
  own ← read_at id 0 20
  write_at handshake₄ (1 + protocol_name_length + 20 + 8) own

-- What is returned: 0, -1, -2 and -3.
pub data Verdict : Type 0 where
  verified bad_name_length bad_protocol bad_hash : Verdict

-- The name is copied into a block of 20 bytes, of which the last stays unwritten, and compared with
-- all 20 bytes of BTPROTOCOL and its NUL.
unfoldable pub verify_handshake : (ℕ → ℕ) → List ℕ → List ℕ → Outcome Verdict
verify_handshake fresh handshake client_sha1 = do
  name_length ← load handshake 0
  let compare_hash = do
    peer_sha1 ← read_at handshake (1 + protocol_name_length + 8) 20
    own_sha1 ← read_at client_sha1 0 20
    ok (if bytes_eq peer_sha1 own_sha1 then verified else bad_hash)
  let compare_name = do
    sent_name ← read_at handshake 1 protocol_name_length
    name ← write_at (malloc fresh (protocol_name_length + 1)) 0 sent_name
    if bytes_eq name (bt_protocol ++ 0 ∷ []) then compare_hash else ok bad_protocol
  if name_length == protocol_name_length then compare_name else ok bad_name_length

abbrev pub is_verified : Verdict → Bool
is_verified verified = true
is_verified _ = false

-- sizeof(buffer) is the size of a pointer: of the buffer only the first 8 bytes are cleared.
unfoldable pub checked_handshake : (ℕ → ℕ) → List ℕ → List ℕ → Outcome (List ℕ)
checked_handshake fresh buffer file_sha = do
  peer_handshake ← read_at buffer 0 full_handshake_length
  test ← verify_handshake fresh peer_handshake file_sha
  exit_if (not (is_verified test)) 1
  write_at buffer 0 (replicate 8 0)
