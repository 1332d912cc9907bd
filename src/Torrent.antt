-- ===== src/Torrent.antt =====
-- main of src/torrent.c: what is prepared before the loop, and the parts of the loop.
pub mod Messages
pub mod Writable
pub mod Receive
pub mod Connecting
pub mod Loop
pub mod Rounds
pub mod Main
use soft_sys_dubstep_ducks.Prelude.{ℕ, ◌+◌, ◌*◌, ◌/◌, List, [], ◌∷◌, if◌then◌else◌, ◌==◌}

-- total_pieces_in_file/sizeof(char), and one more under the test.
unfoldable pub bitfield_len : ℕ → ℕ
bitfield_len total_pieces_in_file =
    if total_pieces_in_file / 8 * 8 == total_pieces_in_file
    then total_pieces_in_file / 1 + 1
    else total_pieces_in_file / 1

unfoldable pub bitfield_msg_length : ℕ → ℕ
bitfield_msg_length total_pieces_in_file = 4 + 1 + bitfield_len total_pieces_in_file

-- "AAAAAAAAAAAAAAAAAAA1"
abbrev pub file_sha : List ℕ
file_sha =
    b'A' ∷ b'A' ∷ b'A' ∷ b'A' ∷ b'A' ∷ b'A' ∷ b'A' ∷ b'A' ∷ b'A' ∷ b'A' ∷ b'A' ∷ b'A' ∷ b'A' ∷ b'A'
    ∷ b'A' ∷ b'A' ∷ b'A' ∷ b'A' ∷ b'A' ∷ b'1' ∷ []

-- "00000000000000000001"
abbrev pub own_id : List ℕ
own_id =
    b'0' ∷ b'0' ∷ b'0' ∷ b'0' ∷ b'0' ∷ b'0' ∷ b'0' ∷ b'0' ∷ b'0' ∷ b'0' ∷ b'0' ∷ b'0' ∷ b'0' ∷ b'0'
    ∷ b'0' ∷ b'0' ∷ b'0' ∷ b'0' ∷ b'0' ∷ b'1' ∷ []
