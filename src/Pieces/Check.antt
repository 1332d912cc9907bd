-- ===== src/Pieces/Check.antt =====
-- The first bitfield and the check of a piece in src/file_constructor.c.
use soft_sys_dubstep_ducks.Prelude.{
  ℕ, zero, suc, ◌+◌, ◌*◌, ◌/◌, ◌%◌, ◌≤◌, ◌<◌, ◌≡◌, ◌↔◌, refl, List, [], ◌++◌, Bool, true, ok, arith,
  length, replicate, read_at-append, bytes_eq, bytes_eq_iff, length-replicate, append-nil, All,
  if◌then◌else◌, ◌==◌,
}
use soft_sys_dubstep_ducks.Bitfield.{count_bitfield_bits}
use soft_sys_dubstep_ducks.Bitfield.Count.{total_bits, bit_sum, count_bitfield_bits_lem}
use soft_sys_dubstep_ducks.Pieces.{verify_piece, is_plain, set_initial_bitfield}

-- A piece passes exactly if its SHA1 is the expected one: the first 20 bytes at `expected_sha`.
pub verify_piece_lem :
    (sha1 : List ℕ → List ℕ) (piece rest expected behind : List ℕ)
    → length expected ≡ 20
    → (b : Bool) × (verify_piece sha1 (piece ++ rest) (expected ++ behind) (length piece) ≡ ok b)
      × ((b ≡ true) ↔ (sha1 piece ≡ expected))
unfolding verify_piece
verify_piece_lem sha1 piece rest expected behind h = (
  bytes_eq (sha1 piece) expected,
  rw (
    read_at-append [] piece rest 0 (length piece) refl refl,
    read_at-append [] expected behind 0 20 refl (omega arith),
  ),
  bytes_eq_iff (sha1 piece) expected,
)

total_bits-replicate : (n : ℕ) → total_bits (replicate n 0) ≡ 0
unfolding total_bits bit_sum
total_bits-replicate zero = refl
total_bits-replicate (suc n) = rw (total_bits-replicate n)

zeros_are_bytes : (n : ℕ) → All (λ b. b < 256) (replicate n 0)
zeros_are_bytes zero = tt
zeros_are_bytes (suc n) = (omega arith, zeros_are_bytes n)

count-zeros :
    (n : ℕ) → count_bitfield_bits (replicate {A = ℕ} n 0) (length (replicate {A = ℕ} n 0)) ≡ ok 0
count-zeros n =
    rw (append-nil (replicate {A = ℕ} n 0), total_bits-replicate n) at
      (count_bitfield_bits_lem (replicate {A = ℕ} n 0) [] (zeros_are_bytes n))

-- For a file name without a %, the first bitfield has no piece, and the fewest bytes that hold a bit
-- for every piece; the caller's descriptor is not set.
pub set_initial_bitfield_lem :
    (fd : ℕ) (file_name : List ℕ) (num_pieces : ℕ)
    → is_plain file_name ≡ true
    → (bitfield : List ℕ) × (set_initial_bitfield fd file_name num_pieces ≡ ok (bitfield, fd))
      × (num_pieces ≤ 8 * length bitfield)
      × (8 * length bitfield < num_pieces + 8)
      × (count_bitfield_bits bitfield (length bitfield) ≡ ok 0)
unfolding set_initial_bitfield
set_initial_bitfield_lem fd file_name num_pieces h =
    let n = if num_pieces % 8 == 0 then num_pieces / 8 else num_pieces / 8 + 1 in
    let size : length (replicate {A = ℕ} n 0) ≡ n = length-replicate n 0 in
    (replicate n 0, rw h, rw size (ground arith), rw size (ground arith), count-zeros n)
