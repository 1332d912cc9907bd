-- ===== src/Wire/Parse.antt =====
-- get_next_msg of src/btp.c takes a message off a buffer.
use soft_sys_dubstep_ducks.Prelude.{
  ℕ, suc, ◌+◌, ◌-◌, ◌^◌, ◌≤◌, ◌<◌, ◌≡◌, refl, List, [], ◌∷◌, ◌++◌, ok, undefined, arith, length,
  read_at-append, read_at_overflow, int_bytes, bytes_int-int_bytes, length-append, lt→ltb,
}
use soft_sys_dubstep_ducks.Wire.{get_next_msg}
use soft_sys_dubstep_ducks.Wire.Layout.{framed}

-- A framed message at the head of a buffer is returned whole, with its id and its size; what stands
-- behind it does not matter. Its size is below 2 ^ 31, as an int.
pub get_next_msg-framed :
    (id : ℕ) (payload rest : List ℕ)
    → 5 + length payload < 2 ^ 31
    → get_next_msg (framed id payload ++ rest)
      ≡ ok (record {
        message = framed id payload;
        msg_id = id;
        msg_size = length (framed id payload);
      })
unfolding get_next_msg
get_next_msg-framed id payload rest h =
    let n = suc (length payload) in
    let total : n + 4 ≡ length (framed id payload) = omega arith in
    rw (
      read_at-append [] (int_bytes n) (id ∷ payload ++ rest) 0 4 refl refl,
      bytes_int-int_bytes n (omega arith),
      lt→ltb n (2 ^ 31 - 4) (omega arith),
      read_at-append [] (framed id payload) rest 0 (n + 4) refl total,
      total,
    )

-- The size that a buffer announces is not compared with what it holds: one that reaches past the
-- end of the buffer is copied all the same.
pub get_next_msg-overread :
    (size : ℕ) (rest : List ℕ)
    → size < 2 ^ 31 - 4
    → length rest < size
    → get_next_msg (int_bytes size ++ rest) ≡ undefined
unfolding get_next_msg
get_next_msg-overread size rest small short = rw (
  read_at-append [] (int_bytes size) rest 0 4 refl refl,
  bytes_int-int_bytes size (omega arith),
  lt→ltb size (2 ^ 31 - 4) small,
  read_at_overflow (int_bytes size ++ rest) 0 (size + 4)
      (omega (arith, length-append (int_bytes size) rest)),
)

-- Nor is a negative size caught, but for the four nearest to 0.
pub get_next_msg_negative :
    (size : ℕ) (rest : List ℕ)
    → 2 ^ 31 ≤ size
    → size < 2 ^ 32 - 4
    → get_next_msg (int_bytes size ++ rest) ≡ undefined
unfolding get_next_msg
get_next_msg_negative size rest low high =
    rw
      (
        read_at-append [] (int_bytes size) rest 0 4 refl refl,
        bytes_int-int_bytes size (omega arith),
      )
      (ground arith)
