-- ===== src/Connection/Flags.antt =====
-- The flags of a connection in src/btp.c, one by one.
use soft_sys_dubstep_ducks.Prelude.{
  ℕ, zero, suc, ◌*◌, ◌/◌, ◌%◌, ◌^◌, ◌<◌, ◌≡◌, refl, true, arith, bit_or, if◌then◌else◌, ◌==◌,
  ==_iff, bit, bit-bit_or, bit_and-zero, bit-le, all_below, all_below-true, holds_from, ◌||◌,
  length, length-replicate,
}
use soft_sys_dubstep_ducks.Connection.{
  Connection, no_request, own_choke, peer_choke, or_flags, and_flags, initialize_connection,
  set_flag,
}

-- Keeping a byte keeps its 8 bits.
pub bit-mod : (j x : ℕ) → j < 8 → bit j (x % 256) ≡ bit j x
unfolding bit
bit-mod zero x h = omega arith
bit-mod (suc zero) x h = omega arith
bit-mod (suc (suc zero)) x h = omega arith
bit-mod (suc (suc (suc zero))) x h = omega arith
bit-mod (suc (suc (suc (suc zero)))) x h = omega arith
bit-mod (suc (suc (suc (suc (suc zero))))) x h = omega arith
bit-mod (suc (suc (suc (suc (suc (suc zero)))))) x h = omega arith
bit-mod (suc (suc (suc (suc (suc (suc (suc zero))))))) x h = omega arith
bit-mod (suc (suc (suc (suc (suc (suc (suc (suc j)))))))) x h = absurd (omega arith)

-- 1 << flag has that bit alone.
shift_table :
    all_below 8 (λ f. all_below 8 (λ j. bit j (1 * 2 ^ f) == (if f == j then 1 else 0))) ≡ true
unfolding holds_from bit
shift_table = refl

bit-shift : (f j : ℕ) → f < 8 → j < 8 → bit j (1 * 2 ^ f) ≡ (if f == j then 1 else 0)
bit-shift f j h k = (==_iff _ _).0 (
    all_below-true 8 (λ j. bit j (1 * 2 ^ f) == (if f == j then 1 else 0)) j
      (all_below-true 8 _ f shift_table h) k)

-- Or-ing a flag in sets that bit and leaves the others.
pub bit-or_flags :
    (flags f j : ℕ)
    → f < 8
    → j < 8
    → bit j (or_flags flags (1 * 2 ^ f)) ≡ (if f == j then 1 else bit j flags)
bit-or_flags flags f j h k =
    rw (bit-mod j (bit_or flags (1 * 2 ^ f)) k, bit-bit_or j flags (1 * 2 ^ f), bit-shift f j h k)
      (ground (arith, bit-le j flags))

-- Set_Flag with state 1 sets the flag and leaves the other flags and the other fields.
pub set_flag-set :
    (c : Connection) (flag j : ℕ)
    → flag < 8
    → j < 8
    → (bit j (set_flag c flag 1).status_flags ≡ (if flag == j then 1 else bit j c.status_flags))
      × (set_flag c flag 1 ≡ record c { status_flags = (set_flag c flag 1).status_flags })
unfolding set_flag
set_flag-set c flag j h k = (bit-or_flags c.status_flags flag j h k, refl)

cleared : (flags bits : ℕ) → and_flags flags (0 * bits) ≡ 0
cleared flags bits = let z : 0 * bits ≡ 0 = omega arith in rw (z, bit_and-zero flags)

-- Set_Flag with state 0 does not clear the one flag: it clears all of them, whichever flag is named,
-- and leaves the other fields.
pub set_flag_clears_all :
    (c : Connection) (flag : ℕ) → set_flag c flag 0 ≡ record c { status_flags = 0 }
unfolding set_flag
set_flag_clears_all c flag =
    let none_left : and_flags c.status_flags (0 * 2 ^ flag) ≡ 0 =
      cleared c.status_flags (2 ^ flag) in
    rw none_left

-- With any other state nothing changes.
pub set_flag_bad_state : (c : Connection) (flag state : ℕ) → 1 < state → set_flag c flag state ≡ c
unfolding set_flag
set_flag_bad_state c flag state h = ground arith

forty_table : all_below 8 (λ j. bit j 40 == (if j == 5 || j == 3 then 1 else 0)) ≡ true
unfolding holds_from bit
forty_table = refl

bit_forty : (j : ℕ) → j < 8 → bit j 40 ≡ (if j == 5 || j == 3 then 1 else 0)
bit_forty j h = (==_iff _ _).0 (all_below-true 8 _ j forty_table h)

-- A connection that is initialised has both sides choked and no request either way; its flags are
-- the initial ones only where they were clear before, since they are or-ed in.
pub initialize_connection_lem :
    (c : Connection) (total j : ℕ)
    → j < 8
    → (bit j (initialize_connection c total).status_flags
        ≡ (if j == own_choke || j == peer_choke then 1 else bit j c.status_flags))
      × ((initialize_connection c total).requested_piece ≡ no_request)
      × ((initialize_connection c total).piece_to_send ≡ no_request)
      × (length (initialize_connection c total).peer_bitfield ≡ total / 8)
unfolding initialize_connection
initialize_connection_lem c total j k = (
  rw (bit-mod j (bit_or c.status_flags 40) k, bit-bit_or j c.status_flags 40, bit_forty j k)
      (ground (arith, bit-le j c.status_flags)),
  refl,
  refl,
  length-replicate (total / 8) 0,
)
