-- ===== src/Torrent/Writable/Choice.antt =====
-- The piece that main in src/torrent.c requests.
use soft_sys_dubstep_ducks.Prelude.{
  ℕ, zero, suc, ◌+◌, ◌≤◌, ◌<◌, ◌≡◌, refl, List, All, All-get, Bool, true, false, ◌&&◌, not, ok,
  Option, none, some, arith, ◌==◌, lt→ltb, holds_from, Bool-cases, inl, inr, get_elem?, length,
  load-in,
}
use soft_sys_dubstep_ducks.Connection.{Connection}
use soft_sys_dubstep_ducks.Torrent.Writable.{first_missing, shifted_bit}

-- The first byte of a connection's bitfield, if there is one.
abbrev first_byte : Option Connection → Option ℕ
first_byte none = none
first_byte (some c) = get_elem? c.peer_bitfield 0

abbrev shows : Option ℕ → ℕ → Bool
shows none i = false
shows (some b) i = shifted_bit b i == 1

-- The bit of piece i is clear in the byte here, and set in the first byte of connection i.
abbrev pub is_missing : ℕ → List Connection → ℕ → Bool
is_missing own connections i =
    shifted_bit own i == 0 && shows (first_byte (get_elem? connections i)) i

abbrev pub not_missing : ℕ → List Connection → ℕ → Bool
not_missing own connections i = not (is_missing own connections i)

-- The first of n pieces from piece i on that is missing, if one is.
abbrev pub Finds : ℕ → List Connection → ℕ → ℕ → Option ℕ → Type 0
Finds own connections n i none = holds_from (not_missing own connections) i n ≡ true
Finds own connections n i (some k) =
    (d : ℕ) × (k ≡ i + d)
    × (d < n)
    × (holds_from (not_missing own connections) i d ≡ true)
    × (is_missing own connections k ≡ true)

Finds-suc :
    (own : ℕ) (connections : List Connection) (n i : ℕ) (found : Option ℕ)
    → is_missing own connections i ≡ false
    → Finds own connections n (i + 1) found
    → Finds own connections (suc n) i found
unfolding holds_from
Finds-suc own connections n i none h f = rw (h, f)
Finds-suc own connections n i (some k) h f = (suc f.0, omega arith, omega arith, rw (h, f.3), f.4)

-- There is a byte of bits.
abbrev pub HasByte : Connection → Type 0
HasByte c = 0 < length c.peer_bitfield

module _ (own : ℕ) (connections : List Connection) (known : All HasByte connections) where
  first_missing-Finds :
      (n i : ℕ)
      → i + n ≤ 32
      → i + n ≤ length connections
      → (found : Option ℕ) × (first_missing own connections n i ≡ ok found)
        × Finds own connections n i found
  unfolding first_missing holds_from
  first_missing-Finds zero i h k = (none, refl, refl)
  first_missing-Finds (suc n) i h k =
      let c = load-in connections i (omega arith) in
      let b = load-in c.0.peer_bitfield 0 (All-get HasByte connections i c.0 known c.1) in
      let small = lt→ltb i 32 (omega arith) in
      elim (Bool-cases (is_missing own connections i)) [
        | inl at_i ↦
            let test = (rw (c.1, b.1) at at_i) in
            (some i, rw (small, c.1, b.1, test), (0, omega arith, omega arith, refl, at_i))
        | inr later ↦
            let test = (rw (c.1, b.1) at later) in
            let ih = first_missing-Finds n (i + 1) (omega arith) (omega arith) in
            (ih.0, rw (small, c.1, b.1, test, ih.1), Finds-suc own connections n i ih.0 later ih.2)
      ]

-- Among at most 32 pieces, and as many connections, the loop finds the first one that is missing here
-- and that the connection of the same number shows in its first byte, or that there is none.
pub first_missing_lem :
    (own : ℕ) (connections : List Connection) (total : ℕ)
    → All HasByte connections
    → total ≤ 32
    → total ≤ length connections
    → (found : Option ℕ) × (first_missing own connections total 0 ≡ ok found)
      × Finds own connections total 0 found
first_missing_lem own connections total known h k =
    first_missing-Finds own connections known total 0 (omega arith) (omega arith)
