-- ===== src/Torrent/Writable/Order.antt =====
-- The bit that main in src/torrent.c sets for a HAVE message, and the one that it looks for.
use soft_sys_dubstep_ducks.Prelude.{
  ℕ, ℕ_discrete, All, ltb→lt, Bool-cases, inl, inr, ◌∙◌, ap, sym, ◌-◌, ◌*◌, ◌%◌, ◌/◌, ◌^◌, ◌≤◌, ◌<◌,
  ◌≡◌, refl, List, [], ◌∷◌, ◌++◌, Bool, true, false, ◌||◌, not, ok, Option, none, some, arith,
  if◌then◌else◌, ◌==◌, ltb, lt→ltb, bit, bit-zero, int_bytes, get_elem?, all_below, all_below-true,
  write_at-set, length,
}
use soft_sys_dubstep_ducks.Wire.{have, request}
use soft_sys_dubstep_ducks.Wire.Layout.{framed}
use soft_sys_dubstep_ducks.Wire.Parse.{get_next_msg-framed}
use soft_sys_dubstep_ducks.Wire.RoundTrip.{int_at-framed}
use soft_sys_dubstep_ducks.Bitfield.{peer_contains_undownloaded_pieces}
use soft_sys_dubstep_ducks.Torrent.{bitfield_len}
use soft_sys_dubstep_ducks.Connection.{
  Connection, own_interested, own_choke, peer_interested, pending_request, or_flags,
}
use soft_sys_dubstep_ducks.Connection.Flags.{bit-or_flags}
use soft_sys_dubstep_ducks.Torrent.Messages.{mark_piece, or_byte, respond, handle_message}
use soft_sys_dubstep_ducks.Torrent.Writable.{Written, shifted_bit, first_missing, on_writable}
use soft_sys_dubstep_ducks.Torrent.Writable.Served.{on_writable_asks}
use soft_sys_dubstep_ducks.Torrent.Writable.Choice.{
  HasByte, is_missing, not_missing, Finds, first_missing_lem,
}

-- The byte with bit f alone.
abbrev pub lone_bit : ℕ → ℕ
lone_bit f = or_flags 0 (1 * 2 ^ f)

bit-lone_bit : (f j : ℕ) → f < 8 → j < 8 → bit j (lone_bit f) ≡ (if f == j then 1 else 0)
bit-lone_bit f j h k = rw (bit-or_flags 0 f j h k, bit-zero j) refl

-- In the first byte the HAVE for piece k sets the bit that stands for piece 7 - k.
mark_piece-lone_bit :
    (k : ℕ) (ps : List ℕ) → k < 8 → mark_piece (0 ∷ ps) k ≡ ok (lone_bit (7 - k) ∷ ps)
unfolding mark_piece or_byte
mark_piece-lone_bit k ps h =
    let byte : k / 8 ≡ 0 = omega arith in
    let place : k % 8 ≡ k = omega arith in
    rw (
      lt→ltb k (2 ^ 31) (omega arith),
      byte,
      place,
      write_at-set (0 ∷ ps) 0 (lone_bit (7 - k)) (omega arith),
    )

not-true : (b : Bool) → b ≡ true → not b ≡ true → ⊥
not-true b h k = ground arith

module _ (own : ℕ) (connections : List Connection) (total f : ℕ) (known : All HasByte connections)
    (few : total ≤ 32) (room : total ≤ length connections) (inside : f < total)
    (wanted : is_missing own connections f ≡ true)
    (none_before : all_below f (not_missing own connections) ≡ true) where
  -- The loop finds the piece that is missing, if none is in front of it.
  first_missing-first : first_missing own connections total 0 ≡ ok (some f)
  first_missing-first =
      let found = first_missing_lem own connections total known few room in
      by_search found.0 found.1 found.2
    where
      not_both :
          (m : ℕ) → is_missing own connections m ≡ true → not_missing own connections m ≡ true → ⊥
      not_both m = not-true (is_missing own connections m)

      by_search :
          (o : Option ℕ)
          → first_missing own connections total 0 ≡ ok o
          → Finds own connections total 0 o
          → first_missing own connections total 0 ≡ ok (some f)
      by_search none e finds =
          absurd
            (not_both f wanted (all_below-true total (not_missing own connections) f finds inside))
      by_search (some m) e finds = elim (ℕ_discrete f m) [
        | yes same ↦ e ∙ ap (λ n. ok (some n)) (sym same)
        | no other ↦ elim (Bool-cases (ltb f m)) [
          | inl later ↦ absurd (
              not_both f wanted (
                all_below-true finds.0 (not_missing own connections) f finds.3
                  (omega (arith, finds.1, ltb→lt f m later))))
          | inr before ↦ absurd (
              not_both m finds.4 (
                all_below-true f (not_missing own connections) m none_before
                  (ground (arith, other, before))))
        ]
      ]

-- The connection of a peer behind its first HAVE, which was for piece k.
abbrev pub told : Connection → ℕ → List ℕ → Connection
told c k ps = record c { peer_bitfield = lone_bit (7 - k) ∷ ps }

handle_message-have :
    (total k : ℕ) (ps rest : List ℕ) (c : Connection)
    → k < 8
    → c.peer_bitfield ≡ 0 ∷ ps
    → handle_message total (framed have (int_bytes k) ++ rest) false c ≡ ok (told c k ps, true)
unfolding handle_message respond
handle_message-have total k ps rest c h nothing = rw (
  get_next_msg-framed have (int_bytes k) rest (omega arith),
  int_at-framed (int_bytes 5 ++ have ∷ []) [] k 5 (omega arith) refl,
  nothing,
  mark_piece-lone_bit k ps h,
)

told-is_missing :
    (o k : ℕ) (connections : List Connection) (c : Connection) (ps : List ℕ)
    → k < 8
    → get_elem? connections (7 - k) ≡ some (told c k ps)
    → bit (7 - k) o ≡ 0
    → is_missing o connections (7 - k) ≡ true
unfolding shifted_bit
told-is_missing o k connections c ps h at_i lacks =
    let one : bit (7 - k) (lone_bit (7 - k)) ≡ 1 =
      rw (bit-lone_bit (7 - k) (7 - k) (omega arith) (omega arith)) (ground arith) in
    rw (at_i, lt→ltb (7 - k) 8 (omega arith), lacks, one)

-- When a peer on connection 7 - k, of which nothing was known in the first byte, has told of piece k,
-- among the first 8, it is asked for piece 7 - k as soon as its socket can be written to: HAVE counts
-- the bits of a byte from the left, the search from the right, and it looks for a piece at the
-- connection of the same number only. The client is interested, not choked, waits for nothing, finds
-- that the peer has something it lacks, lacks that piece and finds none before it; there are at most
-- 32 pieces, and as many connections with a bitfield.
pub have-asked :
    (fresh : ℕ → ℕ) (fd : Option (List ℕ)) (total len k o : ℕ) (os ps rest : List ℕ)
    (connections : List Connection) (c : Connection)
    → k < 8
    → 7 - k < total
    → total ≤ 32
    → total ≤ length connections
    → All HasByte connections
    → c.peer_bitfield ≡ 0 ∷ ps
    → bit (7 - k) o ≡ 0
    → all_below (7 - k) (not_missing o connections) ≡ true
    → bit pending_request c.status_flags ≡ 0
    → bit own_interested c.status_flags ≡ 1
    → bit own_choke c.status_flags ≡ 0
    → get_elem? connections (7 - k) ≡ some (told c k ps)
    → peer_contains_undownloaded_pieces (lone_bit (7 - k) ∷ ps) (o ∷ os) (bitfield_len total)
      ≡ ok true
    → (handle_message total (framed have (int_bytes k) ++ rest) false c ≡ ok (told c k ps, true))
      × (w : Written) × (on_writable fresh true fd total len (o ∷ os) connections (7 - k) ≡ ok w)
      × (w.sent ≡ some (7 - k, framed request (int_bytes (7 - k) ++ (int_bytes 0 ++ int_bytes 0))))
have-asked fresh fd total len k o os ps rest connections c h inside few room known nothing lacks
      before idle wants free at_i missing =
    let quiet : (bit peer_interested c.status_flags == 0 || bit own_interested c.status_flags == 1)
        ≡ true =
      ground arith in
    let found =
      first_missing-first o connections total (7 - k) known few room inside
        (told-is_missing o k connections c ps h at_i lacks) before in
    let asks =
      on_writable_asks fresh true fd total len (o ∷ os) connections (7 - k) (told c k ps) at_i idle
        quiet o os (7 - k) 0 (told c k ps) wants free missing refl found at_i (omega arith) in
    (handle_message-have total k ps rest c h nothing, _, asks.1, refl)
