-- ===== src/Torrent/Loop/Count.antt =====
-- The count of one's own pieces in main of src/torrent.c.
use soft_sys_dubstep_ducks.Prelude.{
  ℕ, zero, suc, ◌+◌, ◌≤◌, ◌<◌, ◌≡◌, refl, List, [], ◌∷◌, ◌++◌, true, ok, undefined, arith, length,
  bit_and-zero, load-append, load_past, append_assoc, length-append, if◌then◌else◌, leb,
}
use soft_sys_dubstep_ducks.Pieces.{is_plain, set_initial_bitfield}
use soft_sys_dubstep_ducks.Pieces.Check.{set_initial_bitfield_lem}
use soft_sys_dubstep_ducks.Torrent.Loop.{count_have, count_have_from}

count_have_from-leb :
    (before own : List ℕ) (n i count : ℕ)
    → i ≡ length before
    → count_have_from (before ++ own) n i count
      ≡ (if leb n (length own) then ok count else undefined)
unfolding count_have_from
count_have_from-leb before own zero i count e = ground arith
count_have_from-leb before [] (suc n) i count e =
    rw (load_past (before ++ []) i (omega (arith, length-append before []))) (ground arith)
count_have_from-leb before (b ∷ own) (suc n) i count e =
    let ih =
      count_have_from-leb (before ++ b ∷ []) own n (i + 1) count
        (omega (arith, length-append before (b ∷ []))) in
    rw (load-append before b own i e, bit_and-zero b)
      (ground (arith, rw (append_assoc before (b ∷ []) own) at ih))

-- No piece is ever counted, and one byte is read for each piece.
pub count_have_lem :
    (own : List ℕ) (total : ℕ)
    → count_have own total ≡ (if leb total (length own) then ok 0 else undefined)
unfolding count_have
count_have_lem own total = count_have_from-leb [] own total 0 0 refl

-- With two pieces or more the first round of the loop reads past the end of the bitfield that main
-- has made.
pub count_have-set_initial_bitfield :
    (fd : ℕ) (file_name : List ℕ) (total : ℕ)
    → is_plain file_name ≡ true
    → 2 ≤ total
    → (bitfield : List ℕ) × (set_initial_bitfield fd file_name total ≡ ok (bitfield, fd))
      × (count_have bitfield total ≡ undefined)
count_have-set_initial_bitfield fd file_name total h two =
    let made = set_initial_bitfield_lem fd file_name total h in
    let short : length made.0 < total = omega (arith, made.3) in
    (made.0, made.1, rw (count_have_lem made.0 total) (ground arith))
