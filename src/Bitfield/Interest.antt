-- ===== src/Bitfield/Interest.antt =====
-- peerContainsUndownloadedPieces of src/btp.c, bit by bit.
use soft_sys_dubstep_ducks.Prelude.{
  ℕ, zero, suc, ◌+◌, ◌/◌, ◌%◌, ◌<◌, ◌≡◌, refl, List, [], ◌∷◌, ◌++◌, Bool, true, false, ◌&&◌, ◌||◌,
  not, ok, undefined, arith, length, bit_and, bit, if◌then◌else◌, ◌==◌, All, load-append, load_past,
  append_assoc, length-append, bit_and_step, zero-bit_and,
}
use soft_sys_dubstep_ducks.Bitfield.{undownloaded_from, peer_contains_undownloaded_pieces}

-- Some bit below bit n is set in p and not in o.
unfoldable pub misses : ℕ → ℕ → ℕ → Bool
misses zero p o = false
misses (suc n) p o = (bit n p == 1 && bit n o == 0) || misses n p o

-- The bytes of two bitfields side by side, as far as both go.
unfoldable pub some_missing : List ℕ → List ℕ → Bool
some_missing [] os = false
some_missing (p ∷ ps) [] = false
some_missing (p ∷ ps) (o ∷ os) = misses 8 p o || some_missing ps os

misses-step :
    (n p o : ℕ) → misses (suc n) p o ≡ ((p % 2 == 1 && o % 2 == 0) || misses n (p / 2) (o / 2))
unfolding misses bit
misses-step zero p o = ground arith
misses-step (suc n) p o = ground (arith, misses-step n p o)

-- No bit is set from bit n on.
abbrev Within : ℕ → ℕ → Type 0
Within zero p = p ≡ 0
Within (suc n) p = Within n (p / 2)

bit_and-eq : (n p o : ℕ) → Within n p → (bit_and p o == p) ≡ not (misses n p o)
unfolding misses
bit_and-eq zero p o h = rw (h, zero-bit_and o)
bit_and-eq (suc n) p o h =
    rw (misses-step n p o) (ground (arith, bit_and_step p o, bit_and-eq n (p / 2) (o / 2) h))

byte-eq : (p o : ℕ) → p < 256 → (bit_and p o == p) ≡ not (misses 8 p o)
byte-eq p o h = bit_and-eq 8 p o (omega arith)

undownloaded_from-missing :
    (before before' ps os rest rest' : List ℕ) (n x : ℕ)
    → n ≡ length ps
    → n ≡ length os
    → x ≡ length before
    → x ≡ length before'
    → All (λ b. b < 256) ps
    → undownloaded_from (before ++ (ps ++ rest)) (before' ++ (os ++ rest')) n x
      ≡ ok (some_missing ps os)
unfolding undownloaded_from some_missing
undownloaded_from-missing before before' [] os rest rest' zero x e e' k k' h = refl
undownloaded_from-missing before before' [] os rest rest' (suc n) x e e' k k' h =
    absurd (omega arith)
undownloaded_from-missing before before' (p ∷ ps) os rest rest' zero x e e' k k' h =
    absurd (omega arith)
undownloaded_from-missing before before' (p ∷ ps) [] rest rest' (suc n) x e e' k k' h =
    absurd (omega arith)
undownloaded_from-missing before before' (p ∷ ps) (o ∷ os) rest rest' (suc n) x e e' k k' h =
    let ih =
      undownloaded_from-missing (before ++ p ∷ []) (before' ++ o ∷ []) ps os rest rest' n (x + 1)
        (omega arith) (omega arith) (omega (arith, length-append before (p ∷ [])))
        (omega (arith, length-append before' (o ∷ []))) h.1 in
    rw
      (
        load-append before p (ps ++ rest) x k,
        load-append before' o (os ++ rest') x k',
        byte-eq p o h.0,
        simp append_assoc at ih,
      )
      (ground arith)

-- Over two buffers that hold at least as many bytes as the last argument says, the test finds out whether
-- the peer has a piece that is missing here: whether some bit in so many bytes, not only in so many bits, is
-- set in the peer's and not in one's own.
pub peer_contains_undownloaded_pieces_lem :
    (ps os rest rest' : List ℕ)
    → length ps ≡ length os
    → All (λ b. b < 256) ps
    → peer_contains_undownloaded_pieces (ps ++ rest) (os ++ rest') (length ps)
      ≡ ok (some_missing ps os)
unfolding peer_contains_undownloaded_pieces
peer_contains_undownloaded_pieces_lem ps os rest rest' e h =
    undownloaded_from-missing [] [] ps os rest rest' (length ps) 0 refl e refl refl h

undownloaded_from-overread :
    (before before' ps os : List ℕ) (n x : ℕ)
    → length ps < n
    → length ps ≡ length os
    → x ≡ length before
    → x ≡ length before'
    → All (λ b. b < 256) ps
    → undownloaded_from (before ++ ps) (before' ++ os) n x
      ≡ (if some_missing ps os then ok true else undefined)
unfolding undownloaded_from some_missing
undownloaded_from-overread before before' ps os zero x e e' k k' h = absurd (omega arith)
undownloaded_from-overread before before' [] os (suc n) x e e' k k' h =
    rw (load_past (before ++ []) x (omega (arith, length-append before [])))
undownloaded_from-overread before before' (p ∷ ps) [] (suc n) x e e' k k' h = absurd (omega arith)
undownloaded_from-overread before before' (p ∷ ps) (o ∷ os) (suc n) x e e' k k' h =
    let ih =
      undownloaded_from-overread (before ++ p ∷ []) (before' ++ o ∷ []) ps os n (x + 1)
        (omega arith) (omega arith) (omega (arith, length-append before (p ∷ [])))
        (omega (arith, length-append before' (o ∷ []))) h.1 in
    rw
      (
        load-append before p ps x k,
        load-append before' o os x k',
        byte-eq p o h.0,
        simp append_assoc at ih,
      )
      (ground arith)

-- Over more bytes than the two buffers hold it still answers if the peer has a missing piece, since
-- it stops there; otherwise it walks past the end of the buffers.
pub peer_contains_undownloaded_pieces-overread :
    (ps os : List ℕ) (n : ℕ)
    → length ps ≡ length os
    → length ps < n
    → All (λ b. b < 256) ps
    → peer_contains_undownloaded_pieces ps os n
      ≡ (if some_missing ps os then ok true else undefined)
unfolding peer_contains_undownloaded_pieces
peer_contains_undownloaded_pieces-overread ps os n e k h =
    undownloaded_from-overread [] [] ps os n 0 k e refl refl h
