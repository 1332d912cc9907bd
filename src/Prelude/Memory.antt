-- ===== src/Prelude/Memory.antt =====
-- Blocks of bytes: malloc, memcpy and indexing, with their bounds.
use Prim.Native.Nat.{ℕ, zero, suc, ◌+◌, ◌≤◌, ◌<◌}
use mathlib.Core.Path.{◌≡◌, refl, ap}
use mathlib.Core.List.{List, [], ◌∷◌, ◌++◌, append-nil}
use mathlib.Core.Option.{some}
use native.Mathlib.Omega.{arith}
use soft_sys_dubstep_ducks.Prelude.Tests.{leb, le→leb, if◌then◌else◌}
use soft_sys_dubstep_ducks.Prelude.Lists.{
  length, take, drop, set, get_elem?, length-append, take-append, drop-append, drop_all,
}
use soft_sys_dubstep_ducks.Prelude.Control.{Outcome, ok, undefined, or_undefined}

-- A new block of n bytes from position i on. Its bytes are indeterminate: `fresh` says what they are.
unfoldable pub malloc_from : (ℕ → ℕ) → ℕ → ℕ → List ℕ
malloc_from fresh i zero = []
malloc_from fresh i (suc n) = fresh i ∷ malloc_from fresh (i + 1) n

unfoldable pub malloc : (ℕ → ℕ) → ℕ → List ℕ
unfolding malloc_from
malloc fresh n = malloc_from fresh 0 n

-- block[i]
abbrev pub load : List ℕ → ℕ → Outcome ℕ
load block i = or_undefined (get_elem? block i)

-- The n bytes that memcpy reads at block + i.
unfoldable pub read_at : List ℕ → ℕ → ℕ → Outcome (List ℕ)
read_at block i n = if leb (i + n) (length block) then ok (take n (drop i block)) else undefined

-- memcpy(block + i, bytes, |bytes|)
unfoldable pub write_at : List ℕ → ℕ → List ℕ → Outcome (List ℕ)
write_at block i bytes =
    if leb (i + length bytes) (length block)
    then ok (take i block ++ (bytes ++ drop (i + length bytes) block))
    else undefined

pub length-malloc_from : (fresh : ℕ → ℕ) (i n : ℕ) → length (malloc_from fresh i n) ≡ n
unfolding malloc_from
length-malloc_from fresh i zero = refl
length-malloc_from fresh i (suc n) = ap suc (length-malloc_from fresh (i + 1) n)

pub length-malloc : (fresh : ℕ → ℕ) (n : ℕ) → length (malloc fresh n) ≡ n
unfolding malloc
length-malloc fresh n = length-malloc_from fresh 0 n

-- A write just behind what has been written.
pub write_at-append :
    (done bytes rest : List ℕ) (i : ℕ)
    → i ≡ length done
    → length bytes ≤ length rest
    → write_at (done ++ rest) i bytes ≡ ok (done ++ (bytes ++ drop (length bytes) rest))
unfolding write_at
write_at-append done bytes rest i e h = rw (
  le→leb (i + length bytes) (length (done ++ rest)) (omega (arith, length-append done rest)),
  take-append done rest i e,
  drop_more done rest i (length bytes) e,
)
  where
    drop_more : (xs ys : List ℕ) (i n : ℕ) → i ≡ length xs → drop (i + n) (xs ++ ys) ≡ drop n ys
    drop_more [] ys i n e = ap (λ k. drop k ys) (omega arith)
    drop_more (x ∷ xs) ys zero n e = absurd (omega arith)
    drop_more (x ∷ xs) ys (suc i) n e = rw (shift i n) (drop_more xs ys i n (omega arith))
      where
        shift : (a b : ℕ) → suc a + b ≡ suc (a + b)
        shift a b = omega arith

-- The last write, which fills the block.
pub write_at_last :
    (done bytes rest : List ℕ) (i : ℕ)
    → i ≡ length done
    → length bytes ≡ length rest
    → write_at (done ++ rest) i bytes ≡ ok (done ++ bytes)
write_at_last done bytes rest i e h =
    rw
      (
        write_at-append done bytes rest i e (omega arith),
        drop_all rest (length bytes) h,
        append-nil bytes,
      )
      refl

-- A write that does not fit.
pub write_at_overflow :
    (block bytes : List ℕ) (i : ℕ)
    → length block < i + length bytes
    → write_at block i bytes ≡ undefined
unfolding write_at
write_at_overflow block bytes i h = ground arith

pub read_at_overflow :
    (block : List ℕ) (i n : ℕ) → length block < i + n → read_at block i n ≡ undefined
unfolding read_at
read_at_overflow block i n h = ground arith

-- Reading back a part of a concatenation.
pub read_at-append :
    (before bytes after : List ℕ) (i n : ℕ)
    → i ≡ length before
    → n ≡ length bytes
    → read_at (before ++ (bytes ++ after)) i n ≡ ok bytes
unfolding read_at
read_at-append before bytes after i n e k = rw (
  le→leb (i + n) (length (before ++ (bytes ++ after)))
      (omega (arith, length-append before (bytes ++ after), length-append bytes after)),
  drop-append before (bytes ++ after) i e,
  take-append bytes after n k,
)

pub read_at_end :
    (before bytes : List ℕ) (i n : ℕ)
    → i ≡ length before
    → n ≡ length bytes
    → read_at (before ++ bytes) i n ≡ ok bytes
read_at_end before bytes i n e k = rw (append-nil bytes) at (read_at-append before bytes [] i n e k)

-- The byte behind a first part.
pub load-append :
    (before : List ℕ) (b : ℕ) (after : List ℕ) (i : ℕ)
    → i ≡ length before
    → load (before ++ b ∷ after) i ≡ ok b
load-append [] b after zero e = refl
load-append [] b after (suc i) e = absurd (omega arith)
load-append (x ∷ xs) b after zero e = absurd (omega arith)
load-append (x ∷ xs) b after (suc i) e = load-append xs b after i (omega arith)

pub load_past : (block : List ℕ) (i : ℕ) → length block ≤ i → load block i ≡ undefined
load_past [] i h = refl
load_past (x ∷ xs) zero h = absurd (omega arith)
load_past (x ∷ xs) (suc i) h = load_past xs i (omega arith)

-- block[i] = b, inside of the block.
pub write_at-set :
    (block : List ℕ) (i b : ℕ) → i < length block → write_at block i (b ∷ []) ≡ ok (set block i b)
unfolding write_at
write_at-set block i b h =
    rw (le→leb (i + 1) (length block) (omega arith), split block i (i + 1) h (omega arith))
  where
    split :
        (xs : List ℕ) (k m : ℕ)
        → k < length xs
        → m ≡ suc k
        → take k xs ++ b ∷ drop m xs ≡ set xs k b
    split [] k m k< e = absurd (omega arith)
    split (x ∷ xs) k zero k< e = absurd (omega arith)
    split (x ∷ xs) zero (suc m) k< e = let none : m ≡ 0 = omega arith in rw none
    split (x ∷ xs) (suc k) (suc m) k< e = rw (split xs k m (omega arith) (omega arith))

pub load-in {ℓ} :
    {A : Type ℓ} (block : List A) (i : ℕ)
    → i < length block
    → (b : A) × (get_elem? block i ≡ some b)
load-in [] i h = absurd (omega arith)
load-in (x ∷ xs) zero h = (x, refl)
load-in (x ∷ xs) (suc i) h = load-in xs i (omega arith)
