-- ===== src/Bencode/Free/Apart.antt =====
-- Heaps without some addresses, for be_free of src/bencode.c.
use soft_sys_dubstep_ducks.Prelude.{
  ℕ, ◌≡◌, refl, ap, fun_ext, List, [], ◌∷◌, ◌++◌, Bool, true, false, ◌||◌, ok, ◌>>=◌, Option, none,
  some, arith, All,
}
use soft_sys_dubstep_ducks.Bencode.Free.{Heap, elem, freed, free, be_free_str}

abbrev pub text_blocks : Option ℕ → List ℕ
text_blocks none = []
text_blocks (some p) = p ∷ []

-- A block stands at each address.
abbrev pub AreLive : Heap → List ℕ → Type 0
AreLive h = All (λ a. h a ≡ true)

-- No address stands in another list.
abbrev AreApart : List ℕ → List ℕ → Type 0
AreApart ys = All (λ x. elem x ys ≡ false)

abbrev pub AreDistinct : List ℕ → Type 0
AreDistinct [] = Unit
AreDistinct (x ∷ xs) = (elem x xs ≡ false) × AreDistinct xs

pub elem-append : (a : ℕ) (xs ys : List ℕ) → elem a (xs ++ ys) ≡ (elem a xs || elem a ys)
elem-append a [] ys = refl
elem-append a (x ∷ xs) ys = rw (elem-append a xs ys) (ground arith)

pub freed-freed : (h : Heap) (xs ys : List ℕ) → freed (freed h xs) ys ≡ freed h (xs ++ ys)
freed-freed h xs ys = fun_ext (λ a. rw (elem-append a xs ys) (ground arith))

-- The parts of a list of distinct addresses.
AreDistinct-append :
    (xs ys : List ℕ)
    → AreDistinct (xs ++ ys)
    → AreDistinct xs × AreDistinct ys × AreApart ys xs × AreApart xs ys
AreDistinct-append [] ys d = (tt, d, tt, apart_nil ys)
  where
    apart_nil : (zs : List ℕ) → AreApart [] zs
    apart_nil [] = tt
    apart_nil (z ∷ zs) = (refl, apart_nil zs)
AreDistinct-append (x ∷ xs) ys d =
    let rest = AreDistinct-append xs ys d.1 in
    let split = not_or (elem x xs) (elem x ys) (rw (elem-append x xs ys) at d.0) in
    ((split.0, rest.0), rest.1, (split.1, rest.2), apart_cons x xs ys split.1 rest.3)
  where
    not_or : (b c : Bool) → (b || c) ≡ false → (b ≡ false) × (c ≡ false)
    not_or b c h = ground arith

    apart_cons :
        (x : ℕ) (xs zs : List ℕ) → elem x zs ≡ false → AreApart xs zs → AreApart (x ∷ xs) zs
    apart_cons x xs [] out apart = tt
    apart_cons x xs (z ∷ zs) out apart =
        (ground (arith, apart.0), apart_cons x xs zs (ground arith) apart.1)

pub AreLive-append :
    (h : Heap) (xs ys : List ℕ) → AreLive h (xs ++ ys) → AreLive h xs × AreLive h ys
AreLive-append h [] ys l = (tt, l)
AreLive-append h (x ∷ xs) ys l = let rest = AreLive-append h xs ys l.1 in ((l.0, rest.0), rest.1)

-- What is apart from what is freed stays.
AreLive-freed :
    (h : Heap) (xs ys : List ℕ) → AreLive h ys → AreApart xs ys → AreLive (freed h xs) ys
AreLive-freed h xs [] l apart = tt
AreLive-freed h xs (y ∷ ys) l apart = (rw (l.0, apart.0) refl, AreLive-freed h xs ys l.1 apart.1)

pub free-live : (p : ℕ) (h : Heap) → h p ≡ true → free p h ≡ ok (freed h (p ∷ []))
unfolding free
free-live p h l = rw l

pub be_free_str-freed :
    (text : Option ℕ) (h : Heap)
    → AreLive h (text_blocks text)
    → be_free_str text h ≡ ok (freed h (text_blocks text))
unfolding be_free_str
be_free_str-freed none h l = ap ok (fun_ext (λ a. ground arith))
be_free_str-freed (some p) h l = free-live p h l.0

-- What is needed to free a first part of a list of addresses, and then the rest.
pub parts :
    (h : Heap) (xs ys : List ℕ)
    → AreLive h (xs ++ ys)
    → AreDistinct (xs ++ ys)
    → AreLive h xs × AreDistinct xs × AreLive (freed h xs) ys × AreDistinct ys
parts h xs ys l d =
    let live = AreLive-append h xs ys l in
    let distinct = AreDistinct-append xs ys d in
    (live.0, distinct.0, AreLive-freed h xs ys live.1 distinct.3, distinct.1)

pub freed_none : (h : Heap) → freed h [] ≡ h
freed_none h = fun_ext (λ a. ground arith)

-- The block of an array, read while other blocks are freed.
pub still_live :
    (h : Heap) (array : ℕ) (xs ys : List ℕ)
    → h array ≡ true
    → elem array (xs ++ ys) ≡ false
    → (freed h xs array ≡ true) × (elem array ys ≡ false)
still_live h array xs ys l out = let e = rw (elem-append array xs ys) at out in ground arith

-- The array and the node, behind what they hold.
pub free_last :
    (h : Heap) (xs : List ℕ) (array p : ℕ)
    → AreLive h (xs ++ array ∷ p ∷ [])
    → AreDistinct (xs ++ array ∷ p ∷ [])
    → (free array (freed h xs) >>= free p) ≡ ok (freed h (xs ++ array ∷ p ∷ []))
free_last h xs array p l d =
    let rest = parts h xs (array ∷ p ∷ []) l d in
    let last = parts (freed h xs) (array ∷ []) (p ∷ []) rest.2 rest.3 in
    rw
      (
        free-live array (freed h xs) rest.2.0,
        free-live p (freed (freed h xs) (array ∷ [])) last.2.0,
        freed-freed (freed h xs) (array ∷ []) (p ∷ []),
        freed-freed h xs (array ∷ p ∷ []),
      )
      refl

-- The block of a node and that of its array are there to begin with, and apart from the rest.
pub last_live :
    (h : Heap) (xs : List ℕ) (array p : ℕ)
    → AreLive h (xs ++ array ∷ p ∷ [])
    → AreDistinct (xs ++ array ∷ p ∷ [])
    → (h array ≡ true) × (h p ≡ true) × (elem array xs ≡ false)
last_live h xs array p l d =
    let live = AreLive-append h xs (array ∷ p ∷ []) l in
    let distinct = AreDistinct-append xs (array ∷ p ∷ []) d in (live.1.0, live.1.1.0, distinct.3.0)
