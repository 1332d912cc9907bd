-- ===== src/Bencode/Free.antt =====
-- be_free of src/bencode.c: the blocks of a tree are given back. A heap says of each address whether
-- a block that is not freed yet stands there; reading a block, or freeing one, that does not stand
-- there is undefined.
pub mod Apart
pub mod Once
use soft_sys_dubstep_ducks.Prelude.{
  ℕ, List, [], ◌∷◌, ◌++◌, Bool, true, false, ◌&&◌, ◌||◌, not, Outcome, ok, undefined, ◌>>=◌, ◌>>◌,
  require, Option, none, some, if◌then◌else◌, ◌==◌,
}

-- The addresses of a tree: of each node its block, and that of its text, if there is one, or of its
-- array; in a dictionary, that of each key.
mutual
  pub data Blocks : Type 0 where
    str_at : ℕ → Option ℕ → Blocks
    int_at : ℕ → Blocks
    list_at : ℕ → ℕ → ListBlocks → Blocks
    dict_at : ℕ → ℕ → DictBlocks → Blocks

  pub data ListBlocks : Type 0 where
    no_more : ListBlocks
    element_at : Blocks → ListBlocks → ListBlocks

  pub data DictBlocks : Type 0 where
    no_entry : DictBlocks
    entry_at : Option ℕ → Blocks → DictBlocks → DictBlocks
    no_value_at : Option ℕ → DictBlocks → DictBlocks

abbrev pub Heap : Type 0
Heap = ℕ → Bool

abbrev pub elem : ℕ → List ℕ → Bool
elem a [] = false
elem a (x ∷ xs) = a == x || elem a xs

-- The heap without some addresses.
abbrev pub freed : Heap → List ℕ → Heap
freed h addresses a = h a && not (elem a addresses)

unfoldable pub free : ℕ → Heap → Outcome Heap
free p h = if h p then ok (freed h (p ∷ [])) else undefined

-- _be_free_str
unfoldable pub be_free_str : Option ℕ → Heap → Outcome Heap
unfolding free
be_free_str none h = ok h
be_free_str (some p) h = free p h

-- The type of a node, and an entry of an array, are read at their block.
unfoldable mutual
  unfolding be_free_str

  pub be_free : Blocks → Heap → Outcome Heap
  be_free (str_at p text) h = do require (h p); h₁ ← be_free_str text h; free p h₁
  be_free (int_at p) h = do require (h p); free p h
  be_free (list_at p array elements) h = do
    require (h p)
    h₁ ← be_free_elements array elements h
    h₂ ← free array h₁
    free p h₂
  be_free (dict_at p array entries) h = do
    require (h p)
    h₁ ← be_free_entries array entries h
    h₂ ← free array h₁
    free p h₂

  pub be_free_elements : ℕ → ListBlocks → Heap → Outcome Heap
  be_free_elements array no_more h = do require (h array); ok h
  be_free_elements array (element_at n ns) h = do
    require (h array)
    h₁ ← be_free n h
    be_free_elements array ns h₁

  -- The walk ends at the first entry without a value, and its key is not freed.
  pub be_free_entries : ℕ → DictBlocks → Heap → Outcome Heap
  be_free_entries array no_entry h = do require (h array); ok h
  be_free_entries array (no_value_at key es) h = do require (h array); ok h
  be_free_entries array (entry_at key val es) h = do
    require (h array)
    h₁ ← be_free_str key h
    h₂ ← be_free val h₁
    be_free_entries array es h₂
