-- ===== src/Bencode/Free/Once.antt =====
-- be_free of src/bencode.c frees each block of a tree once.
use soft_sys_dubstep_ducks.Prelude.{
  ℕ, ◌≡◌, refl, List, [], ◌∷◌, ◌++◌, true, false, ◌&&◌, not, ok, undefined, arith,
}
use soft_sys_dubstep_ducks.Bencode.Free.Apart.{
  text_blocks, AreLive, AreDistinct, elem-append, freed-freed, be_free_str-freed, parts, freed_none,
  still_live, free_last, last_live, free-live, AreLive-append,
}
use soft_sys_dubstep_ducks.Bencode.Free.{
  Blocks, str_at, int_at, list_at, dict_at, ListBlocks, no_more, element_at, DictBlocks, no_entry,
  entry_at, no_value_at, Heap, elem, freed, be_free, be_free_elements, be_free_entries,
}

-- The addresses that a walk over a tree meets.
unfoldable mutual
  pub blocks : Blocks → List ℕ
  blocks (str_at p text) = text_blocks text ++ p ∷ []
  blocks (int_at p) = p ∷ []
  blocks (list_at p array elements) = element_blocks elements ++ array ∷ p ∷ []
  blocks (dict_at p array entries) = entry_blocks entries ++ array ∷ p ∷ []

  pub element_blocks : ListBlocks → List ℕ
  element_blocks no_more = []
  element_blocks (element_at n ns) = blocks n ++ element_blocks ns

  pub entry_blocks : DictBlocks → List ℕ
  entry_blocks no_entry = []
  entry_blocks (no_value_at key es) = []
  entry_blocks (entry_at key val es) = text_blocks key ++ (blocks val ++ entry_blocks es)

mutual
  unfolding be_free blocks

  be_free-freed :
      (t : Blocks) (h : Heap)
      → AreLive h (blocks t)
      → AreDistinct (blocks t)
      → be_free t h ≡ ok (freed h (blocks t))
  be_free-freed (str_at p text) h l d =
      let live = AreLive-append h (text_blocks text) (p ∷ []) l in
      let rest = parts h (text_blocks text) (p ∷ []) l d in
      rw
        (
          live.1.0,
          be_free_str-freed text h live.0,
          free-live p (freed h (text_blocks text)) rest.2.0,
          freed-freed h (text_blocks text) (p ∷ []),
        )
        refl
  be_free-freed (int_at p) h l d = rw l.0 refl
  be_free-freed (list_at p array elements) h l d =
      let xs = element_blocks elements in
      let rest = parts h xs (array ∷ p ∷ []) l d in
      let last = last_live h xs array p l d in
      rw
        (
          last.1,
          be_free_elements-freed array elements h last.0 last.2 rest.0 rest.1,
          free_last h xs array p l d,
        )
        refl
  be_free-freed (dict_at p array entries) h l d =
      let xs = entry_blocks entries in
      let rest = parts h xs (array ∷ p ∷ []) l d in
      let last = last_live h xs array p l d in
      rw
        (
          last.1,
          be_free_entries-freed array entries h last.0 last.2 rest.0 rest.1,
          free_last h xs array p l d,
        )
        refl

  be_free_elements-freed :
      (array : ℕ) (ns : ListBlocks) (h : Heap)
      → h array ≡ true
      → elem array (element_blocks ns) ≡ false
      → AreLive h (element_blocks ns)
      → AreDistinct (element_blocks ns)
      → be_free_elements array ns h ≡ ok (freed h (element_blocks ns))
  be_free_elements-freed array no_more h r out l d = rw (r, freed_none h) refl
  be_free_elements-freed array (element_at n ns) h r out l d =
      let xs = blocks n in
      let rest = parts h xs (element_blocks ns) l d in
      let read = still_live h array xs (element_blocks ns) r out in
      rw
        (
          r,
          be_free-freed n h rest.0 rest.1,
          be_free_elements-freed array ns (freed h xs) read.0 read.1 rest.2 rest.3,
          freed-freed h xs (element_blocks ns),
        )
        refl

  be_free_entries-freed :
      (array : ℕ) (es : DictBlocks) (h : Heap)
      → h array ≡ true
      → elem array (entry_blocks es) ≡ false
      → AreLive h (entry_blocks es)
      → AreDistinct (entry_blocks es)
      → be_free_entries array es h ≡ ok (freed h (entry_blocks es))
  be_free_entries-freed array no_entry h r out l d = rw (r, freed_none h) refl
  be_free_entries-freed array (no_value_at key es) h r out l d = rw (r, freed_none h) refl
  be_free_entries-freed array (entry_at key val es) h r out l d =
      let xs = text_blocks key in
      let ys = blocks val in
      let rest = parts h xs (ys ++ entry_blocks es) l d in
      let more = parts (freed h xs) ys (entry_blocks es) rest.2 rest.3 in
      let read = still_live h array xs (ys ++ entry_blocks es) r out in
      let read' = still_live (freed h xs) array ys (entry_blocks es) read.0 read.1 in
      rw
        (
          r,
          be_free_str-freed key h rest.0,
          be_free-freed val (freed h xs) more.0 more.1,
          be_free_entries-freed array es (freed (freed h xs) ys) read'.0 read'.1 more.2 more.3,
          freed-freed (freed h xs) ys (entry_blocks es),
          freed-freed h xs (ys ++ entry_blocks es),
        )
        refl

-- The root of a tree is among its blocks.
root : Blocks → ℕ
root (str_at p text) = p
root (int_at p) = p
root (list_at p array elements) = p
root (dict_at p array entries) = p

elem_last : (a : ℕ) (xs ys : List ℕ) → elem a ys ≡ true → elem a (xs ++ ys) ≡ true
elem_last a xs ys h = rw (elem-append a xs ys) (ground arith)

root-elem : (t : Blocks) → elem (root t) (blocks t) ≡ true
unfolding root blocks
root-elem (str_at p text) = elem_last p (text_blocks text) (p ∷ []) (ground arith)
root-elem (int_at p) = ground arith
root-elem (list_at p array elements) =
    elem_last p (element_blocks elements) (array ∷ p ∷ []) (ground arith)
root-elem (dict_at p array entries) =
    elem_last p (entry_blocks entries) (array ∷ p ∷ []) (ground arith)

be_free_dangling : (t : Blocks) (h : Heap) → h (root t) ≡ false → be_free t h ≡ undefined
unfolding root be_free
be_free_dangling (str_at p text) h gone = rw gone
be_free_dangling (int_at p) h gone = rw gone
be_free_dangling (list_at p array elements) h gone = rw gone
be_free_dangling (dict_at p array entries) h gone = rw gone

-- be_free of a tree whose blocks stand at distinct addresses frees each of them, and no other block;
-- the key of an entry whose value is NULL, and what stands behind it, is not among them. Freeing the
-- tree a second time is undefined.
pub be_free_once :
    (t : Blocks) (h : Heap)
    → AreLive h (blocks t)
    → AreDistinct (blocks t)
    → (h' : Heap) × (be_free t h ≡ ok h')
      × ((a : ℕ) → h' a ≡ (h a && not (elem a (blocks t))))
      × (be_free t h' ≡ undefined)
be_free_once t h l d = (
  freed h (blocks t),
  be_free-freed t h l d,
  λ a. refl,
  be_free_dangling t (freed h (blocks t)) (rw (root-elem t) (ground arith)),
)
