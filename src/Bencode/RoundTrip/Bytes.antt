-- ===== src/Bencode/RoundTrip/Bytes.antt =====
-- One step of the decoder of src/bencode.c, by the byte at the cursor.
use soft_sys_dubstep_ducks.Prelude.{
  ℕ, suc, ◌+◌, ◌-◌, ◌≤◌, ◌≡◌, List, [], ◌∷◌, ◌++◌, Bool, true, false, ok, ◌>>=◌, some, ℤ, is_digit,
  arith, ◌==◌, ==_ne, get_elem?,
}
use soft_sys_dubstep_ducks.Bencode.Node.{
  BeNode, be_str, be_int, be_list, be_dict, no_nodes, node, no_entries, entry,
}
use soft_sys_dubstep_ducks.Bencode.Cursor.{Cursor, be_decode_int}
use soft_sys_dubstep_ducks.Bencode.Decode.{
  be_decode_str, be_decode_node, be_decode_nodes, be_decode_entries,
}
use soft_sys_dubstep_ducks.Bencode.RoundTrip.Texts.{at, skip_one, Opens}

digit_bytes :
    (d : ℕ)
    → is_digit d ≡ true
    → ((d == b'l') ≡ false) × ((d == b'd') ≡ false) × ((d == b'i') ≡ false)
digit_bytes d h = ground arith

module _ (fuel : ℕ) (rest : List ℕ) (len : ℕ) (some_left : 1 ≤ len) where
  pub be_decode_node_str :
      (d : ℕ)
      → is_digit d ≡ true
      → be_decode_node (suc fuel) (at (d ∷ rest) len)
        ≡ (be_decode_str (at (d ∷ rest) len) >>= λ r. ok (some (be_str r.0), r.1))
  unfolding be_decode_node
  be_decode_node_str d h =
      let (l, dict, i) = digit_bytes d h in rw (==_ne len 0 (λ z. omega arith), l, dict, i, h)

  pub be_decode_node_list :
      be_decode_node (suc fuel) (at (b'l' ∷ rest) len)
      ≡ (be_decode_nodes fuel true (at rest (len - 1)) >>= λ r. ok (some (be_list r.0), r.1))
  unfolding be_decode_node
  be_decode_node_list = rw (==_ne len 0 (λ z. omega arith), skip_one b'l' rest len some_left)

  pub be_decode_node_dict :
      be_decode_node (suc fuel) (at (b'd' ∷ rest) len)
      ≡ (be_decode_entries fuel 0 [] (at rest (len - 1)) >>= λ r. ok (some (be_dict r.0), r.1))
  unfolding be_decode_node
  be_decode_node_dict = rw (==_ne len 0 (λ z. omega arith), skip_one b'd' rest len some_left)

  pub be_decode_node_int :
      (n : ℤ) (behind : List ℕ) (left : ℕ)
      → 1 ≤ left
      → be_decode_int (at rest (len - 1)) ≡ ok (n, at (b'e' ∷ behind) left)
      → be_decode_node (suc fuel) (at (b'i' ∷ rest) len)
        ≡ ok (some (be_int n), at behind (left - 1))
  unfolding be_decode_node
  be_decode_node_int n behind left h e = rw (
    ==_ne len 0 (λ z. omega arith),
    skip_one b'i' rest len some_left,
    e,
    skip_one b'e' behind left h,
  )

  pub be_decode_nodes_close :
      be_decode_nodes (suc fuel) false (at (b'e' ∷ rest) len) ≡ ok (no_nodes, at rest (len - 1))
  unfolding be_decode_nodes
  be_decode_nodes_close = rw (skip_one b'e' rest len some_left)

  pub be_decode_entries_close :
      (i : ℕ) (words : List Bool)
      → (i == 0) ≡ false
      → be_decode_entries (suc fuel) i words (at (b'e' ∷ rest) len)
        ≡ ok (no_entries, at rest (len - 1))
  unfolding be_decode_entries
  be_decode_entries_close i words h = rw (h, skip_one b'e' rest len some_left)

-- A list goes on with a node that is there.
nodes_next :
    (fuel : ℕ) (first : Bool) (b : ℕ) (bs : List ℕ) (len : ℕ) (v : BeNode) (c : Cursor)
    → (b == b'e') ≡ false
    → be_decode_node fuel (at (b ∷ bs) len) ≡ ok (some v, c)
    → be_decode_nodes (suc fuel) first (at (b ∷ bs) len)
      ≡ (be_decode_nodes fuel false c >>= λ more. ok (node v more.0, more.1))
unfolding be_decode_nodes
nodes_next fuel first b bs len v c h e = rw (h, e)

pub be_decode_nodes_next :
    (fuel : ℕ) (first : Bool) (xs : List ℕ) (len : ℕ) (v : BeNode) (c : Cursor)
    → Opens xs
    → be_decode_node fuel (at xs len) ≡ ok (some v, c)
    → be_decode_nodes (suc fuel) first (at xs len)
      ≡ (be_decode_nodes fuel false c >>= λ more. ok (node v more.0, more.1))
be_decode_nodes_next fuel first xs len v c (b, bs, e, o) h =
    rw e (nodes_next fuel first b bs len v c o (rw e at h))

-- A dictionary goes on with an entry if the word that is tested is not NULL.
entries_next :
    (fuel i : ℕ) (words : List Bool) (b : ℕ) (bs : List ℕ) (len : ℕ) (k : List ℕ) (v : BeNode)
    (c₁ c₂ : Cursor)
    → (b == b'e') ≡ false
    → be_decode_str (at (b ∷ bs) len) ≡ ok (some k, c₁)
    → be_decode_node fuel c₁ ≡ ok (some v, c₂)
    → get_elem? (words ++ false ∷ false ∷ []) i ≡ some false
    → be_decode_entries (suc fuel) i words (at (b ∷ bs) len) ≡ (
        be_decode_entries fuel (i + 1) (words ++ false ∷ false ∷ []) c₂ >>= λ m.
        ok (entry (some k) v m.0, m.1))
unfolding be_decode_entries
entries_next fuel i words b bs len k v c₁ c₂ h e₁ e₂ w = rw (h, e₁, e₂, w)

pub be_decode_entries_next :
    (fuel i : ℕ) (words : List Bool) (xs : List ℕ) (len : ℕ) (k : List ℕ) (v : BeNode)
    (c₁ c₂ : Cursor)
    → Opens xs
    → be_decode_str (at xs len) ≡ ok (some k, c₁)
    → be_decode_node fuel c₁ ≡ ok (some v, c₂)
    → get_elem? (words ++ false ∷ false ∷ []) i ≡ some false
    → be_decode_entries (suc fuel) i words (at xs len) ≡ (
        be_decode_entries fuel (i + 1) (words ++ false ∷ false ∷ []) c₂ >>= λ m.
        ok (entry (some k) v m.0, m.1))
be_decode_entries_next fuel i words xs len k v c₁ c₂ (b, bs, e, o) e₁ e₂ w =
    rw e (entries_next fuel i words b bs len k v c₁ c₂ o (rw e at e₁) e₂ w)
