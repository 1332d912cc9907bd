-- ===== src/Bencode/Decode.antt =====
-- The decoder of src/bencode.c. Its recursion is on fuel: one unit for each node, list element and
-- dictionary entry on the way down.
use soft_sys_dubstep_ducks.Prelude.{
  ℕ, zero, suc, ◌+◌, List, [], ◌∷◌, ◌++◌, Bool, true, false, Outcome, ok, undefined, out_of_fuel,
  ◌>>=◌, Option, none, some, length, read_at, ℤ, pos, negsuc, ◌-ℤ◌, ltb_ℤ, pos_part, is_digit,
  if◌then◌else◌, ◌==◌, get_elem?, or_undefined,
}
use soft_sys_dubstep_ducks.Bencode.Node.{
  BeNode, BeNodes, BeEntries, be_str, be_int, be_list, be_dict, no_nodes, node, no_entries, entry,
  no_value,
}
use soft_sys_dubstep_ducks.Bencode.Cursor.{Cursor, peek, skip, be_decode_int}

-- The text behind a length, if it is not negative, not longer than what is left, and has its colon.
unfoldable pub be_decode_str : Cursor → Outcome (Option (List ℕ) × Cursor)
unfolding peek
be_decode_str c = do
  r ← be_decode_int c
  let sllen = r.0
  let c₁ = r.1
  let text = do
    first ← peek c₁
    let body = do
      bytes ← read_at c₁.bytes 1 (pos_part sllen)
      c₂ ← skip (pos_part sllen + 1) c₁
      ok (some bytes, c₂)
    if first == b':' then body else ok (none, c₁)
  if ltb_ℤ sllen (pos 0)
      then ok (none, c₁)
      else if ltb_ℤ (c₁.data_len -ℤ pos 1) sllen
      then ok (none, c₁)
      else text

abbrev pub is_none {ℓ} : {A : Type ℓ} → Option A → Bool
is_none none = true
is_none (some a) = false

-- An entry of the array of a dictionary, whose value may be NULL.
abbrev pub entry_of : Option (List ℕ) → Option BeNode → BeEntries → BeEntries
entry_of k none es = no_value k es
entry_of k (some v) es = entry k v es

-- `first` says that nothing has been allocated yet: the NULL behind an empty list, or the entry
-- behind an empty dictionary, is written through a NULL pointer.
--
-- The test of a dictionary, `!ret->val.l[i]`, reads the array of entries as one of pointers: word 2k
-- is the key of entry k, and word 2k + 1 its value. `words` says of each word whether it is NULL.
unfoldable mutual
  unfolding peek

  pub be_decode_node : ℕ → Cursor → Outcome (Option BeNode × Cursor)
  be_decode_node zero c = out_of_fuel
  be_decode_node (suc fuel) c =
      let decode_list = do
        c₁ ← skip 1 c
        r ← be_decode_nodes fuel true c₁
        ok (some (be_list r.0), r.1)
      in let decode_dict = do
        c₁ ← skip 1 c
        r ← be_decode_entries fuel 0 [] c₁
        ok (some (be_dict r.0), r.1)
        in let decode_int = do
          c₁ ← skip 1 c
          r ← be_decode_int c₁
          last ← peek r.1
          let ended = (skip 1 r.1 >>= λ c₂. ok (some (be_int r.0), c₂))
          if last == b'e' then ended else ok (none, r.1)
          in let decode_str = do r ← be_decode_str c; ok (some (be_str r.0), r.1)
            in let decode_byte = do
              b ← peek c
              if b == b'l'
                  then decode_list
                  else (if b == b'd'
                      then decode_dict
                      else (if b == b'i'
                          then decode_int
                          else (if is_digit b then decode_str else ok (none, c))))
              in elim c.data_len [
                | pos n ↦ if n == 0 then ok (none, c) else decode_byte
                | negsuc n ↦ decode_byte
              ]

  pub be_decode_nodes : ℕ → Bool → Cursor → Outcome (BeNodes × Cursor)
  be_decode_nodes zero first c = out_of_fuel
  be_decode_nodes (suc fuel) first c =
      let close = do c₁ ← skip 1 c; ok (no_nodes, c₁)
      in let next = do
        r ← be_decode_node fuel c
        elim r.0 [
          | none ↦ (skip 1 r.1 >>= λ c₁. ok (no_nodes, c₁))
          | some n ↦ (be_decode_nodes fuel false r.1 >>= λ more. ok (node n more.0, more.1))
        ]
        in do b ← peek c; if b == b'e' then (if first then undefined else close) else next

  pub be_decode_entries : ℕ → ℕ → List Bool → Cursor → Outcome (BeEntries × Cursor)
  be_decode_entries zero i words c = out_of_fuel
  be_decode_entries (suc fuel) i words c =
      let close = do c₁ ← skip 1 c; ok (no_entries, c₁)
      in let next = do
        key ← be_decode_str c
        val ← be_decode_node fuel key.1
        let words' = words ++ is_none key.0 ∷ is_none val.0 ∷ []
        let more = be_decode_entries fuel (i + 1) words' val.1
        null ← or_undefined (get_elem? words' i)
        if null
            then (skip 1 val.1 >>= λ c₁. ok (no_value key.0 no_entries, c₁))
            else (more >>= λ m. ok (entry_of key.0 val.0 m.0, m.1))
        in do b ← peek c; if b == b'e' then (if i == 0 then undefined else close) else next

-- be_decoden: the tree at the head of a block of bytes.
unfoldable pub be_decoden : ℕ → List ℕ → ℤ → Outcome (Option BeNode)
unfolding be_decode_node
be_decoden fuel bytes len = do
  r ← be_decode_node fuel (record { bytes = bytes; data_len = len })
  ok r.0

-- be_decode, on a text and its NUL.
unfoldable pub be_decode : ℕ → List ℕ → Outcome (Option BeNode)
unfolding be_decoden
be_decode fuel text = be_decoden fuel (text ++ 0 ∷ []) (pos (length text))
