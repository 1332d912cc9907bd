-- ===== src/Bencode/Ends/Decoding.antt =====
-- The decoder of src/bencode.c on any input, well formed or not.
use soft_sys_dubstep_ducks.Prelude.{
  ℕ, zero, suc, ◌+◌, ◌-◌, ◌*◌, ◌≤◌, ◌≡◌, ◌≢◌, refl, List, [], ◌∷◌, ◌++◌, Bool, true, false, Outcome,
  ok, out_of_fuel, ◌>>=◌, Option, none, some, arith, length, ℤ, pos, negsuc, is_digit,
  if◌then◌else◌, ◌==◌, get_elem?, or_undefined, subst,
}
use soft_sys_dubstep_ducks.Bencode.Node.{
  BeNode, BeNodes, BeEntries, be_str, be_int, be_list, be_dict, no_nodes, node, no_entries,
  no_value,
}
use soft_sys_dubstep_ducks.Bencode.Cursor.{Cursor, peek, skip, be_decode_int}
use soft_sys_dubstep_ducks.Bencode.Decode.{
  be_decode_str, is_none, entry_of, be_decode_node, be_decode_nodes, be_decode_entries, be_decoden,
}
use soft_sys_dubstep_ducks.Bencode.Ends.{
  Ends, Ends-bind, Ends-if, Ends-if_eq, Ends-mono, Ends-ok, Ends-undefined,
}
use soft_sys_dubstep_ducks.Bencode.Ends.Reading.{
  left, weight, FirstIs, FirstIs-length, be_decode_str-takes, peek-Ends, skip-Ends,
  be_decode_int-Ends, be_decode_str-Ends,
}

-- The words that are not NULL.
unfoldable falses : List Bool → ℕ
falses [] = 0
falses (w ∷ ws) = (if w then 0 else 1) + falses ws

falses-append : (ws vs : List Bool) → falses (ws ++ vs) ≡ falses ws + falses vs
unfolding falses
falses-append [] vs = omega arith
falses-append (w ∷ ws) vs = omega (arith, falses-append ws vs)

falses-entry :
    (ws : List Bool) (key : Option (List ℕ)) (val : Option BeNode)
    → falses (ws ++ is_none key ∷ is_none val ∷ []) ≡ falses ws + weight key + weight val
falses-entry ws key val = omega (arith, falses-append ws (is_none key ∷ is_none val ∷ []), last_two)
  where
    last_two : falses (is_none key ∷ is_none val ∷ []) ≡ weight key + weight val
    last_two = unfold falses in omega arith

-- The first i words are not NULL.
abbrev Taken : ℕ → List Bool → Type 0
Taken zero ws = Unit
Taken (suc i) [] = ⊥
Taken (suc i) (w ∷ ws) = (w ≡ false) × Taken i ws

Taken-falses : (i : ℕ) (ws : List Bool) → Taken i ws → i ≤ falses ws
unfolding falses
Taken-falses zero ws t = omega arith
Taken-falses (suc i) [] t = absurd t
Taken-falses (suc i) (w ∷ ws) t = rw t.0 (omega (arith, Taken-falses i ws t.1))

Taken-append : (i : ℕ) (ws vs : List Bool) → Taken i ws → Taken i (ws ++ vs)
Taken-append zero ws vs t = tt
Taken-append (suc i) [] vs t = absurd t
Taken-append (suc i) (w ∷ ws) vs t = (t.0, Taken-append i ws vs t.1)

Taken-suc : (i : ℕ) (ws : List Bool) → Taken i ws → get_elem? ws i ≡ some false → Taken (suc i) ws
Taken-suc zero [] t e = cc
Taken-suc zero (w ∷ ws) t e = (some-eq e, tt)
  where
    some-eq : {a b : Bool} → some a ≡ some b → a ≡ b
    some-eq p = cc
Taken-suc (suc i) [] t e = absurd t
Taken-suc (suc i) (w ∷ ws) t e = (t.0, Taken-suc i ws t.1 e)

Taken-next : (i : ℕ) (ws : List Bool) → Taken i ws → get_elem? ws i ≡ some false → Taken (i + 1) ws
Taken-next i ws t e = subst (λ n. Taken n ws) {x = suc i} (omega arith) (Taken-suc i ws t e)

or_undefined-Ends : {A : Type 0} (o : Option A) → Ends (λ a. o ≡ some a) (or_undefined o)
or_undefined-Ends none = Ends-undefined _
or_undefined-Ends (some a) = Ends-ok _ a refl

-- What is left behind a node, the nodes of a list, the entries of a dictionary.
abbrev NodeLeaves : ℕ → Option BeNode × Cursor → Type 0
NodeLeaves n r = left r.1 + weight r.0 ≤ n

abbrev NodesLeave : ℕ → BeNodes × Cursor → Type 0
NodesLeave n r = left r.1 ≤ n

abbrev EntriesLeave : ℕ → BeEntries × Cursor → Type 0
EntriesLeave n r = left r.1 ≤ n

no_falses : (n : ℕ) → falses [] + n ≤ n
no_falses n = unfold falses in omega arith

by_length :
    {A : Type 0} (P : A → Type 0) (len : ℤ) (m n : Outcome A)
    → Ends P m
    → Ends P n
    → Ends P (elim len [ pos k ↦ if k == 0 then m else n | negsuc k ↦ n ])
by_length P (pos k) m n p q = Ends-if P (k == 0) m n p q
by_length P (negsuc k) m n p q = q

-- The end of a list, or the nodes behind the first.
next_node :
    (fuel n : ℕ) (o : Option BeNode) (c : Cursor)
    → NodeLeaves n (o, c)
    → (left c + 1 ≤ n → Ends (NodesLeave (left c)) (be_decode_nodes fuel false c))
    → Ends (NodesLeave n) (elim o [
      | none ↦ (skip 1 c >>= λ c₁. ok (no_nodes, c₁))
      | some v ↦ (be_decode_nodes fuel false c >>= λ more. ok (node v more.0, more.1))
    ])
next_node fuel n none c p more =
    Ends-bind _ _ (skip 1 c) _ (skip-Ends 1 c) (λ c₁ q. Ends-ok _ _ (omega arith))
next_node fuel n (some v) c p more =
    Ends-bind (NodesLeave (left c)) _ (be_decode_nodes fuel false c) _ (more p)
      (λ r q. Ends-ok _ _ (omega arith))

-- The end of a dictionary, or the entries behind the first.
next_entry :
    (n : ℕ) (null : Bool) (key : Option (List ℕ)) (val : Option BeNode) (c : Cursor)
    (more : Outcome (BeEntries × Cursor))
    → left c ≤ n
    → (null ≡ false → Ends (EntriesLeave n) more)
    → Ends (EntriesLeave n) (
        if null
        then (skip 1 c >>= λ c₁. ok (no_value key no_entries, c₁))
        else (more >>= λ m. ok (entry_of key val m.0, m.1)))
next_entry n true key val c more h rest =
    Ends-bind _ _ (skip 1 c) _ (skip-Ends 1 c) (λ c₁ q. Ends-ok _ _ (omega arith))
next_entry n false key val c more h rest =
    Ends-bind (EntriesLeave n) _ more _ (rest refl) (λ m q. Ends-ok _ _ q)

mutual
  unfolding be_decode_node

  node-Ends :
      (fuel : ℕ) (c : Cursor)
      → 3 * left c + 2 ≤ fuel
      → Ends (NodeLeaves (left c)) (be_decode_node fuel c)
  node-Ends zero c h = absurd (omega arith)
  node-Ends (suc fuel) c h =
      let P = NodeLeaves (left c) in
      by_length P c.data_len (ok (none, c)) _ (Ends-ok P (none, c) (omega arith)) (
        Ends-bind (λ b. FirstIs b c.bytes) P (peek c) _ (peek-Ends c)
          (λ b first_is.
            Ends-if P (b == b'l') _ _
              (Ends-bind _ P (skip 1 c) _ (skip-Ends 1 c) (λ c₁ p.
                Ends-bind (NodesLeave (left c₁)) P (be_decode_nodes fuel true c₁) _
                  (nodes-Ends fuel true c₁ (omega arith))
                  (λ r q. Ends-ok P (some (be_list r.0), r.1) (omega arith))))
              (Ends-if P (b == b'd') _ _
                (Ends-bind _ P (skip 1 c) _ (skip-Ends 1 c) (λ c₁ p.
                  Ends-bind (EntriesLeave (left c₁)) P (be_decode_entries fuel 0 [] c₁) _
                    (entries-Ends fuel (left c₁) 0 [] c₁ (omega arith) tt (no_falses (left c₁)))
                    (λ r q. Ends-ok P (some (be_dict r.0), r.1) (omega arith))))
                (Ends-if P (b == b'i') _ _
                  (Ends-bind _ P (skip 1 c) _ (skip-Ends 1 c) (λ c₁ p.
                    Ends-bind _ P (be_decode_int c₁) _ (be_decode_int-Ends c₁) (λ r q.
                      Ends-bind _ P (peek r.1) _ (peek-Ends r.1) (λ last t.
                        Ends-if P (last == b'e') _ _
                          (Ends-bind _ P (skip 1 r.1) _ (skip-Ends 1 r.1)
                            (λ c₂ u. Ends-ok P (some (be_int r.0), c₂) (omega arith)))
                          (Ends-ok P (none, r.1) (omega arith))))))
                  (Ends-if_eq P (is_digit b) _ _
                    (λ d.
                      Ends-bind _ P (be_decode_str c) _ (be_decode_str-takes b c first_is d)
                        (λ r q. Ends-ok P (some (be_str r.0), r.1) (omega arith)))
                    (Ends-ok P (none, c) (omega arith)))))))

  nodes-Ends :
      (fuel : ℕ) (first : Bool) (c : Cursor)
      → 3 * left c + 3 ≤ fuel
      → Ends (NodesLeave (left c)) (be_decode_nodes fuel first c)
  nodes-Ends zero first c h = absurd (omega arith)
  nodes-Ends (suc fuel) first c h =
      let P = NodesLeave (left c) in
      Ends-bind _ P (peek c) _ (peek-Ends c) (λ b first_is.
        Ends-if P (b == b'e') _ _
          (Ends-if P first _ _ (Ends-undefined P) (
            Ends-bind _ P (skip 1 c) _ (skip-Ends 1 c)
              (λ c₁ p. Ends-ok P (no_nodes, c₁) (omega arith))))
          (Ends-bind (NodeLeaves (left c)) P (be_decode_node fuel c) _
            (node-Ends fuel c (omega arith))
            (λ r p.
              next_node fuel (left c) r.0 r.1 p (λ took. nodes-Ends fuel false r.1 (omega arith)))))

  entries-Ends :
      (fuel total i : ℕ) (words : List Bool) (c : Cursor)
      → 3 * (total - i) + 3 ≤ fuel
      → Taken i words
      → falses words + left c ≤ total
      → Ends (EntriesLeave (left c)) (be_decode_entries fuel i words c)
  entries-Ends zero total i words c h t f = absurd (omega arith)
  entries-Ends (suc fuel) total i words c h t f =
      let P = EntriesLeave (left c) in
      Ends-bind _ P (peek c) _ (peek-Ends c) (λ b first_is.
        Ends-if P (b == b'e') _ _
          (Ends-if P (i == 0) _ _ (Ends-undefined P) (
            Ends-bind _ P (skip 1 c) _ (skip-Ends 1 c)
              (λ c₁ p. Ends-ok P (no_entries, c₁) (omega arith))))
          (Ends-bind _ P (be_decode_str c) _ (be_decode_str-Ends c) (λ key p.
            Ends-bind (NodeLeaves (left key.1)) P (be_decode_node fuel key.1) _
              (node-Ends fuel key.1 (omega (arith, Taken-falses i words t)))
              (λ val q.
                let words' = words ++ is_none key.0 ∷ is_none val.0 ∷ [] in
                Ends-bind _ P (or_undefined (get_elem? words' i)) _
                  (or_undefined-Ends (get_elem? words' i))
                  (λ null e.
                    next_entry (left c) null key.0 val.0 val.1
                      (be_decode_entries fuel (i + 1) words' val.1) (omega arith)
                      (λ found.
                        Ends-mono _ _ _
                          (entries-Ends fuel total (i + 1) words' val.1
                            (omega
                              (arith, Taken-falses i words t, FirstIs-length b c.bytes first_is))
                            (Taken-next i words'
                              (Taken-append i words (is_none key.0 ∷ is_none val.0 ∷ []) t)
                              (rw found at e))
                            (omega (arith, falses-entry words key.0 val.0)))
                          (λ r u. omega arith)))))))

Ends-terminates : {A : Type 0} (P : A → Type 0) (m : Outcome A) → Ends P m → m ≢ out_of_fuel
unfolding Ends
Ends-terminates P m p e = rw e at p

-- On every block of bytes and with every length, well formed or not, three units of fuel for each
-- byte and two more are enough: the decoder ends.
pub be_decoden_ends :
    (fuel : ℕ) (bytes : List ℕ) (len : ℤ)
    → 3 * length bytes + 2 ≤ fuel
    → be_decoden fuel bytes len ≢ out_of_fuel
unfolding be_decoden
be_decoden_ends fuel bytes len h =
    Ends-terminates (λ o. Unit) _
      (Ends-bind _ (λ o. Unit) (be_decode_node fuel c) _ (node-Ends fuel c h)
        (λ r p. Ends-ok _ r.0 tt))
  where
    c : Cursor
    c = record { bytes = bytes; data_len = len }
