-- ===== src/Bencode/RoundTrip/Trees.antt =====
-- The decoder of src/bencode.c on the encoding of a tree.
use soft_sys_dubstep_ducks.Prelude.{
  ℕ, zero, suc, ◌+◌, ◌-◌, ◌*◌, ◌≤◌, ◌<◌, ◌≡◌, refl, ap, ◌∙◌, List, [], ◌∷◌, ◌++◌, Bool, true, false,
  Outcome, ok, undefined, none, some, length, pos, arith, get_elem?, All, length-append,
  append_assoc, ==_ne,
}
use soft_sys_dubstep_ducks.Bencode.Node.{
  BeNode, BeNodes, BeEntries, be_str, be_int, be_list, be_dict, no_nodes, node, no_entries, entry,
  no_value,
}
use soft_sys_dubstep_ducks.Bencode.Cursor.{Cursor}
use soft_sys_dubstep_ducks.Bencode.Decode.{
  be_decode_node, be_decode_nodes, be_decode_entries, be_decoden, be_decode,
}
use soft_sys_dubstep_ducks.Bencode.Print.{
  print, print_nodes, print_entries, print_str, print_int, IsPrintable, ArePrintable,
  EntriesPrintable, is_empty, is_bare,
}
use soft_sys_dubstep_ducks.Bencode.RoundTrip.Numbers.{be_decode_int-print_int, decimal-DigitFirst}
use soft_sys_dubstep_ducks.Bencode.RoundTrip.Texts.{
  at, be_decode_str-print_str, print-Opens, print_str-Opens, append-Opens, length-Opens,
}
use soft_sys_dubstep_ducks.Bencode.RoundTrip.Bytes.{
  be_decode_node_str, be_decode_node_list, be_decode_node_dict, be_decode_node_int,
  be_decode_nodes_close, be_decode_entries_close, be_decode_nodes_next, be_decode_entries_next,
}

-- The words of the entries so far: two for each, none of them NULL.
abbrev NoneNull : ℕ → List Bool → Type 0
NoneNull i words = (length words ≡ 2 * i) × All (λ w. w ≡ false) words

word_not_null :
    (words : List Bool) (i : ℕ)
    → i < length words
    → All (λ w. w ≡ false) words
    → get_elem? words i ≡ some false
word_not_null [] i h all = absurd (omega arith)
word_not_null (w ∷ ws) zero h all = ap some all.0
word_not_null (w ∷ ws) (suc i) h all = word_not_null ws i (omega arith) all.1

All-two :
    (words : List Bool)
    → All (λ w. w ≡ false) words
    → All (λ w. w ≡ false) (words ++ false ∷ false ∷ [])
All-two [] h = (refl, (refl, tt))
All-two (w ∷ ws) h = (h.0, All-two ws h.1)

NoneNull-next :
    (i : ℕ) (words : List Bool) → NoneNull i words → NoneNull (i + 1) (words ++ false ∷ false ∷ [])
NoneNull-next i words h =
    (omega (arith, length-append words (false ∷ false ∷ [])), All-two words h.1)

-- The decoder over the printed text at the head of a cursor.
abbrev Reads {ℓ} : {A : Type ℓ} → (Cursor → Outcome (A × Cursor)) → List ℕ → A → Type ℓ
Reads decode printed a =
    (rest : List ℕ) (len : ℕ)
    → length printed ≤ len
    → decode (at (printed ++ rest) len) ≡ ok (a, at rest (len - length printed))

Reads-str :
    (fuel : ℕ) (bytes : List ℕ)
    → IsPrintable (be_str (some bytes))
    → Reads (be_decode_node (suc fuel)) (print_str bytes) (some (be_str (some bytes)))
Reads-str fuel bytes p rest len h =
    let (d, ds, e, digit) = decimal-DigitFirst (length bytes) in
    let printed : print_str bytes ++ rest ≡ d ∷ (ds ++ b':' ∷ (bytes ++ rest)) =
      append_assoc _ _ rest ∙ ap (λ l. l ++ b':' ∷ (bytes ++ rest)) e in
    let room = length-Opens (print_str bytes) (print_str-Opens bytes) in
    let read = be_decode_node_str fuel (ds ++ b':' ∷ (bytes ++ rest)) len (omega arith) d digit in
    let text = be_decode_str-print_str bytes rest len p h in rw (printed, read, ← printed, text)

mutual
  unfolding print

  Reads-node :
      (v : BeNode) (fuel : ℕ)
      → IsPrintable v
      → 2 * length (print v) < fuel
      → Reads (be_decode_node fuel) (print v) (some v)
  Reads-node (be_str s) zero p f rest len h = absurd (omega arith)
  Reads-node (be_int n) zero p f rest len h = absurd (omega arith)
  Reads-node (be_list ns) zero p f rest len h = absurd (omega arith)
  Reads-node (be_dict es) zero p f rest len h = absurd (omega arith)
  Reads-node (be_str none) (suc fuel) p f rest len h = elim p [ ]
  Reads-node (be_str (some bytes)) (suc fuel) p f rest len h = Reads-str fuel bytes p rest len h
  Reads-node (be_int n) (suc fuel) p f rest len h =
      let size = length-append (print_int n) (b'e' ∷ []) in
      let behind : len - 1 - length (print_int n) - 1
          ≡ len - suc (length (print_int n ++ b'e' ∷ [])) =
        omega (arith, size) in
      rw (append_assoc (print_int n) (b'e' ∷ []) rest, ← behind)
        (be_decode_node_int fuel (print_int n ++ b'e' ∷ rest) len (omega arith) n rest
          (len - 1 - length (print_int n)) (omega (arith, size))
          (be_decode_int-print_int n rest b'e' (len - 1) p refl (omega (arith, size))))
  Reads-node (be_list ns) (suc fuel) p f rest len h =
      let inner =
        Reads-nodes ns fuel true p.1 (λ _. p.0) (omega arith) rest (len - 1) (omega arith) in
      let behind : len - 1 - length (print_nodes ns) ≡ len - suc (length (print_nodes ns)) =
        omega arith in
      rw (be_decode_node_list fuel (print_nodes ns ++ rest) len (omega arith), inner, behind)
  Reads-node (be_dict es) (suc fuel) p f rest len h =
      let inner =
        Reads-entries es fuel 0 [] p.1 (λ _. p.0) (refl, tt) (omega arith) rest (len - 1)
          (omega arith) in
      let behind : len - 1 - length (print_entries es) ≡ len - suc (length (print_entries es)) =
        omega arith in
      rw (be_decode_node_dict fuel (print_entries es ++ rest) len (omega arith), inner, behind)

  Reads-nodes :
      (ns : BeNodes) (fuel : ℕ) (first : Bool)
      → ArePrintable ns
      → (first ≡ true → is_empty ns ≡ false)
      → suc (2 * length (print_nodes ns)) < fuel
      → Reads (be_decode_nodes fuel first) (print_nodes ns) ns
  Reads-nodes no_nodes zero first p k f rest len h = absurd (omega arith)
  Reads-nodes (node v ns) zero first p k f rest len h = absurd (omega arith)
  Reads-nodes no_nodes (suc fuel) true p k f rest len h = cc (k refl)
  Reads-nodes no_nodes (suc fuel) false p k f rest len h = be_decode_nodes_close fuel rest len h
  Reads-nodes (node v ns) (suc fuel) first p k f rest len h =
      let more = print_nodes ns ++ rest in
      let size = length-append (print v) (print_nodes ns) in
      let opens = print-Opens v p.0 in
      let filled = length-Opens (print v) opens in
      let head = Reads-node v fuel p.0 (omega (arith, size)) more len (omega (arith, size)) in
      let tail =
        Reads-nodes ns fuel false p.1 (λ z. cc) (omega (arith, size)) rest (len - length (print v))
          (omega (arith, size)) in
      let behind : len - length (print v) - length (print_nodes ns)
          ≡ len - length (print v ++ print_nodes ns) =
        omega (arith, size) in
      rw (
        append_assoc (print v) (print_nodes ns) rest,
        be_decode_nodes_next fuel first (print v ++ more) len v (at more (len - length (print v)))
            (append-Opens (print v) more opens) head,
        tail,
        behind,
      )

  Reads-entries :
      (es : BeEntries) (fuel i : ℕ) (words : List Bool)
      → EntriesPrintable es
      → (i ≡ 0 → is_bare es ≡ false)
      → NoneNull i words
      → suc (2 * length (print_entries es)) < fuel
      → Reads (be_decode_entries fuel i words) (print_entries es) es
  Reads-entries no_entries zero i words p k w f rest len h = absurd (omega arith)
  Reads-entries (entry key v es) zero i words p k w f rest len h = absurd (omega arith)
  Reads-entries (no_value key es) fuel i words p k w f rest len h = elim p [ ]
  Reads-entries no_entries (suc fuel) i words p k w f rest len h =
      be_decode_entries_close fuel rest len h i words (==_ne i 0 (λ z. cc (k z)))
  Reads-entries (entry none v es) (suc fuel) i words p k w f rest len h = elim p.0 [ ]
  Reads-entries (entry (some key) v es) (suc fuel) i words p k w f rest len h =
      let text = print_str key in
      let more = print_entries es ++ rest in
      let size = length-append text (print v ++ print_entries es) in
      let size' = length-append (print v) (print_entries es) in
      let opens = print_str-Opens key in
      let filled = length-Opens text opens in
      let filled' = length-Opens (print v) (print-Opens v p.1) in
      let left = len - length text in
      let name =
        be_decode_str-print_str key (print v ++ more) len p.0 (omega (arith, size, size')) in
      let value =
        Reads-node v fuel p.1 (omega (arith, size, size')) more left (omega (arith, size, size')) in
      let tail =
        Reads-entries es fuel (i + 1) (words ++ false ∷ false ∷ []) p.2 (λ z. absurd (omega arith))
          (NoneNull-next i words w) (omega (arith, size, size')) rest (left - length (print v))
          (omega (arith, size, size')) in
      let behind : left - length (print v) - length (print_entries es)
          ≡ len - length (text ++ (print v ++ print_entries es)) =
        omega (arith, size, size') in
      let spread : (text ++ (print v ++ print_entries es)) ++ rest ≡ text ++ (print v ++ more) =
        append_assoc text (print v ++ print_entries es) rest
        ∙ ap (λ l. text ++ l) (append_assoc (print v) (print_entries es) rest) in
      let next = NoneNull-next i words w in
      rw (
        spread,
        be_decode_entries_next fuel i words (text ++ (print v ++ more)) len key v
            (at (print v ++ more) left) (at more (left - length (print v)))
            (append-Opens text (print v ++ more) opens) name value
            (word_not_null (words ++ false ∷ false ∷ []) i (omega arith) next.1),
        tail,
        behind,
      )

-- Every tree with an encoding is read back from it: `be_decoden` on a block that begins with the
-- encoding returns the tree, whatever follows. Trees with an empty list or an empty dictionary are
-- left out, and so are numbers and lengths beyond a long long. Twice the length of the encoding is
-- enough fuel.
pub be_decoden-print :
    (v : BeNode) (rest : List ℕ) (fuel : ℕ)
    → IsPrintable v
    → 2 * length (print v) < fuel
    → be_decoden fuel (print v ++ rest) (pos (length (print v ++ rest))) ≡ ok (some v)
unfolding be_decoden
be_decoden-print v rest fuel p f = rw (
    Reads-node v fuel p f rest (length (print v ++ rest))
      (omega (arith, length-append (print v) rest)))

-- The same for `be_decode`, on the encoding as a text with its NUL.
pub be_decode-print :
    (v : BeNode) (fuel : ℕ)
    → IsPrintable v
    → 2 * length (print v) < fuel
    → be_decode fuel (print v) ≡ ok (some v)
unfolding be_decode be_decoden
be_decode-print v fuel p f = rw (Reads-node v fuel p f (0 ∷ []) (length (print v)) (omega arith))

-- An empty list and an empty dictionary are valid encodings; on both the decoder writes its end mark
-- through a NULL pointer, whatever follows and at whatever length.
pub be_decoden_empty :
    (rest : List ℕ) (len fuel : ℕ)
    → 0 < len
    → (be_decoden (suc (suc fuel)) (b'l' ∷ b'e' ∷ rest) (pos len) ≡ undefined)
      × (be_decoden (suc (suc fuel)) (b'd' ∷ b'e' ∷ rest) (pos len) ≡ undefined)
unfolding be_decoden be_decode_nodes
be_decoden_empty rest len fuel h = (
  rw (be_decode_node_list (suc fuel) (b'e' ∷ rest) len h),
  rw (be_decode_node_dict (suc fuel) (b'e' ∷ rest) len h),
)
