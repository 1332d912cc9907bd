-- ===== src/Bencode/Print.antt =====
-- Bencoding, as the format that src/bencode.h refers to defines it; the decoder of src/bencode.c is
-- held against it.
use soft_sys_dubstep_ducks.Prelude.{
  ℕ, ◌+◌, ◌^◌, ◌<◌, ◌≡◌, List, [], ◌∷◌, ◌++◌, Bool, true, false, Option, none, some, length, ℤ, pos,
  negsuc, decimal,
}
use soft_sys_dubstep_ducks.Bencode.Node.{
  BeNode, BeNodes, BeEntries, be_str, be_int, be_list, be_dict, no_nodes, node, no_entries, entry,
  no_value,
}

abbrev pub print_str : List ℕ → List ℕ
print_str bytes = decimal (length bytes) ++ b':' ∷ bytes

abbrev pub print_int : ℤ → List ℕ
print_int (pos n) = decimal n
print_int (negsuc n) = b'-' ∷ decimal (n + 1)

-- NULL has no encoding; it is left out.
abbrev pub print_str? : Option (List ℕ) → List ℕ
print_str? none = []
print_str? (some bytes) = print_str bytes

unfoldable mutual
  pub print : BeNode → List ℕ
  print (be_str s) = print_str? s
  print (be_int n) = b'i' ∷ (print_int n ++ b'e' ∷ [])
  print (be_list ns) = b'l' ∷ print_nodes ns
  print (be_dict es) = b'd' ∷ print_entries es

  pub print_nodes : BeNodes → List ℕ
  print_nodes no_nodes = b'e' ∷ []
  print_nodes (node n ns) = print n ++ print_nodes ns

  pub print_entries : BeEntries → List ℕ
  print_entries no_entries = b'e' ∷ []
  print_entries (entry k v es) = print_str? k ++ (print v ++ print_entries es)
  print_entries (no_value k es) = print_str? k ++ print_entries es

-- Within the range of a long long.
abbrev pub IsLong : ℤ → Type 0
IsLong (pos n) = n < 2 ^ 63
IsLong (negsuc n) = n < 2 ^ 63

-- A text that is there, of a length that is a long long.
abbrev pub IsText? : Option (List ℕ) → Type 0
IsText? none = ⊥
IsText? (some bytes) = length bytes < 2 ^ 63

abbrev pub is_empty : BeNodes → Bool
is_empty no_nodes = true
is_empty (node n ns) = false

abbrev pub is_bare : BeEntries → Bool
is_bare no_entries = true
is_bare (entry k v es) = false
is_bare (no_value k es) = false

-- A tree that has an encoding, without an empty list or dictionary, and with numbers in range.
abbrev mutual
  pub IsPrintable : BeNode → Type 0
  IsPrintable (be_str s) = IsText? s
  IsPrintable (be_int n) = IsLong n
  IsPrintable (be_list ns) = (is_empty ns ≡ false) × ArePrintable ns
  IsPrintable (be_dict es) = (is_bare es ≡ false) × EntriesPrintable es

  pub ArePrintable : BeNodes → Type 0
  ArePrintable no_nodes = Unit
  ArePrintable (node n ns) = IsPrintable n × ArePrintable ns

  pub EntriesPrintable : BeEntries → Type 0
  EntriesPrintable no_entries = Unit
  EntriesPrintable (entry k v es) = IsText? k × IsPrintable v × EntriesPrintable es
  EntriesPrintable (no_value k es) = ⊥
