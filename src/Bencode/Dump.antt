-- ===== src/Bencode/Dump.antt =====
-- be_dump of src/bencode.c: what it prints.
use soft_sys_dubstep_ducks.Prelude.{
  ℕ, zero, suc, ◌+◌, List, [], ◌∷◌, ◌++◌, Bool, true, false, Option, none, some, c_text, decimal,
  if◌then◌else◌,
}
use soft_sys_dubstep_ducks.Bencode.Node.{
  BeNode, BeNodes, BeEntries, be_str, be_int, be_list, be_dict, no_nodes, node, no_entries, entry,
  no_value, be_str_len,
}
use soft_sys_dubstep_ducks.Bencode.Print.{print_int}

unfoldable pub dump_indent : ℕ → List ℕ
dump_indent zero = []
dump_indent (suc indent) = 32 ∷ 32 ∷ 32 ∷ 32 ∷ dump_indent indent

-- %s; NULL is printed as glibc does.
unfoldable pub shown_text : Option (List ℕ) → List ℕ
shown_text none = b'(' ∷ b'n' ∷ b'u' ∷ b'l' ∷ b'l' ∷ b')' ∷ []
shown_text (some s) = c_text s

-- `inline` stands for a negative indent, in front of which nothing is printed.
unfoldable mutual
  unfolding dump_indent shown_text

  pub dump : Bool → ℕ → BeNode → List ℕ
  dump inline indent (be_str s) =
      (if inline then [] else dump_indent indent)
      ++ (b's'
          ∷ b't'
          ∷ b'r'
          ∷ 32
          ∷ b'='
          ∷ 32
          ∷ (shown_text s
              ++ (32
                  ∷ b'('
                  ∷ b'l'
                  ∷ b'e'
                  ∷ b'n'
                  ∷ 32
                  ∷ b'='
                  ∷ 32
                  ∷ (decimal (be_str_len s) ++ b')' ∷ b'\n' ∷ []))))
  dump inline indent (be_int n) =
      (if inline then [] else dump_indent indent)
      ++ (b'i' ∷ b'n' ∷ b't' ∷ 32 ∷ b'=' ∷ 32 ∷ (print_int n ++ b'\n' ∷ []))
  dump inline indent (be_list ns) =
      (if inline then [] else dump_indent indent)
      ++ (b'l'
          ∷ b'i'
          ∷ b's'
          ∷ b't'
          ∷ 32
          ∷ b'['
          ∷ b'\n'
          ∷ (dump_nodes (indent + 1) ns ++ (dump_indent indent ++ b']' ∷ b'\n' ∷ [])))
  dump inline indent (be_dict es) =
      (if inline then [] else dump_indent indent)
      ++ (b'd'
          ∷ b'i'
          ∷ b'c'
          ∷ b't'
          ∷ 32
          ∷ b'{'
          ∷ b'\n'
          ∷ (dump_entries (indent + 1) es ++ (dump_indent indent ++ b'}' ∷ b'\n' ∷ [])))

  pub dump_nodes : ℕ → BeNodes → List ℕ
  dump_nodes indent no_nodes = []
  dump_nodes indent (node n ns) = dump false indent n ++ dump_nodes indent ns

  pub dump_entries : ℕ → BeEntries → List ℕ
  dump_entries indent no_entries = []
  dump_entries indent (entry k v es) =
      dump_indent indent
      ++ (shown_text k ++ (32 ∷ b'=' ∷ b'>' ∷ 32 ∷ (dump true indent v ++ dump_entries indent es)))
  dump_entries indent (no_value k es) = []

unfoldable pub be_dump : BeNode → List ℕ
unfolding dump
be_dump n = dump false 0 n
