-- ===== src/Bencode/Node.antt =====
-- be_node and be_dict of src/bencode.h, with be_str_len of src/bencode.c.
use soft_sys_dubstep_ducks.Prelude.{ℕ, List, Option, none, some, ℤ, length}

-- The array of a list ends with NULL, and that of a dictionary with an entry whose value is NULL. A
-- text is NULL where it could not be decoded. An entry without a value ends the dictionary for
-- every reader, whatever stands behind it.
mutual
  pub data BeNode : Type 0 where
    be_str : Option (List ℕ) → BeNode
    be_int : ℤ → BeNode
    be_list : BeNodes → BeNode
    be_dict : BeEntries → BeNode

  pub data BeNodes : Type 0 where
    no_nodes : BeNodes
    node : BeNode → BeNodes → BeNodes

  pub data BeEntries : Type 0 where
    no_entries : BeEntries
    entry : Option (List ℕ) → BeNode → BeEntries → BeEntries
    no_value : Option (List ℕ) → BeEntries → BeEntries

-- The length that is stored in front of a text; 0 for NULL.
unfoldable pub be_str_len : Option (List ℕ) → ℕ
be_str_len none = 0
be_str_len (some bytes) = length bytes
