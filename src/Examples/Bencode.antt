-- ===== src/Examples/Bencode.antt =====
-- src/bencode.c on small encodings.
use soft_sys_dubstep_ducks.Bencode.Info.{decode_file}
use soft_sys_dubstep_ducks.Bencode.Info.Metainfo.{metainfo, decode_file-metainfo}
use soft_sys_dubstep_ducks.Prelude.{
  NoNul, replicate, List, ℕ, ◌≡◌, refl, [], ◌∷◌, ◌++◌, ok, undefined, some, pos, negsuc, length,
  arith, decimal, read_at, out_of_fuel, ◌≢◌,
}
use soft_sys_dubstep_ducks.Bencode.Node.{
  BeNode, be_str, be_int, be_list, be_dict, no_nodes, node, no_entries, entry,
}
use soft_sys_dubstep_ducks.Bencode.Cursor.{
  strtoll, strtoll_signed, read_digits, skip_spaces, read_sign, saturate, be_decode_int, skip,
}
use soft_sys_dubstep_ducks.Bencode.Decode.{be_decode, be_decoden, be_decode_str}
use soft_sys_dubstep_ducks.Bencode.Ends.Decoding.{be_decoden_ends}
use soft_sys_dubstep_ducks.Bencode.Print.{print, IsPrintable}
use soft_sys_dubstep_ducks.Bencode.RoundTrip.Trees.{be_decoden-print, be_decode-print}

-- d3:cowli-7ei12eee
abbrev cow : BeNode
cow = be_dict (
    entry (some (b'c' ∷ b'o' ∷ b'w' ∷ []))
      (be_list (node (be_int (negsuc 6)) (node (be_int (pos 12)) no_nodes))) no_entries)

cow_printed :
    print cow
    ≡ b'd' ∷ b'3' ∷ b':' ∷ b'c' ∷ b'o' ∷ b'w' ∷ b'l' ∷ b'i' ∷ b'-' ∷ b'7' ∷ b'e' ∷ b'i' ∷ b'1'
      ∷ b'2' ∷ b'e' ∷ b'e' ∷ b'e' ∷ []
unfolding print decimal
cow_printed = refl

cow-IsPrintable : IsPrintable cow
cow-IsPrintable = (refl, (omega arith, (refl, (omega arith, (omega arith, tt))), tt))

-- l1:axe: the node that is no node ends the list, and its byte is skipped.
bad_node_ends_list :
    be_decode 50 (b'l' ∷ b'1' ∷ b':' ∷ b'a' ∷ b'x' ∷ b'e' ∷ [])
    ≡ ok (some (be_list (node (be_str (some (b'a' ∷ []))) no_nodes)))
unfolding be_decode be_decode_str be_decode_int strtoll strtoll_signed read_digits skip_spaces
    read_sign saturate skip read_at
bad_node_ends_list = refl

be_decoden-print_example :
    be_decoden 40 (print cow ++ b'x' ∷ []) (pos (length (print cow ++ b'x' ∷ []))) ≡ ok (some cow)
unfolding print decimal
be_decoden-print_example = be_decoden-print cow (b'x' ∷ []) 40 cow-IsPrintable (omega arith)

be_decode-print_example : be_decode 40 (print cow) ≡ ok (some cow)
unfolding print decimal
be_decode-print_example = be_decode-print cow 40 cow-IsPrintable (omega arith)

-- A file of 5 bytes in pieces of 4, with the SHA1s of both.
abbrev announce : List ℕ
announce = b'1' ∷ b'.' ∷ b'2' ∷ []

abbrev name : List ℕ
name = b'f' ∷ []

abbrev hashes : List (List ℕ)
hashes = replicate 20 1 ∷ replicate 20 2 ∷ []

announce-NoNul : NoNul announce
announce-NoNul = ((λ e. omega arith), ((λ e. omega arith), ((λ e. omega arith), tt)))

name-NoNul : NoNul name
name-NoNul = ((λ e. omega arith), tt)

decode_file-metainfo_example :
    decode_file
      (λ i. 0)
      300
      (some (length (print (metainfo announce name 5 4 hashes))))
      (some (print (metainfo announce name 5 4 hashes)))
    ≡ undefined
unfolding print decimal
decode_file-metainfo_example =
    decode_file-metainfo announce name 5 4 hashes announce-NoNul (omega arith) name-NoNul
      (omega arith) (omega arith) (omega arith) (omega arith) (refl, (refl, tt)) refl (λ i. 0) 300
      (omega arith)

-- A list that holds a dictionary whose only entry is malformed.
abbrev malformed : List ℕ
malformed = b'l' ∷ b'd' ∷ b'1' ∷ b':' ∷ b'a' ∷ b'x' ∷ b'e' ∷ b'e' ∷ b'i' ∷ []

be_decoden_ends_example : be_decoden 40 malformed (pos 9) ≢ out_of_fuel
be_decoden_ends_example = be_decoden_ends 40 malformed (pos 9) (omega arith)
