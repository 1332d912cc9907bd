-- ===== src/Examples/Text.antt =====
-- src/encode.c and the printing functions of src/bencode.c and src/util.c on small inputs.
use soft_sys_dubstep_ducks.Prelude.{
  ℕ, ◌≡◌, refl, List, [], ◌∷◌, ok, some, arith, decimal, c_text, pos, length, replicate, bit,
}
use soft_sys_dubstep_ducks.Bencode.Node.{be_str, be_int, be_dict, entry, no_entries}
use soft_sys_dubstep_ducks.Bencode.Decode.{be_decode}
use soft_sys_dubstep_ducks.Bencode.Dump.{be_dump}
use soft_sys_dubstep_ducks.Encode.{allocated, encode_string}
use soft_sys_dubstep_ducks.Encode.Written.{encode_string-be_decode}
use soft_sys_dubstep_ducks.Printing.{print_bits, print_hex_memory}

abbrev hello : List ℕ
hello = b'h' ∷ b'e' ∷ b'l' ∷ b'l' ∷ b'o' ∷ []

encode_string_example :
    (encode_string hello ≡ ok (allocated (b'5' ∷ b':' ∷ hello)))
    × (be_decode 200 (b'5' ∷ b':' ∷ hello) ≡ ok (some (be_str (some hello))))
unfolding decimal
encode_string_example = encode_string-be_decode hello 200 (omega arith) (omega arith)

abbrev toy_sha1 : List ℕ → List ℕ
toy_sha1 message = replicate 20 (length message)

printed_bits :
    print_bits (5 ∷ []) 1
    ≡ ok (b'0' ∷ b'0' ∷ b'0' ∷ b'0' ∷ b'0' ∷ b'1' ∷ b'0' ∷ b'1' ∷ 32 ∷ b'\n' ∷ [])
unfolding print_bits bit
printed_bits = refl

printed_hex : print_hex_memory (175 ∷ []) 1 ≡ ok (b'0' ∷ b'x' ∷ b'a' ∷ b'f' ∷ 32 ∷ b'\n' ∷ [])
unfolding print_hex_memory
printed_hex = refl

-- dict {
--     a => int = 7
-- }
dumped :
    be_dump (be_dict (entry (some (b'a' ∷ [])) (be_int (pos 7)) no_entries))
    ≡ b'd' ∷ b'i' ∷ b'c' ∷ b't' ∷ 32 ∷ b'{' ∷ b'\n' ∷ 32 ∷ 32 ∷ 32 ∷ 32 ∷ b'a' ∷ 32 ∷ b'=' ∷ b'>'
      ∷ 32 ∷ b'i' ∷ b'n' ∷ b't' ∷ 32 ∷ b'=' ∷ 32 ∷ b'7' ∷ b'\n' ∷ b'}' ∷ b'\n' ∷ []
unfolding be_dump decimal c_text
dumped = refl
