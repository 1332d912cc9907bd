-- ===== src/Encode/Written.antt =====
-- What src/encode.c writes.
use soft_sys_dubstep_ducks.Prelude.{
  ℕ, ◌≤◌, ◌<◌, ◌≡◌, List, [], ◌∷◌, ◌++◌, ok, some, arith, length, decimal, take_all, lt→ltb,
  length-append, append_assoc,
}
use soft_sys_dubstep_ducks.Bencode.Node.{be_str}
use soft_sys_dubstep_ducks.Bencode.Print.{print, print_str}
use soft_sys_dubstep_ducks.Bencode.Decode.{be_decode}
use soft_sys_dubstep_ducks.Bencode.RoundTrip.Trees.{be_decode-print}
use soft_sys_dubstep_ducks.Encode.{allocated, append, encode_string}

append-take :
    (text more : List ℕ) → length (text ++ more) < 80 → append 80 text more ≡ ok (text ++ more)
unfolding append
append-take text more h = rw (
  take_all more 10000 (omega (arith, length-append text more)),
  lt→ltb (length (text ++ more)) 80 h,
)

-- A text whose encoding fits 80 bytes with its NUL is encoded, and the decoder of src/bencode.c reads
-- it back.
pub encode_string-be_decode :
    (text : List ℕ) (fuel : ℕ)
    → length (print_str text) < 80
    → 160 ≤ fuel
    → (encode_string text ≡ ok (allocated (print_str text)))
      × (be_decode fuel (print_str text) ≡ ok (some (be_str (some text))))
unfolding encode_string print
encode_string-be_decode text fuel fits enough =
    let digits = decimal (length text) in
    let size = length-append digits (b':' ∷ text) in
    let size' = length-append digits (b':' ∷ []) in
    (
      rw (
        append-take [] digits (omega arith),
        append-take digits (b':' ∷ []) (omega arith),
        append-take (digits ++ b':' ∷ []) text
            (omega (arith, length-append (digits ++ b':' ∷ []) text)),
        append_assoc digits (b':' ∷ []) text,
      ),
      be_decode-print (be_str (some text)) fuel (omega arith) (omega arith),
    )
