-- ===== src/Bencode/Info/Metainfo.antt =====
-- The metainfo file of a torrent, through the decoder of src/bencode.c and its decodeFile.
use soft_sys_dubstep_ducks.Prelude.{
  ℕ, ◌+◌, ◌*◌, ◌/◌, ◌%◌, ◌^◌, ◌≤◌, ◌<◌, ◌≡◌, refl, List, [], ◌∷◌, ◌++◌, undefined, some, arith,
  length, c_text, bytes_eq, pos, NoNul, All, if◌then◌else◌, ◌==◌, leb, lt→ltb, append-nil,
  length-append, ==_ne, Bool-cases, inl, inr,
}
use native.Mathlib.Nat.{div-le_self}
use soft_sys_dubstep_ducks.Bencode.Node.{
  BeNode, BeEntries, be_str, be_int, be_dict, no_entries, entry,
}
use soft_sys_dubstep_ducks.Bencode.Print.{print, IsPrintable}
use soft_sys_dubstep_ducks.Bencode.RoundTrip.Trees.{be_decoden-print}
use soft_sys_dubstep_ducks.Bencode.Info.{
  decode_node, load_be_node, read_file-whole, decode_file, announce_word, info_word, length_word,
  name_word, piece_length_word, pieces_word,
}

-- The SHA1s of the pieces in one text.
abbrev pub joined : List (List ℕ) → List ℕ
joined [] = []
joined (h ∷ hs) = h ++ joined hs

-- The tree of a metainfo file, with the keys in their order.
abbrev pub info_entries : List ℕ → ℕ → ℕ → List (List ℕ) → BeEntries
info_entries name len piece_len hashes = entry (some length_word) (be_int (pos len)) (
    entry (some name_word) (be_str (some name)) (
      entry (some piece_length_word) (be_int (pos piece_len))
        (entry (some pieces_word) (be_str (some (joined hashes))) no_entries)))

abbrev pub metainfo : List ℕ → List ℕ → ℕ → ℕ → List (List ℕ) → BeNode
metainfo announce name len piece_len hashes = be_dict (
    entry (some announce_word) (be_str (some announce))
      (entry (some info_word) (be_dict (info_entries name len piece_len hashes)) no_entries))

-- The pieces of a file: all but the last are of the same length.
abbrev pub pieces_of : ℕ → ℕ → ℕ
pieces_of len piece_len = if len % piece_len == 0 then len / piece_len else len / piece_len + 1

pieces_of-le : (len piece_len : ℕ) → pieces_of len piece_len ≤ len + 1
pieces_of-le len piece_len = ground (arith, div-le_self len piece_len)

c_text-NoNul : (text : List ℕ) → NoNul text → c_text text ≡ text
unfolding c_text
c_text-NoNul [] h = refl
c_text-NoNul (b ∷ bs) h = rw (==_ne b 0 h.0, c_text-NoNul bs h.1)

length-joined :
    (hashes : List (List ℕ))
    → All (λ h. length h ≡ 20) hashes
    → length (joined hashes) ≡ 20 * length hashes
length-joined [] a = refl
length-joined (h ∷ hs) a = omega (arith, a.0, length-append h (joined hs), length-joined hs a.1)

module _ (announce name : List ℕ) (len piece_len : ℕ) (hashes : List (List ℕ))
    (announce_is_text : NoNul announce) (announce_fits : length announce < 1024)
    (name_is_text : NoNul name) (name_fits : length name < 1024) (len_is_int : len < 2 ^ 31)
    (some_length : 0 < piece_len) (piece_len_is_int : piece_len < 2 ^ 31)
    (sha1s : All (λ h. length h ≡ 20) hashes)
    (all_pieces : length hashes ≡ pieces_of len piece_len) where
  joined_fits : length (joined hashes) < 2 ^ 63
  joined_fits = omega (arith, length-joined hashes sha1s, pieces_of-le len piece_len)

  metainfo-IsPrintable : IsPrintable (metainfo announce name len piece_len hashes)
  metainfo-IsPrintable = (
    refl,
    (
      omega arith,
      omega arith,
      (
        omega arith,
        (
          refl,
          (
            omega arith,
            omega arith,
            (omega arith, omega arith, (omega arith, omega arith, (omega arith, joined_fits, tt))),
          ),
        ),
        tt,
      ),
    ),
  )

  -- The block that decodeFile allocates has 1000 bytes: on every metainfo file with its keys in order that
  -- is read whole, it is written past its end.
  pub decode_file-metainfo :
      (fresh : ℕ → ℕ) (fuel : ℕ)
      → 2 * length (print (metainfo announce name len piece_len hashes)) < fuel
      → decode_file fresh fuel
          (some (length (print (metainfo announce name len piece_len hashes))))
          (some (print (metainfo announce name len piece_len hashes)))
        ≡ undefined
  unfolding decode_file load_be_node decode_node c_text bytes_eq
  decode_file-metainfo fresh fuel enough =
      let tree = metainfo announce name len piece_len hashes in
      let decoded = be_decoden-print tree [] fuel metainfo-IsPrintable enough in
      elim (Bool-cases (leb (0 + (length announce + 1)) 1000)) [
        | inl fits ↦ rw (
          read_file-whole fresh (print tree),
          (rw (append-nil (print tree)) at decoded),
          c_text-NoNul announce announce_is_text,
          lt→ltb (length announce) 1024 announce_fits,
          fits,
        )
        | inr over ↦ rw (
          read_file-whole fresh (print tree),
          (rw (append-nil (print tree)) at decoded),
          c_text-NoNul announce announce_is_text,
          lt→ltb (length announce) 1024 announce_fits,
          over,
        )
      ]
