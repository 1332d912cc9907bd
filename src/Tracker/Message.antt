-- ===== src/Tracker/Message.antt =====
-- Messages between the tracker and its clients in src/tracker.c: buildMsg, sendMsg, sendData and
-- recvMsg. What the operating system does is an argument: whether `send` succeeds, and the bytes
-- that `recv` delivers.
use soft_sys_dubstep_ducks.Prelude.{
  ℕ, ◌+◌, ◌%◌, ◌≤◌, ◌≡◌, refl, List, [], ◌∷◌, ◌++◌, Bool, true, false, Outcome, ok, ◌>>=◌, Option,
  none, some, length, take, drop, malloc, write_at, write_at-append, length-malloc, write_at_last,
  take_all, length-take, take-append, bytes_eq_refl, length-append, bytes_eq, arith, length-drop,
}

-- stdio.h: the size of a receive buffer.
abbrev pub bufsiz : ℕ
bufsiz = 8192

-- The low byte of the length, then the text without its NUL.
unfoldable pub build_msg : (ℕ → ℕ) → List ℕ → Outcome (List ℕ)
build_msg fresh msg = do
  let len = length msg
  data₁ ← write_at (malloc fresh (len + 1)) 0 ((len % 256) ∷ [])
  write_at data₁ 1 msg

-- What reaches the other side, if `send` does not fail, and whether 0 is returned.
unfoldable pub send_data : Bool → List ℕ → Option (List ℕ) × Bool
send_data true bytes = (some bytes, true)
send_data false bytes = (none, false)

unfoldable pub send_msg : Bool → (ℕ → ℕ) → List ℕ → Outcome (Option (List ℕ) × Bool)
unfolding send_data
send_msg sends fresh msg = do
  bytes ← build_msg fresh msg
  ok (send_data sends (take (length msg + 1) bytes))

-- The whole receive buffer: what was received, then bytes that nobody wrote. An error of `recv`
-- is reported and leaves a buffer in which nothing was received.
unfoldable pub recv_msg : (ℕ → ℕ) → Option (List ℕ) → List ℕ
recv_msg fresh none = malloc fresh bufsiz
recv_msg fresh (some received) =
    let got = take bufsiz received in got ++ drop (length got) (malloc fresh bufsiz)

-- strncmp(msg + 1, word, |word|) == 0, for a word without a NUL.
unfoldable pub has_word : List ℕ → List ℕ → Bool
has_word msg word = bytes_eq (take (length word) (drop 1 msg)) word

-- The message has room for all of the text, and nothing but the text behind the length.
pub build_msg_lem :
    (fresh : ℕ → ℕ) (msg : List ℕ) → build_msg fresh msg ≡ ok ((length msg % 256) ∷ msg)
unfolding build_msg
build_msg_lem fresh msg =
    rw
      (write_at-append [] ((length msg % 256) ∷ []) (malloc fresh (length msg + 1)) 0 refl
        (omega (arith, length-malloc fresh (length msg + 1))))
      (write_at_last ((length msg % 256) ∷ []) msg (drop 1 (malloc fresh (length msg + 1))) 1 refl (
        omega (
          arith,
          length-malloc fresh (length msg + 1),
          length-drop 1 (malloc fresh (length msg + 1)),
        )))

-- What was sent stands at the head of the buffer, if it fits.
pub recv_msg-append :
    (fresh : ℕ → ℕ) (received : List ℕ)
    → length received ≤ bufsiz
    → recv_msg fresh (some received) ≡ received ++ drop (length received) (malloc fresh bufsiz)
unfolding recv_msg
recv_msg-append fresh received h = rw (take_all received bufsiz h)

pub length-recv_msg :
    (fresh : ℕ → ℕ) (received : Option (List ℕ)) → length (recv_msg fresh received) ≡ bufsiz
unfolding recv_msg
length-recv_msg fresh none = length-malloc fresh bufsiz
length-recv_msg fresh (some received) =
    let got = take bufsiz received in
    omega (
      arith,
      length-append got (drop (length got) (malloc fresh bufsiz)),
      length-drop (length got) (malloc fresh bufsiz),
      length-malloc fresh bufsiz,
      length-take bufsiz received,
    )

-- A word that was sent by `sendMsg` is recognised.
pub has_word-build_msg :
    (word rest : List ℕ) → has_word ((length word % 256) ∷ (word ++ rest)) word ≡ true
unfolding has_word
has_word-build_msg word rest = rw (take-append word rest (length word) refl) (bytes_eq_refl word)
