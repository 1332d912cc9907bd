-- ===== src/Tracker/Tests.antt =====
-- The unit tests of src/tracker_tests.c. An assertion that fails aborts the program, which a shell
-- reports as the status 134.
use soft_sys_dubstep_ducks.Prelude.{
  ℕ, ◌≡◌, List, [], ◌∷◌, Bool, Outcome, ok, ◌>>=◌, ◌>>◌, exit_if, not, or_undefined, get_elem?,
  length, load, bytes_eq, ◌==◌,
}
use soft_sys_dubstep_ducks.Tracker.Clients.{Ip, ClientList, add_if_absent}
use soft_sys_dubstep_ducks.Tracker.Message.{build_msg, has_word, build_msg_lem}

abbrev assert : Bool → Outcome (Unit {0})
assert b = exit_if (not b) 134

-- "test message please ignore"
abbrev test_message : List ℕ
test_message =
    b't' ∷ b'e' ∷ b's' ∷ b't' ∷ b' ' ∷ b'm' ∷ b'e' ∷ b's' ∷ b's' ∷ b'a' ∷ b'g' ∷ b'e' ∷ b' ' ∷ b'p'
    ∷ b'l' ∷ b'e' ∷ b'a' ∷ b's' ∷ b'e' ∷ b' ' ∷ b'i' ∷ b'g' ∷ b'n' ∷ b'o' ∷ b'r' ∷ b'e' ∷ []

unfoldable pub test_build_msg : (ℕ → ℕ) → Outcome (Unit {0})
test_build_msg fresh = do
  built_msg ← build_msg fresh test_message
  first ← load built_msg 0
  assert (first == length test_message)
  assert (has_word built_msg test_message)

abbrev first_ip : Ip
first_ip = b'1' ∷ b'2' ∷ b'3' ∷ b'4' ∷ []

abbrev second_ip : Ip
second_ip = b'1' ∷ b'1' ∷ b'1' ∷ b'1' ∷ []

-- The assertions that follow each call: both clients in order, and no third one.
unfoldable check_clients : ClientList × ℕ → Outcome (Unit {0})
check_clients r = do
  assert (r.1 == 2)
  ip₁ ← or_undefined (get_elem? r.0 0)
  assert (bytes_eq ip₁ first_ip)
  ip₂ ← or_undefined (get_elem? r.0 1)
  assert (bytes_eq ip₂ second_ip)
  assert (length r.0 == 2)

unfoldable pub test_add_if_absent : Outcome (Unit {0})
unfolding check_clients
test_add_if_absent = do
  r₁ ← add_if_absent (first_ip ∷ []) second_ip 1
  check_clients r₁
  r₂ ← add_if_absent r₁.0 first_ip r₁.1
  check_clients r₂

-- main
unfoldable pub run_tests : (ℕ → ℕ) → Outcome (Unit {0})
unfolding test_build_msg test_add_if_absent
run_tests fresh = do test_build_msg fresh; test_add_if_absent

-- The tests pass, whatever malloc leaves in the block of a message.
pub tests_pass : (fresh : ℕ → ℕ) → run_tests fresh ≡ ok tt
unfolding run_tests add_if_absent bytes_eq has_word
tests_pass fresh = rw (build_msg_lem fresh test_message)
