-- ===== src/Prelude/Text.antt =====
-- Texts that end with a NUL: strcpy and strcat.
use Prim.Native.Nat.{ℕ, ◌+◌, ◌<◌}
use mathlib.Core.Path.{◌≡◌, refl}
use mathlib.Core.Logic.{◌≢◌}
use mathlib.Core.List.{List, [], ◌∷◌, ◌++◌, append_assoc}
use native.Mathlib.Omega.{arith}
use soft_sys_dubstep_ducks.Prelude.Tests.{◌==◌, ==_ne, if◌then◌else◌}
use soft_sys_dubstep_ducks.Prelude.Lists.{length, drop, All, length-append}
use soft_sys_dubstep_ducks.Prelude.Control.{Outcome, ok, undefined, ◌>>=◌}
use soft_sys_dubstep_ducks.Prelude.Memory.{write_at, write_at-append}

-- The text at the head of a block, which has to hold its NUL.
unfoldable pub c_string : List ℕ → Outcome (List ℕ)
c_string [] = undefined
c_string (b ∷ bs) = let more = (c_string bs >>= λ t. ok (b ∷ t)) in if b == 0 then ok [] else more

unfoldable pub strcpy : List ℕ → List ℕ → Outcome (List ℕ)
strcpy dst src = do text ← c_string src; write_at dst 0 (text ++ 0 ∷ [])

unfoldable pub strcat : List ℕ → List ℕ → Outcome (List ℕ)
strcat dst text = do before ← c_string dst; write_at dst (length before) (text ++ 0 ∷ [])

abbrev pub NoNul : List ℕ → Type 0
NoNul = All (λ b. b ≢ 0)

pub c_string-append : (text rest : List ℕ) → NoNul text → c_string (text ++ 0 ∷ rest) ≡ ok text
unfolding c_string
c_string-append [] rest h = refl
c_string-append (b ∷ bs) rest h = rw (==_ne b 0 h.0, c_string-append bs rest h.1)

pub c_string_endless : (text : List ℕ) → NoNul text → c_string text ≡ undefined
unfolding c_string
c_string_endless [] h = refl
c_string_endless (b ∷ bs) h = rw (==_ne b 0 h.0, c_string_endless bs h.1)

-- A text with its NUL is copied to the head of a block with room for it.
pub strcpy-append :
    (dst text rest : List ℕ)
    → NoNul text
    → length text < length dst
    → strcpy dst (text ++ 0 ∷ rest) ≡ ok (text ++ 0 ∷ drop (length text + 1) dst)
unfolding strcpy
strcpy-append dst text rest h room =
    let size : length (text ++ 0 ∷ []) ≡ length text + 1 = length-append text (0 ∷ []) in
    rw (
      c_string-append text rest h,
      write_at-append [] (text ++ 0 ∷ []) dst 0 refl (omega arith),
      size,
      append_assoc text (0 ∷ []) (drop (length text + 1) dst),
    )

-- One more character behind a text, if its block goes on behind its NUL.
pub strcat-append :
    (text : List ℕ) (b x : ℕ) (rest : List ℕ)
    → NoNul text
    → strcat (text ++ 0 ∷ x ∷ rest) (b ∷ []) ≡ ok (text ++ b ∷ 0 ∷ rest)
unfolding strcat
strcat-append text b x rest h = rw (
  c_string-append text (x ∷ rest) h,
  write_at-append text (b ∷ 0 ∷ []) (0 ∷ x ∷ rest) (length text) refl (omega arith),
)

-- The text at the head of a block, up to its NUL.
unfoldable pub c_text : List ℕ → List ℕ
c_text [] = []
c_text (b ∷ bs) = if b == 0 then [] else b ∷ c_text bs
