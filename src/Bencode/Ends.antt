-- ===== src/Bencode/Ends.antt =====
-- The decoder of src/bencode.c on any input, well formed or not: how much fuel it needs.
pub mod Reading
pub mod Decoding
use soft_sys_dubstep_ducks.Prelude.{
  Outcome, ok, exits, undefined, out_of_fuel, ◌>>=◌, Bool, true, false, if◌then◌else◌, ◌≡◌, refl,
}

-- The fuel is enough, and what is returned has a property.
unfoldable pub Ends {ℓ} : {A : Type ℓ} → (A → Type 0) → Outcome A → Type 0
Ends P (ok a) = P a
Ends P (exits n) = Unit
Ends P undefined = Unit
Ends P out_of_fuel = ⊥

pub Ends-bind {ℓ ℓ'} :
    {A : Type ℓ} {B : Type ℓ'} (P : A → Type 0) (Q : B → Type 0) (m : Outcome A) (f : A → Outcome B)
    → Ends P m
    → ((a : A) → P a → Ends Q (f a))
    → Ends Q (m >>= f)
unfolding Ends
Ends-bind P Q (ok a) f p q = q a p
Ends-bind P Q (exits n) f p q = tt
Ends-bind P Q undefined f p q = tt
Ends-bind P Q out_of_fuel f p q = p

pub Ends-if {ℓ} :
    {A : Type ℓ} (P : A → Type 0) (b : Bool) (m n : Outcome A)
    → Ends P m
    → Ends P n
    → Ends P (if b then m else n)
Ends-if P true m n p q = p
Ends-if P false m n p q = q

pub Ends-if_eq {ℓ} :
    {A : Type ℓ} (P : A → Type 0) (b : Bool) (m n : Outcome A)
    → (b ≡ true → Ends P m)
    → Ends P n
    → Ends P (if b then m else n)
Ends-if_eq P true m n p q = p refl
Ends-if_eq P false m n p q = q

pub Ends-mono {ℓ} :
    {A : Type ℓ} (P Q : A → Type 0) (m : Outcome A) → Ends P m → ((a : A) → P a → Q a) → Ends Q m
unfolding Ends
Ends-mono P Q (ok a) p f = f a p
Ends-mono P Q (exits n) p f = tt
Ends-mono P Q undefined p f = tt
Ends-mono P Q out_of_fuel p f = p

pub Ends-ok {ℓ} : {A : Type ℓ} (P : A → Type 0) (a : A) → P a → Ends P (ok a)
unfolding Ends
Ends-ok P a p = p

pub Ends-undefined {ℓ} : {A : Type ℓ} (P : A → Type 0) → Ends P undefined
unfolding Ends
Ends-undefined P = tt
