-- ===== src/Prelude/Control.antt =====
-- What a piece of C code does: it returns, calls `exit`, or has undefined behaviour. A recursion of
-- the model that is on fuel may run out of it, which no run of the program does.
use Prim.Native.Nat.{ℕ}
use mathlib.Core.Path.{◌≡◌, refl, subst}
use mathlib.Core.Bool.{Bool, true, false}
use mathlib.Core.Option.{Option, none, some}
use soft_sys_dubstep_ducks.Prelude.Tests.{if◌then◌else◌}

-- `undefined` is a read or write outside an object, a NULL dereference or a signed overflow.
pub data Outcome {ℓ} (A : Type ℓ) : Type ℓ where
  ok : A → Outcome A
  exits : ℕ → Outcome A
  undefined : Outcome A
  out_of_fuel : Outcome A

infixl 5 ◌>>=◌ ◌>>◌
abbrev pub ◌>>=◌ {ℓ κ} : {A : Type ℓ} {B : Type κ} → Outcome A → (A → Outcome B) → Outcome B
ok a >>= f = f a
exits n >>= f = exits n
undefined >>= f = undefined
out_of_fuel >>= f = out_of_fuel

abbrev pub ◌>>◌ {ℓ} : {B : Type ℓ} → Outcome (Unit {0}) → Outcome B → Outcome B
m >> k = m >>= λ _. k

-- What the code relies on at this point: past it, anything may happen.
abbrev pub require : Bool → Outcome (Unit {0})
require true = ok tt
require false = undefined

-- `exit(status)` if the test holds.
abbrev pub exit_if : Bool → ℕ → Outcome (Unit {0})
exit_if true n = exits n
exit_if false n = ok tt

abbrev pub or_undefined {ℓ} : {A : Type ℓ} → Option A → Outcome A
or_undefined none = undefined
or_undefined (some a) = ok a

-- Where a piece of code returns, what it returns has a property.
unfoldable pub Always {ℓ κ} : {A : Type ℓ} → (A → Type κ) → Outcome A → Type κ
Always P (ok a) = P a
Always P (exits n) = Unit
Always P undefined = Unit
Always P out_of_fuel = Unit

pub Always-bind {ℓ ℓ' κ κ'} :
    {A : Type ℓ} {B : Type ℓ'} (P : A → Type κ) (Q : B → Type κ') (m : Outcome A)
    (f : A → Outcome B)
    → Always P m
    → ((a : A) → P a → Always Q (f a))
    → Always Q (m >>= f)
unfolding Always
Always-bind P Q (ok a) f p q = q a p
Always-bind P Q (exits n) f p q = tt
Always-bind P Q undefined f p q = tt
Always-bind P Q out_of_fuel f p q = tt

-- The same where nothing is known about the first part.
pub Always-any {ℓ ℓ' κ} :
    {A : Type ℓ} {B : Type ℓ'} (Q : B → Type κ) (m : Outcome A) (f : A → Outcome B)
    → ((a : A) → Always Q (f a))
    → Always Q (m >>= f)
unfolding Always
Always-any Q (ok a) f q = q a
Always-any Q (exits n) f q = tt
Always-any Q undefined f q = tt
Always-any Q out_of_fuel f q = tt

pub Always-if {ℓ κ} :
    {A : Type ℓ} (P : A → Type κ) (b : Bool) (m n : Outcome A)
    → Always P m
    → Always P n
    → Always P (if b then m else n)
Always-if P true m n p q = p
Always-if P false m n p q = q

-- What is always so is so of the result.
pub Always-ok {ℓ κ} :
    {A : Type ℓ} (P : A → Type κ) (m : Outcome A) (a : A) → Always P m → m ≡ ok a → P a
unfolding Always
Always-ok P m a p e = subst (Always P) e p

pub Always-mono {ℓ κ κ'} :
    {A : Type ℓ} (P : A → Type κ) (Q : A → Type κ') (m : Outcome A)
    → Always P m
    → ((a : A) → P a → Q a)
    → Always Q m
unfolding Always
Always-mono P Q (ok a) p f = f a p
Always-mono P Q (exits n) p f = tt
Always-mono P Q undefined p f = tt
Always-mono P Q out_of_fuel p f = tt

pub Always-returned {ℓ κ} : {A : Type ℓ} (P : A → Type κ) (a : A) → P a → Always P (ok a)
unfolding Always
Always-returned P a p = p

pub Always-undefined {ℓ κ} : {A : Type ℓ} (P : A → Type κ) → Always P undefined
unfolding Always
Always-undefined P = tt

pub Always-anything {ℓ} : {A : Type ℓ} (m : Outcome A) → Always (λ a. Unit {0}) m
unfolding Always
Always-anything (ok a) = tt
Always-anything (exits n) = tt
Always-anything undefined = tt
Always-anything out_of_fuel = tt

-- A load gives what stands there.
pub or_undefined-eq {ℓ} : {A : Type ℓ} (o : Option A) → Always (λ a. o ≡ some a) (or_undefined o)
unfolding Always
or_undefined-eq none = tt
or_undefined-eq (some a) = refl

-- What returns is what is returned.
pub Always-self {ℓ} : {A : Type ℓ} (m : Outcome A) → Always (λ a. m ≡ ok a) m
unfolding Always
Always-self (ok a) = refl
Always-self (exits n) = tt
Always-self undefined = tt
Always-self out_of_fuel = tt

-- Behind exit_if the test is false.
pub exit_if-Always : (b : Bool) (n : ℕ) → Always (λ u. b ≡ false) (exit_if b n)
unfolding Always
exit_if-Always true n = tt
exit_if-Always false n = refl
