-- ===== src/Prelude/Effects.antt =====
-- How a call of a C function ends: it returns, it stops the process, or the C standard says nothing.
use mathlib.Core.Bool.{Bool, true, false}
use mathlib.Core.Option.{Option, none, some}
use mathlib.Core.Path.{◌≡◌, refl, ap}

pub data Run {ℓ} (A : Type ℓ) : Type ℓ where
  returned : A → Run A
  assertion_failed : Run A
  exited : Run A
  undefined : Run A

infixl 5 ◌>>=◌ ◌>>◌
abbrev pub ◌>>=◌ {ℓ κ} : {A : Type ℓ} {B : Type κ} → Run A → (A → Run B) → Run B
returned a >>= f = f a
assertion_failed >>= f = assertion_failed
exited >>= f = exited
undefined >>= f = undefined

abbrev pub ◌>>◌ {ℓ} : {B : Type ℓ} → Run (Unit {0}) → Run B → Run B
m >> k = m >>= λ _. k

-- `assert(b)`
abbrev pub check : Bool → Run (Unit {0})
check true = returned tt
check false = assertion_failed

-- `assert(NULL != p)`, with what `p` points to
abbrev pub given {ℓ} : {A : Type ℓ} → Option A → Run A
given none = assertion_failed
given (some a) = returned a

-- a chain that returns has calls that do
pub >>=-returned {ℓ κ} :
    {A : Type ℓ} {B : Type κ} (m : Run A) (f : A → Run B) {b : B}
    → (m >>= f) ≡ returned b
    → (a : A) × (m ≡ returned a) × (f a ≡ returned b)
>>=-returned (returned a) f h = (a, refl, h)
>>=-returned assertion_failed f h = absurd (cc (h))
>>=-returned exited f h = absurd (cc (h))
>>=-returned undefined f h = absurd (cc (h))

pub returned-injective {ℓ} : {A : Type ℓ} {a b : A} → returned a ≡ returned b → a ≡ b
returned-injective {a = a} h = ap (λ m. elim m [ returned x ↦ x | _ ↦ a ]) h
