-- ===== src/Common/Run.antt =====
-- The ways in which a Go call ends: it returns, it panics, or its fuel runs out. A recursion that
-- never ends runs out of every fuel.
use mathlib.Core.Path.{◌≡◌, refl}

pub data Run {ℓ} (A : Type ℓ) : Type ℓ where
  ret : A → Run A
  panic : Run A
  no_fuel : Run A

infixl 5 ◌>>=◌
abbrev pub ◌>>=◌ {ℓ κ} : {A : Type ℓ} {B : Type κ} → Run A → (A → Run B) → Run B
ret a >>= f = f a
panic >>= f = panic
no_fuel >>= f = no_fuel

-- Go's pair of a value and an error, of which callers read one.
pub data Result {ℓ κ} (E : Type κ) (A : Type ℓ) : Type (ℓ ⊔ κ) where
  ok : A → Result E A
  err : E → Result E A

-- Inversion of a run that returned.
pub >>=-eq-ret {ℓ κ} :
    {A : Type ℓ} {B : Type κ} (m : Run A) (f : A → Run B) {b : B}
    → (m >>= f) ≡ ret b
    → (a : A) × (m ≡ ret a) × (f a ≡ ret b)
>>=-eq-ret (ret a) f h = (a, refl, h)
>>=-eq-ret panic f h = cc
>>=-eq-ret no_fuel f h = cc

-- The call returns a value.
abbrev pub Returns {ℓ} : {A : Type ℓ} → Run A → Type 0
Returns (ret a) = Unit
Returns panic = ⊥
Returns no_fuel = ⊥

pub Returns-value {ℓ} : {A : Type ℓ} (m : Run A) → Returns m → (a : A) × (m ≡ ret a)
Returns-value (ret a) h = (a, refl)
Returns-value panic h = absurd h
Returns-value no_fuel h = absurd h

-- The value of a run that returns.
abbrev pub value_of {ℓ} : {A : Type ℓ} (m : Run A) → Returns m → A
value_of (ret a) returns = a
value_of panic returns = absurd returns
value_of no_fuel returns = absurd returns

pub value_of-ret {ℓ} :
    {A : Type ℓ} (m : Run A) (returns : Returns m) (a : A) → m ≡ ret a → value_of m returns ≡ a
value_of-ret (ret b) returns a h = cc h
value_of-ret panic returns a h = absurd returns
value_of-ret no_fuel returns a h = absurd returns

pub Returns-bind {ℓ κ} :
    {A : Type ℓ} {B : Type κ} (m : Run A) (f : A → Run B)
    → Returns m
    → ((a : A) → m ≡ ret a → Returns (f a))
    → Returns (m >>= f)
Returns-bind (ret a) f h k = k a refl
Returns-bind panic f h k = absurd h
Returns-bind no_fuel f h k = absurd h
