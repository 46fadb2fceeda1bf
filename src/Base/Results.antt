-- ===== src/Base/Results.antt =====
-- `Result<A, E>`, with the `?` operator as the bind of a `do` block.
use mathlib.Core.Path.{◌≡◌, refl}
use mathlib.Core.Bool.{Bool, true, false}
use chromifer.Base.Tests.{if◌then◌else◌}

pub data Result (E A : Type 0) : Type 0 where
  ok : A → Result E A
  err : E → Result E A

infixl 5 ◌>>=◌ ◌>>◌
abbrev pub ◌>>=◌ : {E A B : Type 0} → Result E A → (A → Result E B) → Result E B
ok a >>= f = f a
err e >>= f = err e

abbrev pub ◌>>◌ : {E A B : Type 0} → Result E A → Result E B → Result E B
m >> k = m >>= λ _. k

-- A condition on a value, if there is one
abbrev pub Yields : {E A : Type 0} → (A → Type 0) → Result E A → Type 0
Yields P (ok a) = P a
Yields P (err e) = Unit

pub Yields-bind :
    {E A B : Type 0} (P : A → Type 0) (Q : B → Type 0) (r : Result E A) (k : A → Result E B)
    → Yields P r
    → ((a : A) → P a → Yields Q (k a))
    → Yields Q (r >>= k)
Yields-bind P Q (ok a) k h step = step a h
Yields-bind P Q (err e) k h step = tt

pub Yields-any : {E A : Type 0} (r : Result E A) → Yields (λ a. Unit) r
Yields-any (ok a) = tt
Yields-any (err e) = tt

pub Yields-if :
    {E A : Type 0} (P : A → Type 0) (b : Bool) (r s : Result E A)
    → Yields P r
    → Yields P s
    → Yields P (if b then r else s)
Yields-if P true r s h k = h
Yields-if P false r s h k = k

-- A branch may use the test's result.
pub Yields-split :
    {E A : Type 0} (P : A → Type 0) (b : Bool) (r s : Result E A)
    → (b ≡ true → Yields P r)
    → (b ≡ false → Yields P s)
    → Yields P (if b then r else s)
Yields-split P true r s h k = h refl
Yields-split P false r s h k = k refl

-- What a chain that gives a value went through
pub bind-ok :
    {E A B : Type 0} (m : Result E A) (k : A → Result E B) (b : B)
    → (m >>= k) ≡ ok b
    → (a : A) × (m ≡ ok a) × (k a ≡ ok b)
bind-ok (ok a) k b h = (a, refl, h)
bind-ok (err e) k b h = cc

pub ok-injective : {E A : Type 0} (a b : A) → ◌≡◌ {A = Result E A} (ok a) (ok b) → a ≡ b
ok-injective a b h = cc h
