-- ===== src/Base/Panic.antt =====
-- A step that may panic: `none` is the panic.
use mathlib.Core.Path.{◌≡◌, refl}
use mathlib.Core.Option.{Option, none, some}

infixl 5 ◌>>=◌
abbrev pub ◌>>=◌ {ℓ κ} : {A : Type ℓ} {B : Type κ} → Option A → (A → Option B) → Option B
none >>= f = none
some a >>= f = f a

pub >>=-eq-some {ℓ κ} :
    {A : Type ℓ} {B : Type κ} (m : Option A) (f : A → Option B) {b : B}
    → (m >>= f) ≡ some b
    → (a : A) × (m ≡ some a) × (f a ≡ some b)
>>=-eq-some (some a) f h = (a, refl, h)
>>=-eq-some none f h = cc

-- The predicate holds of the result, if there is one.
abbrev pub Holds {ℓ κ} : {A : Type ℓ} → (A → Type κ) → Option A → Type κ
Holds P none = Unit
Holds P (some a) = P a

pub Holds-bind {ℓ κ λ'} :
    {A : Type ℓ} {B : Type κ} (P : B → Type λ') (m : Option A) (f : A → Option B)
    → ((a : A) → Holds P (f a))
    → Holds P (m >>= f)
Holds-bind P none f h = tt
Holds-bind P (some a) f h = h a

pub Holds-bind-Holds {ℓ κ λ' μ} :
    {A : Type ℓ} {B : Type κ} (Q : A → Type μ) (P : B → Type λ') (m : Option A) (f : A → Option B)
    → Holds Q m
    → ((a : A) → Q a → Holds P (f a))
    → Holds P (m >>= f)
Holds-bind-Holds Q P none f q h = tt
Holds-bind-Holds Q P (some a) f q h = h a q
