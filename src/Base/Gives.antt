-- ===== src/Base/Gives.antt =====
-- What holds of the value of a computation: if it has one (`Always`), or with the claim that it has
-- one (`Gives`).
use mathlib.Core.Path.{◌≡◌, refl, sym, subst}
use mathlib.Core.Bool.{Bool, true, false}
use mathlib.Core.Option.{Option, none, some}
use modem_modules.Base.Tests.{◌>>=◌, if◌then◌else◌}

abbrev pub Always {ℓ κ} : {A : Type ℓ} → (A → Type κ) → Option A → Type κ
Always P none = Unit
Always P (some a) = P a

pub Always-bind {ℓ κ μ} :
    {A : Type ℓ} {B : Type κ} (P : B → Type μ) (m : Option A) (f : A → Option B)
    → ((a : A) → Always P (f a))
    → Always P (m >>= f)
Always-bind P none f h = tt
Always-bind P (some a) f h = h a

pub Always-then {ℓ κ μ ν} :
    {A : Type ℓ} {B : Type κ} (Q : A → Type ν) (P : B → Type μ) (m : Option A) (f : A → Option B)
    → Always Q m
    → ((a : A) → Q a → Always P (f a))
    → Always P (m >>= f)
Always-then Q P none f q h = tt
Always-then Q P (some a) f q h = h a q

pub Always-if {ℓ κ} :
    {A : Type ℓ} (P : A → Type κ) (b : Bool) (m n : Option A)
    → (b ≡ true → Always P m)
    → (b ≡ false → Always P n)
    → Always P (if b then m else n)
Always-if P true m n p q = p refl
Always-if P false m n p q = q refl

pub Always-at {ℓ κ} :
    {A : Type ℓ} (P : A → Type κ) (m : Option A) (a : A) → m ≡ some a → Always P m → P a
Always-at P m a e h = subst (Always P) e h

abbrev pub Gives {ℓ} : {A : Type ℓ} → (A → Type 0) → Option A → Type 0
Gives P none = ⊥
Gives P (some a) = P a

pub Gives-bind {ℓ κ} :
    {A : Type ℓ} {B : Type κ} (Q : A → Type 0) (P : B → Type 0) (m : Option A) (f : A → Option B)
    → Gives Q m
    → ((a : A) → Q a → Gives P (f a))
    → Gives P (m >>= f)
Gives-bind Q P none f q h = absurd q
Gives-bind Q P (some a) f q h = h a q

pub Gives-if {ℓ} :
    {A : Type ℓ} (P : A → Type 0) (b : Bool) (m n : Option A)
    → (b ≡ true → Gives P m)
    → (b ≡ false → Gives P n)
    → Gives P (if b then m else n)
Gives-if P true m n p q = p refl
Gives-if P false m n p q = q refl

pub Gives-some {ℓ} :
    {A : Type ℓ} (P : A → Type 0) (m : Option A) → Gives P m → (a : A) × (m ≡ some a) × P a
Gives-some P none h = absurd h
Gives-some P (some a) h = (a, refl, h)

pub Gives-at {ℓ} :
    {A : Type ℓ} (P : A → Type 0) (m : Option A) (a : A) → m ≡ some a → P a → Gives P m
Gives-at P m a e h = subst (Gives P) (sym e) h

pub Gives-itself :
    {A : Type 0} (P : A → Type 0) (m : Option A) → Gives P m → Gives (λ a. (m ≡ some a) × P a) m
Gives-itself P none h = absurd h
Gives-itself P (some a) h = (refl, h)

pub Gives-map {ℓ} :
    {A : Type ℓ} (P Q : A → Type 0) (m : Option A) → Gives P m → ((a : A) → P a → Q a) → Gives Q m
Gives-map P Q none h f = absurd h
Gives-map P Q (some a) h f = f a h
