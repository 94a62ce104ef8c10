-- ===== src/Base/Always.antt =====
-- What holds of the value of a step that may raise.
use mathlib.Core.Path.{◌≡◌, refl, subst}
use mathlib.Core.Option.{Option, none, some}
use autonat_project.Base.{◌>>=◌}

-- What holds of the result, if there is one.
abbrev pub Always {ℓ κ} : {A : Type ℓ} → (A → Type κ) → Option A → Type (ℓ ⊔ κ)
Always P o = (x : _) → o ≡ some x → P x

pub Always-bind {ℓ κ μ} :
    {A : Type ℓ} {B : Type κ} (P : B → Type μ) (o : Option A) (f : A → Option B)
    → ((a : A) → o ≡ some a → Always P (f a))
    → Always P (o >>= f)
Always-bind P none f g x h = absurd (cc)
Always-bind P (some a) f g x h = g a refl x h

pub Always-some {ℓ κ} : {A : Type ℓ} (P : A → Type κ) (a : A) → P a → Always P (some a)
Always-some P a p x h = subst P (cc h) p
