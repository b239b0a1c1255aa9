-- ===== src/Common/Outcome.antt =====
-- How a run of C code ends: a result, an access that the machine traps or that reads memory never
-- written, or no end within the fuel.
use mathlib.Core.Path.{◌≡◌, subst, refl}
use mathlib.Core.Logic.{◌⊎◌, inl, inr}
use mathlib.Core.Bool.{Bool, true, false}
use cheritest.Common.Tests.{if◌then◌else◌}

pub data Run {ℓ} (A : Type ℓ) : Type ℓ where
  ok : A → Run A
  fault hung : Run A

infixl 5 ◌>>=◌ ◌>>◌
abbrev pub ◌>>=◌ {ℓ κ} : {A : Type ℓ} {B : Type κ} → Run A → (A → Run B) → Run B
ok a >>= f = f a
fault >>= f = fault
hung >>= f = hung

abbrev pub ◌>>◌ {ℓ κ} : {A : Type ℓ} {B : Type κ} → Run A → Run B → Run B
m >> k = m >>= λ _. k

-- Every result of a run satisfies the predicate.
abbrev pub Every {ℓ κ} : {A : Type ℓ} → (A → Type κ) → Run A → Type κ
Every P (ok a) = P a
Every P fault = Unit
Every P hung = Unit

module _ {ℓ κ} {A : Type ℓ} (P : A → Type κ) where
  pub Every-if : (b : Bool) (x y : Run A) → Every P x → Every P y → Every P (if b then x else y)
  Every-if true x y p q = p
  Every-if false x y p q = q

  pub Every-bind {ℓ' κ'} :
      {B : Type ℓ'} (Q : B → Type κ') (r : Run B) (f : B → Run A)
      → Every Q r
      → ((b : B) → Q b → Every P (f b))
      → Every P (r >>= f)
  Every-bind Q (ok b) f q h = h b q
  Every-bind Q fault f q h = tt
  Every-bind Q hung f q h = tt

  pub Every-ok : (r : Run A) (a : A) → Every P r → r ≡ ok a → P a
  Every-ok r a p e = subst (Every P) e p

pub Run-cases {ℓ} : {A : Type ℓ} (r : Run A) → ((a : A) × (r ≡ ok a)) ⊎ ((r ≡ fault) ⊎ (r ≡ hung))
Run-cases (ok a) = inl (a, refl)
Run-cases fault = inr (inl refl)
Run-cases hung = inr (inr refl)
