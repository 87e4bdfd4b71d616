-- ===== src/Prelude/Effects.antt =====
-- Methods that change a stored state and may throw. What was saved before a throw stays saved, so
-- the state comes back beside the error too.
use mathlib.Core.Path.{◌≡◌, refl}
use mathlib.Core.Logic.{◌⊎◌, inl, inr}
use mathlib.Core.Bool.{Bool, true, false}
use mathlib.Core.Option.{Option, none, some}
use mgds.Prelude.Tests.{if◌then◌else◌}

pub data Result {ℓ κ} (E : Type ℓ) (A : Type κ) : Type (ℓ ⊔ κ) where
  ok : A → Result E A
  err : E → Result E A

abbrev pub Exec {ℓ κ ι} : Type ℓ → Type κ → Type ι → Type (ℓ ⊔ κ ⊔ ι)
Exec S E A = S → Result E A × S

pub ok-inj {ℓ κ} : {E : Type ℓ} {A : Type κ} {x y : A} → ◌≡◌ {A = Result E A} (ok x) (ok y) → x ≡ y
ok-inj h = cc

pub Result-cases {ℓ κ} :
    {E : Type ℓ} {A : Type κ} (r : Result E A) → ((a : A) × (r ≡ ok a)) ⊎ ((x : E) × (r ≡ err x))
Result-cases (ok a) = inl (a, refl)
Result-cases (err x) = inr (x, refl)

module _ {S E : Type 0} where
  abbrev pub pure : {A : Type 0} → A → Exec S E A
  pure a s = (ok a, s)

  abbrev pub throw : {A : Type 0} → E → Exec S E A
  throw x s = (err x, s)

  -- `await this.store.load()` and `await this.store.save(…)`
  abbrev pub load : Exec S E S
  load s = (ok s, s)

  abbrev pub save : S → Exec S E (Unit {0})
  save t s = (ok tt, t)

  abbrev pub lift : {A : Type 0} → Result E A → Exec S E A
  lift r s = (r, s)

  -- `if (!test) throw error`
  abbrev pub ensure : Bool → E → Exec S E (Unit {0})
  ensure test x s = if test then (ok tt, s) else (err x, s)

  abbrev pub require : {A : Type 0} → Option A → E → Exec S E A
  require none x s = (err x, s)
  require (some a) x s = (ok a, s)

  abbrev pub resume_with : {A B : Type 0} → Result E A → (A → Exec S E B) → Exec S E B
  resume_with (ok a) f s = f a s
  resume_with (err x) f s = (err x, s)

  infixl 10 ◌>>=◌ ◌>>◌
  abbrev pub ◌>>=◌ : {A B : Type 0} → Exec S E A → (A → Exec S E B) → Exec S E B
  ◌>>=◌ m f s = let (r, t) = m s in resume_with r f t

  abbrev pub ◌>>◌ : {A B : Type 0} → Exec S E A → Exec S E B → Exec S E B
  m >> n = m >>= λ _. n

abbrev pub map_ok {ℓ κ ι} :
    {E : Type ℓ} {A : Type κ} {B : Type ι} → (A → B) → Result E A → Result E B
map_ok f (ok a) = ok (f a)
map_ok f (err x) = err x

-- `if (!test) throw error`, where there is no state
abbrev pub need {ℓ κ} : {E : Type ℓ} {A : Type κ} → Bool → E → Result E A → Result E A
need true x r = r
need false x r = err x

pub need-ok {ℓ κ} :
    {E : Type ℓ} {A : Type κ} (test : Bool) (x : E) (r : Result E A) (a : A)
    → need test x r ≡ ok a
    → (test ≡ true) × (r ≡ ok a)
need-ok true x r a h = (refl, h)
need-ok false x r a h = cc

pub need-true {ℓ κ} :
    {E : Type ℓ} {A : Type κ} (test : Bool) (x : E) (r : Result E A)
    → test ≡ true
    → need test x r ≡ r
need-true true x r h = refl
need-true false x r h = cc
