-- ===== src/Prelude/Complaints.antt =====
-- Checks in a row that each push a complaint where their test fails.
use Prim.Native.Nat.{ℕ, zero, suc}
use mathlib.Core.Path.{◌≡◌, refl}
use mathlib.Core.Bool.{Bool, true, false}
use mathlib.Core.Option.{Option, none, some}
use mathlib.Core.List.{List, [], ◌∷◌}
use mgds.Prelude.Tests.{if◌then◌else◌}

module _ {ℓ} {E : Type ℓ} where
  -- `if (!test) failures.push(failure)`, one after the other
  abbrev pub collect : List (Bool × E) → List E
  collect [] = []
  collect ((test, failure) ∷ tests) = if test then collect tests else failure ∷ collect tests

  -- the test that stands at a place of the list
  abbrev pub test_at : ℕ → List (Bool × E) → Bool
  test_at n [] = true
  test_at zero (t ∷ tests) = t.0
  test_at (suc n) (t ∷ tests) = test_at n tests

  pub collect-nil : (n : ℕ) (tests : List (Bool × E)) → collect tests ≡ [] → test_at n tests ≡ true
  collect-nil n [] h = refl
  collect-nil zero ((true, f) ∷ tests) h = refl
  collect-nil (suc n) ((true, f) ∷ tests) h = collect-nil n tests h
  collect-nil zero ((false, f) ∷ tests) h = cc
  collect-nil (suc n) ((false, f) ∷ tests) h = cc

  -- `if (!test) return problem`, before what follows
  abbrev pub guard : Bool → E → Option E → Option E
  guard true problem rest = rest
  guard false problem rest = some problem

  pub guard-none :
      (test : Bool) (problem : E) (rest : Option E)
      → guard test problem rest ≡ none
      → (test ≡ true) × (rest ≡ none)
  guard-none true problem rest h = (refl, h)
  guard-none false problem rest h = cc

  -- the second of two checks is made where the first finds nothing
  abbrev pub or_else : Option E → Option E → Option E
  or_else none rest = rest
  or_else (some problem) rest = some problem

  pub or_else-none : (o rest : Option E) → or_else o rest ≡ none → (o ≡ none) × (rest ≡ none)
  or_else-none none rest h = (refl, h)
  or_else-none (some problem) rest h = cc
