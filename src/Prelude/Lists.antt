-- ===== src/Prelude/Lists.antt =====
-- Lists measured by native numbers, Boolean searches, and predicates by recursion.
use Prim.Native.Nat.{ℕ, zero, suc, ◌+◌, ◌-◌, ◌*◌, ◌≤◌}
use mathlib.Core.Path.{◌≡◌, refl, ap}
use mathlib.Core.Bool.{Bool, true, false, ◌&&◌, ◌||◌}
use mathlib.Core.Option.{Option, none, some}
use mathlib.Core.Logic.{inl, inr}
use mathlib.Core.List.{List, [], ◌∷◌, ◌++◌, map, Memᴰ}
use mathlib.Core.List.Memᴰ
use native.Mathlib.Omega.{arith}
use mgds.Prelude.Tests.{if◌then◌else◌, Bool-cases}
use mgds.Prelude.Equality.{Comparable, ◌==◌}

module _ {ℓ} {A : Type ℓ} where
  abbrev pub length : List A → ℕ
  length [] = 0
  length (x ∷ xs) = suc (length xs)

  -- Array.prototype.at(-1)
  abbrev pub last? : List A → Option A
  last? [] = none
  last? (x ∷ []) = some x
  last? (x ∷ y ∷ xs) = last? (y ∷ xs)

  -- Array.prototype.every, some, find and filter
  abbrev pub every : (A → Bool) → List A → Bool
  every p [] = true
  every p (x ∷ xs) = p x && every p xs

  abbrev pub any : (A → Bool) → List A → Bool
  any p [] = false
  any p (x ∷ xs) = p x || any p xs

  abbrev pub find : (A → Bool) → List A → Option A
  find p [] = none
  find p (x ∷ xs) = if p x then some x else find p xs

  abbrev pub keep : (A → Bool) → List A → List A
  keep p [] = []
  keep p (x ∷ xs) = if p x then x ∷ keep p xs else keep p xs

  pub length-append : (xs ys : List A) → length (xs ++ ys) ≡ length xs + length ys
  length-append [] ys = omega arith
  length-append (x ∷ xs) ys = omega (arith, length-append xs ys)

  pub last?-append : (xs : List A) (y : A) → last? (xs ++ y ∷ []) ≡ some y
  last?-append [] y = refl
  last?-append (x ∷ []) y = refl
  last?-append (x ∷ z ∷ xs) y = last?-append (z ∷ xs) y

module _ {ℓ κ} {A : Type ℓ} (P : A → Type κ) where
  abbrev pub All : List A → Type κ
  All [] = Unit
  All (x ∷ xs) = P x × All xs

  pub All-append : (xs ys : List A) → All xs → All ys → All (xs ++ ys)
  All-append [] ys hx hy = hy
  All-append (x ∷ xs) ys hx hy = (hx.0, All-append xs ys hx.1 hy)

-- Set.has, Array.prototype.includes
abbrev pub has {ℓ} : {A : Type ℓ} ⦃cmp : Comparable A⦄ → List A → A → Bool
has [] a = false
has (x ∷ xs) a = x == a || has xs a

-- `new Set(xs).size === xs.length`
abbrev pub is_unique {ℓ} : {A : Type ℓ} ⦃cmp : Comparable A⦄ → List A → Bool
is_unique [] = true
is_unique (x ∷ xs) = (if has xs x then false else true) && is_unique xs

pub length-map {ℓ κ} :
    {A : Type ℓ} {B : Type κ} (f : A → B) (xs : List A) → length (map f xs) ≡ length xs
length-map f [] = refl
length-map f (x ∷ xs) = ap suc (length-map f xs)

pub All-split {ℓ κ} :
    {A : Type ℓ} (P : A → Type κ) (xs ys : List A) → All P (xs ++ ys) → All P xs × All P ys
All-split P [] ys h = (tt, h)
All-split P (x ∷ xs) ys h = let (a, b) = All-split P xs ys h.1 in ((h.0, a), b)

pub All-unmap {ℓ κ ι} :
    {A : Type ℓ} {B : Type κ} (P : B → Type ι) (f : A → B) (xs : List A)
    → All P (map f xs)
    → All (λ x. P (f x)) xs
All-unmap P f [] h = tt
All-unmap P f (x ∷ xs) h = (h.0, All-unmap P f xs h.1)

pub All-imp {ℓ κ ι} :
    {A : Type ℓ} {P : A → Type κ} {Q : A → Type ι} (f : (x : A) → P x → Q x) (xs : List A)
    → All P xs
    → All Q xs
All-imp f [] h = tt
All-imp f (x ∷ xs) h = (f x h.0, All-imp f xs h.1)

pub any-Memᴰ {ℓ} :
    {A : Type ℓ} (p : A → Bool) (xs : List A) → any p xs ≡ true → (x : A) × Memᴰ x xs × (p x ≡ true)
any-Memᴰ p [] h = cc
any-Memᴰ p (x ∷ xs) h = elim (Bool-cases (p x)) [
  | inl here ↦ (x, Memᴰ.head refl, here)
  | inr away ↦ let (y, there, holds) = any-Memᴰ p xs (rw away at h) in (y, Memᴰ.tail there, holds)
]

module _ {ℓ κ} {A : Type ℓ} {B : Type κ} where
  -- Array.prototype.flatMap, and nested loops that push
  unfoldable pub flat_map : (A → List B) → List A → List B
  flat_map f [] = []
  flat_map f (x ∷ xs) = f x ++ flat_map f xs

  pub length-flat_map :
      (f : A → List B) (n : ℕ) (xs : List A)
      → ((x : A) → length (f x) ≡ n)
      → length (flat_map f xs) ≡ length xs * n
  unfolding flat_map
  length-flat_map f n [] h = omega arith
  length-flat_map f n (x ∷ xs) h =
      rw (length-append (f x) (flat_map f xs), h x, length-flat_map f n xs h) (omega arith)

  pub flat_map-Memᴰ :
      (f : A → List B) (xs : List A) (x : A) (y : B)
      → Memᴰ x xs
      → Memᴰ y (f x)
      → Memᴰ y (flat_map f xs)
  unfolding flat_map
  flat_map-Memᴰ f [] x y m n = absurd (Memᴰ.not-nil m)
  flat_map-Memᴰ f (z ∷ xs) x y (Memᴰ.head e) n = Memᴰ.append_left (flat_map f xs) (rw⁻¹ e n)
  flat_map-Memᴰ f (z ∷ xs) x y (Memᴰ.tail m) n =
      Memᴰ.append_right (f z) (flat_map-Memᴰ f xs x y m n)

  pub Memᴰ-flat_map :
      (f : A → List B) (xs : List A) (y : B)
      → Memᴰ y (flat_map f xs)
      → (x : A) × Memᴰ x xs × Memᴰ y (f x)
  unfolding flat_map
  Memᴰ-flat_map f [] y m = absurd (Memᴰ.not-nil m)
  Memᴰ-flat_map f (x ∷ xs) y m = elim (Memᴰ.append_cases (f x) m) [
    | inl here ↦ (x, Memᴰ.head refl, here)
    | inr there ↦ let (z, n, k) = Memᴰ-flat_map f xs y there in (z, Memᴰ.tail n, k)
  ]

module _ {ℓ} {A : Type ℓ} where
  -- slice(0, n) and slice(n)
  abbrev pub take : ℕ → List A → List A
  take zero xs = []
  take (suc n) [] = []
  take (suc n) (x ∷ xs) = x ∷ take n xs

  abbrev pub drop : ℕ → List A → List A
  drop zero xs = xs
  drop (suc n) [] = []
  drop (suc n) (x ∷ xs) = drop n xs

  pub length-drop : (n : ℕ) (xs : List A) → length (drop n xs) ≡ length xs - n
  length-drop zero xs = omega arith
  length-drop (suc n) [] = omega arith
  length-drop (suc n) (x ∷ xs) = omega (arith, length-drop n xs)

-- what a filter keeps
pub Memᴰ-keep {ℓ} :
    {A : Type ℓ} (p : A → Bool) (xs : List A) (y : A)
    → Memᴰ y (keep p xs)
    → Memᴰ y xs × (p y ≡ true)
Memᴰ-keep p [] y m = absurd (Memᴰ.not-nil m)
Memᴰ-keep p (x ∷ xs) y m = elim (Bool-cases (p x)) [
  | inr failed ↦ let (n, q) = Memᴰ-keep p xs y (rw failed at m) in (Memᴰ.tail n, q)
  | inl held ↦ elim (Memᴰ.cases_cons (rw held at m)) [
    | inl e ↦ (Memᴰ.head e, rw e held)
    | inr more ↦ let (n, q) = Memᴰ-keep p xs y more in (Memᴰ.tail n, q)
  ]
]

pub keep-Memᴰ {ℓ} :
    {A : Type ℓ} (p : A → Bool) (xs : List A) (y : A) → Memᴰ y xs → p y ≡ true → Memᴰ y (keep p xs)
keep-Memᴰ p [] y m q = absurd (Memᴰ.not-nil m)
keep-Memᴰ p (x ∷ xs) y (Memᴰ.head e) q = rw (rw e at q) (Memᴰ.head e)
keep-Memᴰ p (x ∷ xs) y (Memᴰ.tail m) q = elim (Bool-cases (p x)) [
  | inl held ↦ rw held (Memᴰ.tail (keep-Memᴰ p xs y m q))
  | inr failed ↦ rw failed (keep-Memᴰ p xs y m q)
]

pub length-take {ℓ} : {A : Type ℓ} (n : ℕ) (xs : List A) → length (take n xs) ≤ n
length-take zero xs = omega arith
length-take (suc n) [] = omega arith
length-take (suc n) (x ∷ xs) = omega (arith, length-take n xs)
