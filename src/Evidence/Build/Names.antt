-- ===== src/Evidence/Build/Names.antt =====
-- What a portable name cannot do.
use mgds.Prelude.{
  All, All-imp, Bool, Bool-cases, List, Text, [], and-eq-true, ap, ap₂, arith, eqb, eqb_iff, every,
  false, inl, inr, join, length, lit, ltb, nat_eq, ne_of_beq, not, push_unit, refl, split_on, sym,
  text_eq, true, ℕ, ◌==◌, ◌∙◌, ◌∷◌, ◌≡◌, ◌≢◌,
}
use mgds.Evidence.Build.{is_reserved, is_portable_unit, valid_segment, valid_portable_build_name}

-- A part of a name that stays below its directory and is no device.
pub record Plain (segment : Text) : Type 0 where
  pub not_empty : segment ≢ []
  pub not_here : segment ≢ lit "."
  pub not_up : segment ≢ lit ".."
  pub not_device : is_reserved segment ≡ false
  pub characters : every is_portable_unit segment ≡ true

not-true : (b : Bool) → not b ≡ true → b ≡ false
not-true b h = ground arith

valid_segment-Plain : (segment : Text) → valid_segment segment ≡ true → Plain segment
unfolding valid_segment
valid_segment-Plain segment h =
    let (a, device) = and-eq-true _ (not (is_reserved segment)) h in
    let (b, characters) = and-eq-true _ (every is_portable_unit segment) a in
    let (c, _) = and-eq-true _ _ b in
    let (d, up) = and-eq-true _ (not (segment == lit "..")) c in
    let (e, here) = and-eq-true _ (not (segment == lit ".")) d in
    let (long, _) = and-eq-true (ltb 0 (length segment)) _ e in
    record {
      not_empty = λ z. cc (rw z at long);
      not_here = ne_of_beq segment (lit ".") (not-true (segment == lit ".") here);
      not_up = ne_of_beq segment (lit "..") (not-true (segment == lit "..") up);
      not_device = not-true (is_reserved segment) device;
      characters = characters;
    }

every-All : {A : Type 0} (p : A → Bool) (xs : List A) → every p xs ≡ true → All (λ x. p x ≡ true) xs
every-All p [] h = tt
every-All p (x ∷ xs) h = let (a, b) = and-eq-true (p x) (every p xs) h in (a, every-All p xs b)

join-push :
    (sep c : ℕ) (parts : List Text)
    → parts ≢ []
    → join (sep ∷ []) (push_unit c parts) ≡ c ∷ join (sep ∷ []) parts
join-push sep c [] ne = absurd (ne refl)
join-push sep c (part ∷ []) ne = refl
join-push sep c (part ∷ other ∷ parts) ne = refl

push-not_nil : (c : ℕ) (parts : List Text) → push_unit c parts ≢ []
push-not_nil c [] e = cc
push-not_nil c (part ∷ parts) e = cc

split-not_nil : (sep : ℕ) (t : Text) → split_on sep t ≢ []
split-not_nil sep [] e = cc
split-not_nil sep (c ∷ t) e = elim (Bool-cases (eqb c sep)) [
  | inl here ↦ cc (simp here at e)
  | inr other ↦ push-not_nil c (split_on sep t) (simp other at e)
]

join-cons_nil :
    (sep : ℕ) (parts : List Text)
    → parts ≢ []
    → join (sep ∷ []) ([] ∷ parts) ≡ sep ∷ join (sep ∷ []) parts
join-cons_nil sep [] ne = absurd (ne refl)
join-cons_nil sep (part ∷ parts) ne = refl

join-split : (sep : ℕ) (t : Text) → join (sep ∷ []) (split_on sep t) ≡ t
join-split sep [] = refl
join-split sep (c ∷ t) = elim (Bool-cases (eqb c sep)) [
  | inl here ↦ simp here (
      join-cons_nil sep (split_on sep t) (split-not_nil sep t)
      ∙ ap₂ (λ a b. a ∷ b) (sym ((eqb_iff c sep).0 here)) (join-split sep t))
  | inr other ↦
      simp other (
        join-push sep c (split_on sep t) (split-not_nil sep t) ∙ ap (λ b. c ∷ b) (join-split sep t))
]

-- A portable name of a build file is a path below its directory: it is its parts with slashes
-- between, none of which is empty, the directory itself, its parent or a device name, and all of
-- whose characters are letters, digits, `_`, `-` and `.`.
pub portable_name_stays_inside :
    (name : Text)
    → valid_portable_build_name name ≡ true
    → (parts : List Text) × (join (lit "/") parts ≡ name) × All Plain parts
unfolding valid_portable_build_name
portable_name_stays_inside name h =
    let (_, segments) = and-eq-true _ (every valid_segment (split_on b'/' name)) h in
    (
      split_on b'/' name,
      join-split b'/' name,
      All-imp valid_segment-Plain (split_on b'/' name)
          (every-All valid_segment (split_on b'/' name) segments),
    )
