-- ===== src/Ledger/Tamper.antt =====
-- What the hash chain protects: two ledgers of one length that verify and end in the same hash
-- hold the same events, or the bodies of two entries in one place clash: they differ and have
-- one digest.
use mgds.Prelude.{
  List, Text, [], and-eq-true, ap, append_assoc, arith, beq_cases, every, false, inl, inr, is_hex,
  length, length-append, lit, nat_eq, ne_of_beq, ok, pos, print_ℤ, refl, sym, text_eq, true, zeros,
  ℕ, ℤ, ◌++◌, ◌+◌, ◌∙◌, ◌∷◌, ◌≡◌, ◌≢◌, ◌⊎◌,
}
use mathlib.Core.Path.{ap₂}
use mgds.Json.{Value, num, str, canonical, quote, is_high, is_low, quote_unit, quote_units, braces}
use mgds.Ledger.Chain.{
  check_entry-facts, check_entry-body, check_entry-hash, verify_from-cons, final,
}
use mgds.Ledger.{Entry, genesis, body, check_entry, verify_from, verify}

-- the text of an entry that is hashed
abbrev pub body_text : Entry → Text
body_text e = canonical (body e.sequence e.previous_hash e.event)

-- In some place the hashed texts of the two entries differ and have one digest.
abbrev pub Clash : (Text → Text) → List Entry → List Entry → Type 0
Clash sha256 [] fs = ⊥
Clash sha256 (e ∷ es) [] = ⊥
Clash sha256 (e ∷ es) (f ∷ fs) =
    ((body_text e ≢ body_text f) × (sha256 (body_text e) ≡ sha256 (body_text f)))
    ⊎ Clash sha256 es fs

-- Event by event, one canonical text.
abbrev pub SameEvents : List Entry → List Entry → Type 0
SameEvents [] [] = Unit
SameEvents [] (f ∷ fs) = ⊥
SameEvents (e ∷ es) [] = ⊥
SameEvents (e ∷ es) (f ∷ fs) = (canonical e.event ≡ canonical f.event) × SameEvents es fs

-- sixty-four hexadecimal digits, as the digest is documented to be printed
abbrev pub IsHex64 : Text → Type 0
IsHex64 t = (length t ≡ 64) × (every is_hex t ≡ true)

cons-inj : {A : Type 0} {x y : A} {xs ys : List A} → x ∷ xs ≡ y ∷ ys → (x ≡ y) × (xs ≡ ys)
cons-inj h = (cc, cc)

length-append_right :
    {A : Type 0} (xs ys us vs : List A)
    → length us ≡ length vs
    → xs ++ us ≡ ys ++ vs
    → (xs ≡ ys) × (us ≡ vs)
length-append_right [] [] us vs l h = (refl, h)
length-append_right [] (y ∷ ys) us vs l h = absurd (omega (arith, ap length h, length-append ys vs))
length-append_right (x ∷ xs) [] us vs l h = absurd (omega (arith, ap length h, length-append xs us))
length-append_right (x ∷ xs) (y ∷ ys) us vs l h =
    let (head, rest) = cons-inj h in
    let (p, q) = length-append_right xs ys us vs l rest in (ap₂ ◌∷◌ head p, q)

hex-plain :
    (c : ℕ) → is_hex c ≡ true → (is_high c ≡ false) × (is_low c ≡ false) × (quote_unit c ≡ c ∷ [])
unfolding quote_unit
hex-plain c h = (ground arith, ground arith, ground arith)

quote_units-hex : (t : Text) → every is_hex t ≡ true → quote_units t ≡ t
unfolding quote_units
quote_units-hex [] h = refl
quote_units-hex (c ∷ []) h = let (a, b, q) = hex-plain c (and-eq-true _ _ h).0 in rw (a, b) q
quote_units-hex (c ∷ d ∷ s) h =
    let (here, rest) = and-eq-true (is_hex c) (every is_hex (d ∷ s)) h in
    let (a, b, q) = hex-plain c here in rw (a, b, q) (ap (c ∷◌) (quote_units-hex (d ∷ s) rest))

-- hexadecimal digits need no escape
quote-hex : (t : Text) → every is_hex t ≡ true → quote t ≡ b'"' ∷ (t ++ b'"' ∷ [])
unfolding quote
quote-hex t h = rw (quote_units-hex t h)

-- The printed body of an entry: the event stands first.
abbrev tail_text : Text → Text → Text
tail_text hash n =
    lit ",\"previousHash\":" ++ (quote hash ++ (lit ",\"sequence\":" ++ (n ++ lit "}")))

canonical-body :
    (n : ℤ) (p : Text) (event : Value)
    → canonical (body (num n) (str p) event)
      ≡ (lit "{\"event\":" ++ canonical event) ++ tail_text p (print_ℤ n)
unfolding canonical braces quote
canonical-body n p event = simp append_assoc

abbrev framed : Value → Text
framed event = lit "{\"event\":" ++ canonical event

append_cancel_left : {A : Type 0} (xs us vs : List A) → xs ++ us ≡ xs ++ vs → us ≡ vs
append_cancel_left [] us vs h = h
append_cancel_left (x ∷ xs) us vs h = append_cancel_left xs us vs (cons-inj h).1

abbrev head_part : Text
head_part = lit ",\"previousHash\":\""

abbrev last_part : Text → Text
last_part n = lit "\",\"sequence\":" ++ (n ++ lit "}")

tail_text-hex :
    (p n : Text) → every is_hex p ≡ true → tail_text p n ≡ head_part ++ (p ++ last_part n)
tail_text-hex p n h = rw (quote-hex p h) (simp append_assoc)

length-tail_text :
    (p q n : Text) → length p ≡ length q → length (p ++ last_part n) ≡ length (q ++ last_part n)
length-tail_text p q n l = rw (length-append p (last_part n), length-append q (last_part n), l) refl

-- Equal bodies name the same hash and hold events with one canonical text.
body-inj :
    (n : ℤ) (p q : Text) (v w : Value)
    → IsHex64 p
    → IsHex64 q
    → canonical (body (num n) (str p) v) ≡ canonical (body (num n) (str q) w)
    → (p ≡ q) × (canonical v ≡ canonical w)
body-inj n p q v w hp hq h =
    let e : framed v ++ (head_part ++ (p ++ last_part (print_ℤ n)))
        ≡ framed w ++ (head_part ++ (q ++ last_part (print_ℤ n))) =
      printed v p hp.1 ∙ h ∙ sym (printed w q hq.1) in
    let same_length : length p ≡ length q = hp.0 ∙ sym hq.0 in
    let (events, tails) =
      length-append_right (framed v) (framed w) (head_part ++ (p ++ last_part (print_ℤ n)))
        (head_part ++ (q ++ last_part (print_ℤ n)))
        (omega (arith, length-tail_text p q (print_ℤ n) same_length)) e in
    let ends =
      append_cancel_left head_part (p ++ last_part (print_ℤ n)) (q ++ last_part (print_ℤ n))
        tails in
    (
      (length-append_right p q (last_part (print_ℤ n)) (last_part (print_ℤ n)) refl ends).0,
      append_cancel_left (lit "{\"event\":") (canonical v) (canonical w) events,
    )
  where
    printed :
        (x : Value) (t : Text)
        → every is_hex t ≡ true
        → framed x ++ (head_part ++ (t ++ last_part (print_ℤ n)))
          ≡ canonical (body (num n) (str t) x)
    printed x t ht =
        rw canonical-body (ap (λ r. framed x ++ r) (sym (tail_text-hex t (print_ℤ n) ht)))

str-inj : (s t : Text) → str s ≡ str t → s ≡ t
str-inj s t h = cc

zeros-IsHex64 : IsHex64 (zeros 64)
zeros-IsHex64 = (refl, refl)

module _ (sha256 : Text → Text) (hex : (t : Text) → IsHex64 (sha256 t)) where
  -- One pair of entries: equal hashes give equal predecessors and events, or the entries clash.
  entry-binds :
      (i : ℕ) (p q : Text) (e f : Entry)
      → IsHex64 p
      → IsHex64 q
      → check_entry sha256 i (str p) e ≡ true
      → check_entry sha256 i (str q) f ≡ true
      → e.hash ≡ f.hash
      → ((p ≡ q) × (canonical e.event ≡ canonical f.event))
        ⊎ ((body_text e ≢ body_text f) × (sha256 (body_text e) ≡ sha256 (body_text f)))
  entry-binds i p q e f hp hq a b same =
      let digests : sha256 (body_text e) ≡ sha256 (body_text f) = str-inj _ _ (
        sym (check_entry-facts sha256 i (str p) e a).2
        ∙ same
        ∙ (check_entry-facts sha256 i (str q) f b).2) in
      elim (beq_cases (body_text e) (body_text f)) [
        | inl equal ↦ inl (
            body-inj (pos (i + 1)) p q e.event f.event hp hq
              (sym (check_entry-body sha256 i p e a) ∙ equal ∙ check_entry-body sha256 i q f b))
        | inr other ↦ inr (ne_of_beq (body_text e) (body_text f) other, digests)
      ]

  chain-binds :
      (i : ℕ) (p q : Text) (es fs : List Entry)
      → IsHex64 p
      → IsHex64 q
      → length es ≡ length fs
      → verify_from sha256 i (str p) es ≡ ok tt
      → verify_from sha256 i (str q) fs ≡ ok tt
      → final (str p) es ≡ final (str q) fs
      → ((p ≡ q) × SameEvents es fs) ⊎ Clash sha256 es fs
  chain-binds i p q [] [] hp hq l a b same = inl (str-inj p q same, tt)
  chain-binds i p q [] (f ∷ fs) hp hq l a b same = absurd (omega arith)
  chain-binds i p q (e ∷ es) [] hp hq l a b same = absurd (omega arith)
  chain-binds i p q (e ∷ es) (f ∷ fs) hp hq l a b same =
      let (ce, ve) = verify_from-cons sha256 i (str p) e es a in
      let (cf, vf) = verify_from-cons sha256 i (str q) f fs b in
      let x = canonical (body (num (pos (i + 1))) (str p) e.event) in
      let y = canonical (body (num (pos (i + 1))) (str q) f.event) in
      let he : e.hash ≡ str (sha256 x) = check_entry-hash sha256 i p e ce in
      let hf : f.hash ≡ str (sha256 y) = check_entry-hash sha256 i q f cf in
      elim (chain-binds (i + 1) (sha256 x) (sha256 y) es fs (hex x) (hex y) (omega arith)
        (rw he at ve) (rw hf at vf)
        (ap (λ h. final h es) (sym he) ∙ same ∙ ap (λ h. final h fs) hf)) [
          | inl (equal, rest) ↦
              elim (entry-binds i p q e f hp hq ce cf (he ∙ ap str equal ∙ sym hf)) [
                | inl (previous, events) ↦ inl (previous, (events, rest))
                | inr found ↦ inr (inl found)
              ]
          | inr found ↦ inr (inr found)
        ]

  -- Of two ledgers with as many entries, which both verify and end in the same hash, each event
  -- of the one has the canonical text of the event in that place of the other, or in some
  -- place the texts that the two entries hash differ and have one digest. All digests are
  -- sixty-four hexadecimal digits.
  pub verify_binds_events :
      (es fs : List Entry)
      → length es ≡ length fs
      → verify sha256 es ≡ ok tt
      → verify sha256 fs ≡ ok tt
      → final genesis es ≡ final genesis fs
      → SameEvents es fs ⊎ Clash sha256 es fs
  unfolding verify
  verify_binds_events es fs l a b same =
      elim (chain-binds 0 (zeros 64) (zeros 64) es fs zeros-IsHex64 zeros-IsHex64 l a b same) [
        | inl (_, events) ↦ inl events
        | inr found ↦ inr found
      ]
