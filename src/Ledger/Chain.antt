-- ===== src/Ledger/Chain.antt =====
-- `append` keeps a ledger verified, and refuses to write behind one that is not.
use mgds.Prelude.{
  List, Result, Result-cases, Text, [], ap, arith, beq_refl, eq_of_beq, err, false, inl, inr, last?,
  length, nat_eq, negsuc, ok, pos, refl, some, suc, sym, text_eq, true, ℕ, ◌++◌, ◌+◌, ◌∙◌, ◌∷◌, ◌≡◌,
  ◌⊎◌,
}
use mgds.Json.{canonical, Value, null, bool, num, str, arr, obj, strict_eq}
use mgds.Ledger.{
  Entry, genesis, body, digest, check_entry, verify_from, verify, head_hash, next_entry, append,
}

pub strict_eq_str : (v : Value) (t : Text) → strict_eq v (str t) ≡ true → v ≡ str t
unfolding strict_eq
strict_eq_str null t h = cc
strict_eq_str (bool true) t h = cc
strict_eq_str (bool false) t h = cc
strict_eq_str (num (pos n)) t h = cc
strict_eq_str (num (negsuc n)) t h = cc
strict_eq_str (str s) t h = ap str (eq_of_beq s t h)
strict_eq_str (arr xs) t h = cc
strict_eq_str (obj fs) t h = cc

pub strict_eq_num : (v : Value) (n : ℕ) → strict_eq v (num (pos n)) ≡ true → v ≡ num (pos n)
unfolding strict_eq
strict_eq_num null n h = cc
strict_eq_num (bool true) n h = cc
strict_eq_num (bool false) n h = cc
strict_eq_num (num (pos m)) n h = ap (λ k. num (pos k)) (eq_of_beq m n h)
strict_eq_num (num (negsuc m)) n h = cc
strict_eq_num (str s) n h = cc
strict_eq_num (arr xs) n h = cc
strict_eq_num (obj fs) n h = cc

strict_eq_str_refl : (t : Text) → strict_eq (str t) (str t) ≡ true
unfolding strict_eq
strict_eq_str_refl t = beq_refl t

strict_eq_num_refl : (n : ℕ) → strict_eq (num (pos n)) (num (pos n)) ≡ true
unfolding strict_eq
strict_eq_num_refl n = beq_refl n

-- the hash that the next entry has to name: the last one, or where the loop began
abbrev pub final : Value → List Entry → Value
final p [] = p
final p (e ∷ es) = final e.hash es

abbrev pub IsString : Value → Type 0
IsString v = (t : Text) × (v ≡ str t)

module _ (sha256 : Text → Text) where
  -- What one passed round of the loop has established.
  pub check_entry-facts :
      (i : ℕ) (p : Value) (e : Entry)
      → check_entry sha256 i p e ≡ true
      → (strict_eq e.sequence (num (pos (i + 1))) ≡ true)
        × (strict_eq e.previous_hash p ≡ true)
        × (e.hash ≡ str (digest sha256 (body e.sequence e.previous_hash e.event)))
  unfolding check_entry
  check_entry-facts i p e h = (ground arith, ground arith, strict_eq_str e.hash _ (ground arith))

  -- The hash of an entry that passed is that of the body which the loop expects.
  pub check_entry-hash :
      (i : ℕ) (p : Text) (e : Entry)
      → check_entry sha256 i (str p) e ≡ true
      → e.hash ≡ str (digest sha256 (body (num (pos (i + 1))) (str p) e.event))
  check_entry-hash i p e h =
      let (a, b, c) = check_entry-facts i (str p) e h in
      cc (c, strict_eq_num e.sequence (i + 1) a, strict_eq_str e.previous_hash p b)

  -- An entry that passed has the body which the loop expects.
  pub check_entry-body :
      (i : ℕ) (p : Text) (e : Entry)
      → check_entry sha256 i (str p) e ≡ true
      → canonical (body e.sequence e.previous_hash e.event)
        ≡ canonical (body (num (pos (i + 1))) (str p) e.event)
  check_entry-body i p e h =
      let (a, b, c) = check_entry-facts i (str p) e h in
      cc (strict_eq_num e.sequence (i + 1) a, strict_eq_str e.previous_hash p b)

  pub verify_from-cons :
      (i : ℕ) (p : Value) (e : Entry) (es : List Entry)
      → verify_from sha256 i p (e ∷ es) ≡ ok tt
      → (check_entry sha256 i p e ≡ true) × (verify_from sha256 (i + 1) e.hash es ≡ ok tt)
  unfolding verify_from
  verify_from-cons i p e es h = ground arith

  final-IsString :
      (i : ℕ) (p : Value) (es : List Entry)
      → IsString p
      → verify_from sha256 i p es ≡ ok tt
      → IsString (final p es)
  final-IsString i p [] s h = s
  final-IsString i p (e ∷ es) s h =
      let (c, r) = verify_from-cons i p e es h in
      final-IsString (i + 1) e.hash es (_, (check_entry-facts i p e c).2) r

  verify_from-append :
      (i : ℕ) (p : Value) (es : List Entry) (e : Entry)
      → verify_from sha256 i p es ≡ ok tt
      → check_entry sha256 (i + length es) (final p es) e ≡ true
      → verify_from sha256 i p (es ++ e ∷ []) ≡ ok tt
  unfolding verify_from
  verify_from-append i p [] e h c = let z : i + 0 ≡ i = omega arith in rw (rw z at c)
  verify_from-append i p (f ∷ es) e h c =
      let (d, r) = verify_from-cons i p f es h in
      let z : i + suc (length es) ≡ i + 1 + length es = omega arith in
      rw d (verify_from-append (i + 1) f.hash es e r (rw z at c))

last?-final :
    (p : Value) (e : Entry) (es : List Entry)
    → (x : Entry) × (last? (e ∷ es) ≡ some x) × (x.hash ≡ final p (e ∷ es))
last?-final p e [] = (e, refl, refl)
last?-final p e (f ∷ es) = last?-final e.hash f es

module _ (sha256 : Text → Text) where
  head_hash-final : (es : List Entry) → verify sha256 es ≡ ok tt → head_hash es ≡ final genesis es
  unfolding head_hash verify
  head_hash-final [] h = refl
  head_hash-final (e ∷ es) h =
      let (x, l, q) = last?-final genesis e es in
      let (t, s) = final-IsString sha256 0 genesis (e ∷ es) (_, refl) h in rw (l, q ∙ s) (sym s)

  next_entry-check :
      (es : List Entry) (event : Value)
      → verify sha256 es ≡ ok tt
      → check_entry sha256 (length es) (final genesis es) (next_entry sha256 es event) ≡ true
  unfolding check_entry next_entry
  next_entry-check es event h =
      let (t, s) = final-IsString sha256 0 genesis es (_, refl) (unfold verify in h) in
      let q = head_hash-final es h in
      rw (q, s, strict_eq_num_refl (length es + 1), strict_eq_str_refl t) (strict_eq_str_refl _)

  extended :
      (es : List Entry) (event : Value)
      → verify sha256 es ≡ ok tt
      → verify sha256 (es ++ next_entry sha256 es event ∷ []) ≡ ok tt
  unfolding verify
  extended es event h =
      verify_from-append sha256 0 genesis es (next_entry sha256 es event) h
        (let z : 0 + length es ≡ length es = omega arith in rw z (next_entry-check es event h))

  -- What `append` does on every file: behind a ledger that verifies it writes one entry, with the
  -- event asked for and the next sequence, and the longer ledger verifies; behind any other it
  -- throws the error of `verify` and writes nothing.
  pub append_lem :
      (es : List Entry) (event : Value)
      → ((entry : Entry) × (append sha256 event es ≡ (ok entry, es ++ entry ∷ []))
          × (verify sha256 (es ++ entry ∷ []) ≡ ok tt)
          × (entry.event ≡ event)
          × (entry.sequence ≡ num (pos (length es + 1))))
        ⊎ ((i : ℕ) × (verify sha256 es ≡ err i) × (append sha256 event es ≡ (err i, es)))
  unfolding append
  append_lem es event = elim (Result-cases (verify sha256 es)) [
    | inl (tt, good) ↦
        inl (next_entry sha256 es event, rw good refl, extended es event good, refl, refl)
    | inr (i, bad) ↦ inr (i, bad, rw bad refl)
  ]

  written_as :
      (es : List Entry) (event : Value) {fs gs : List Entry} {x y : Entry}
      → append sha256 event es ≡ (ok x, fs)
      → append sha256 event es ≡ (ok y, gs)
      → fs ≡ gs
  written_as es event a b = ap (λ (r : Result ℕ Entry × List Entry). r.1) (sym a ∙ b)

  -- A file written by `append` alone.
  pub data Written : List Entry → Type 0 where
    empty : Written []
    more :
        {es fs : List Entry} (event : Value) {entry : Entry}
        → Written es
        → append sha256 event es ≡ (ok entry, fs)
        → Written fs

  -- Every file that appends alone have written, from an empty one, verifies.
  pub Written-verify : {es : List Entry} → Written es → verify sha256 es ≡ ok tt
  Written-verify empty = unfold verify in refl
  Written-verify (more {es = es} event w a) = elim (append_lem es event) [
    | inl (entry, b, v, _, _) ↦ rw (written_as es event a b) v
    | inr (i, bad, b) ↦ cc (Written-verify w)
  ]
