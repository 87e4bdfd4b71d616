-- ===== src/Evidence/Read/Whole.antt =====
-- packages/campaign/src/index.mjs, `readBoundedEvidenceFile`: the loop beside the file that it reads.
use mgds.Prelude.{
  Bool-cases, List, Option, Result, [], ap, append-nil, append_assoc, arith, drop, err, false,
  if◌then◌else◌, inl, inr, leb, length, length-append, ltb, not, ok, refl, some, subst, suc, sym,
  true, zero, ℕ, ◌&&◌, ◌++◌, ◌+◌, ◌-◌, ◌<◌, ◌∙◌, ◌∷◌, ◌≡◌, ◌≤◌,
}
use mgds.Evidence.Read.{
  ReadError, limit_exceeded, Stat, is_other_file, take_chunk, asked, read_loop,
  read_bounded_evidence_file,
}

-- How `read` gives the bytes of a file that does not change: from the position on, none only at the
-- end where some were asked for.
pub record Delivers (file : List ℕ) (read : ℕ → ℕ → List ℕ) : Type 0 where
  pub in_place : (position n : ℕ) → (rest : List ℕ) × (drop position file ≡ read position n ++ rest)
  pub until_end : (position n : ℕ) → 0 < n → read position n ≡ [] → drop position file ≡ []

drop-append : (xs ys : List ℕ) → drop (length xs) (xs ++ ys) ≡ ys
drop-append [] ys = refl
drop-append (x ∷ xs) ys = drop-append xs ys

module _ (max_bytes : ℕ) (file : List ℕ) where
  -- what the file's size decides
  abbrev pub expected : Option (Result ReadError (List ℕ))
  expected = if leb (length file) max_bytes then some (ok file) else some (err limit_exceeded)

  expected-whole : length file ≤ max_bytes → expected ≡ some (ok file)
  expected-whole h = let e : leb (length file) max_bytes ≡ true = ground arith in simp e refl

  expected-exceeded : max_bytes < length file → expected ≡ some (err limit_exceeded)
  expected-exceeded h = let e : leb (length file) max_bytes ≡ false = ground arith in simp e refl

  sizes :
      (chunks chunk rest : List ℕ)
      → chunks ++ (chunk ++ rest) ≡ file
      → length file ≡ length chunks + (length chunk + length rest)
  sizes chunks chunk rest whole =
      ap length (sym whole)
      ∙ (length-append chunks (chunk ++ rest)
          ∙ ap (λ n. length chunks + n) (length-append chunk rest))

  module _ (read : ℕ → ℕ → List ℕ) (delivers : Delivers file read) where
    -- one round, for whatever the chunk is, if the loop goes on as it should
    take_chunk-expected :
        (go : ℕ → List ℕ → Option (Result ReadError (List ℕ))) (total : ℕ)
        (chunks chunk rest : List ℕ)
        → chunks ++ (chunk ++ rest) ≡ file
        → length chunks ≡ total
        → total ≤ max_bytes
        → (chunk ≡ [] → rest ≡ [])
        → ((more : List ℕ) (n : ℕ)
            → (chunks ++ more) ++ rest ≡ file
            → length (chunks ++ more) ≡ n
            → total < n
            → n ≤ max_bytes
            → go n (chunks ++ more) ≡ expected)
        → take_chunk max_bytes read go total chunks chunk ≡ expected
    take_chunk-expected go total chunks [] rest whole len bound ended next =
        let same : chunks ≡ file =
          sym (append-nil chunks) ∙ (ap (λ t. chunks ++ t) (sym (ended refl)) ∙ whole) in
        let size : length file ≤ max_bytes =
          subst (λ f. length f ≤ max_bytes) same (rw len bound) in
        ap (λ f. some (ok f)) same ∙ sym (expected-whole size)
    take_chunk-expected go total chunks (b ∷ chunk) rest whole len bound ended next =
        let size = sizes chunks (b ∷ chunk) rest whole in
        elim (Bool-cases (ltb max_bytes (total + length (b ∷ chunk)))) [
          | inl over ↦ simp over (sym (expected-exceeded (ground (arith, size))))
          | inr within ↦ simp within (
              next (b ∷ chunk) (total + length (b ∷ chunk))
                (append_assoc chunks (b ∷ chunk) rest ∙ whole)
                (length-append chunks (b ∷ chunk) ∙ ap (λ n. n + length (b ∷ chunk)) len)
                (ground arith) (ground arith))
        ]

    asked_positive : (total : ℕ) → 0 < asked max_bytes read total
    asked_positive total = ground arith

    loop-expected :
        (fuel total : ℕ) (chunks rest : List ℕ)
        → chunks ++ rest ≡ file
        → length chunks ≡ total
        → total ≤ max_bytes
        → max_bytes - total < fuel
        → read_loop max_bytes read fuel total chunks ≡ expected
    unfolding read_loop
    loop-expected zero total chunks rest whole len bound enough = absurd (omega arith)
    loop-expected (suc fuel) total chunks rest whole len bound enough =
        let chunk = read total (asked max_bytes read total) in
        let (after, placed) = delivers.in_place total (asked max_bytes read total) in
        let left : drop total file ≡ rest = rw (sym whole, sym len) (drop-append chunks rest) in
        let split : chunk ++ after ≡ rest = sym placed ∙ left in
        take_chunk-expected (read_loop max_bytes read fuel) total chunks chunk after
          (ap (λ t. chunks ++ t) split ∙ whole) len bound
          (λ none_read.
            subst (λ c. c ++ after ≡ []) none_read
              (sym placed
                ∙ delivers.until_end total (asked max_bytes read total) (asked_positive total)
                    none_read))
          (λ more n w l longer short.
            loop-expected fuel n (chunks ++ more) after w l short (omega arith))

    -- Where the limit is positive, the two states are those of one regular file, and its size was within
    -- the limit, the read ends, with all the bytes of the file if they are within the limit, and
    -- otherwise with an error; if the handle delivers the bytes of a file that does not change.
    pub read_bounded_evidence_file-expected :
        (before opened : Stat)
        → 0 < max_bytes
        → (before.is_file && not before.is_symbolic_link) ≡ true
        → (opened.is_file && leb opened.size max_bytes && not (is_other_file before opened)) ≡ true
        → read_bounded_evidence_file max_bytes read before opened ≡ expected
    unfolding read_bounded_evidence_file
    read_bounded_evidence_file-expected before opened positive regular same =
        let limit : ltb 0 max_bytes ≡ true = ground arith in
        simp (limit, regular, same)
          (loop-expected (suc max_bytes) 0 [] file refl refl (omega arith) (omega arith))
