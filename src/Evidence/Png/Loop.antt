-- ===== src/Evidence/Png/Loop.antt =====
-- The loop over the chunks of a PNG file ends.
use mgds.Prelude.{
  Bool, Bool-cases, List, Option, Option-cases, arith, false, inl, inr, length, length-drop, lit,
  ltb, nat_eq, refl, some, suc, text_eq, zero, ℕ, ◌+◌, ◌<◌, ◌==◌, ◌≡◌, ◌≤◌,
}
use mgds.Evidence.Png.{
  Png, read_u32, end_step, chunk_kind, chunk_data, chunk_rest, stepped, png_loop,
}

module _ (inflate : List ℕ → ℕ → Option (List ℕ)) where
  chunk_rest-shorter :
      (bytes : List ℕ) (fuel : ℕ)
      → ltb (length bytes) 12 ≡ false
      → length bytes < suc fuel
      → length (chunk_rest inflate bytes) < fuel
  chunk_rest-shorter bytes fuel long h =
      omega (arith, length-drop (12 + read_u32 bytes) bytes, twelve)
    where
      twelve : 12 ≤ length bytes
      twelve = ground arith

  -- With more fuel than bytes the loop answers: it never runs out.
  pub png_loop-ends :
      (fuel : ℕ) (bytes : List ℕ) (p : Png)
      → length bytes < fuel
      → (b : Bool) × (png_loop inflate fuel bytes p ≡ some b)
  unfolding png_loop
  png_loop-ends zero bytes p h = absurd (omega (arith, h))
  png_loop-ends (suc fuel) bytes p h = elim (Bool-cases (ltb (length bytes) 12)) [
    | inl short ↦ (false, simp short refl)
    | inr long ↦ elim (Option-cases (stepped inflate bytes p)) [
      | inl bad ↦ (false, simp (long, bad) refl)
      | inr (q, good) ↦ elim (Bool-cases (chunk_kind inflate bytes == lit "IEND")) [
        | inl last ↦ (
          end_step inflate (chunk_data inflate bytes) (chunk_rest inflate bytes) q,
          simp (long, good, last) refl,
        )
        | inr more ↦
            let (b, e) =
              png_loop-ends fuel (chunk_rest inflate bytes) q
                (chunk_rest-shorter bytes fuel long h) in
            (b, simp (long, good, more) e)
      ]
    ]
  ]
