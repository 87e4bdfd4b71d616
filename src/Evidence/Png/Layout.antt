-- ===== src/Evidence/Png/Layout.antt =====
-- The chunks of a PNG file, as `validPng` of packages/campaign/src/index.mjs walks them.
use mgds.Prelude.{
  List, Option, Text, [], and-eq-true_3, ap, arith, drop, eqb_iff, has, leb, leb→le, length,
  length-drop, map, nat_eq, refl, suc, sym, take, text_eq, true, zero, ℕ, ◌++◌, ◌+◌, ◌∙◌, ◌∷◌, ◌≡◌,
  ◌≤◌,
}
use Prim.Native.Nat.{◌%◌}
use mgds.Evidence.Crc.{crc32}
use mgds.Evidence.Png.{read_u32, allowed, whole_chunk, chunk_kind, chunk_data, chunk_rest}

pub record Chunk : Type 0 where
  pub kind : List ℕ
  pub data_bytes : List ℕ

-- the type of a chunk, which is read as ASCII
abbrev pub kind_text : Chunk → Text
kind_text c = map (λ b. b % 128) c.kind

-- The bytes begin with the chunk: its length, its type, its data and their sum.
pub record Framed (bytes : List ℕ) (c : Chunk) (rest : List ℕ) : Type 0 where
  pub size : List ℕ
  pub sum : List ℕ
  pub layout : bytes ≡ size ++ (c.kind ++ (c.data_bytes ++ (sum ++ rest)))
  pub fields : (length size ≡ 4) × (length c.kind ≡ 4) × (length sum ≡ 4)
  pub size_read : read_u32 size ≡ length c.data_bytes
  pub sum_read : read_u32 sum ≡ crc32 (c.kind ++ c.data_bytes)
  pub known : has allowed (kind_text c) ≡ true

-- The bytes are these chunks, one behind the other, and nothing else.
pub data Chunks : List ℕ → List Chunk → Type 0 where
  nothing : Chunks [] []
  chunk :
      {bytes rest : List ℕ} {c : Chunk} {cs : List Chunk}
      → Framed bytes c rest
      → Chunks rest cs
      → Chunks bytes (c ∷ cs)

take-nil : (n : ℕ) → [] ≡ take {A = ℕ} n []
take-nil zero = refl
take-nil (suc n) = refl

drop-nil : (n : ℕ) → [] ≡ drop {A = ℕ} n []
drop-nil zero = refl
drop-nil (suc n) = refl

take-add : (m n : ℕ) (xs : List ℕ) → take (m + n) xs ≡ take m xs ++ take n (drop m xs)
take-add zero n xs = let z : 0 + n ≡ n = omega arith in rw z refl
take-add (suc m) n [] = let z : suc m + n ≡ suc (m + n) = omega arith in rw z (take-nil n)
take-add (suc m) n (x ∷ xs) =
    let z : suc m + n ≡ suc (m + n) = omega arith in rw z (ap (x ∷◌) (take-add m n xs))

drop-add : (m n : ℕ) (xs : List ℕ) → drop (m + n) xs ≡ drop n (drop m xs)
drop-add zero n xs = let z : 0 + n ≡ n = omega arith in rw z refl
drop-add (suc m) n [] = let z : suc m + n ≡ suc (m + n) = omega arith in rw z (drop-nil n)
drop-add (suc m) n (x ∷ xs) =
    let z : suc m + n ≡ suc (m + n) = omega arith in rw z (drop-add m n xs)

pub take_append_drop : (n : ℕ) (xs : List ℕ) → take n xs ++ drop n xs ≡ xs
take_append_drop zero xs = refl
take_append_drop (suc n) [] = refl
take_append_drop (suc n) (x ∷ xs) = ap (x ∷◌) (take_append_drop n xs)

length-take_le : (n : ℕ) (xs : List ℕ) → n ≤ length xs → length (take n xs) ≡ n
length-take_le zero xs h = refl
length-take_le (suc n) [] h = absurd (omega arith)
length-take_le (suc n) (x ∷ xs) h = omega (arith, length-take_le n xs (omega arith))

read_u32-take : (bytes : List ℕ) → read_u32 (take 4 bytes) ≡ read_u32 bytes
unfolding read_u32
read_u32-take [] = refl
read_u32-take (a ∷ []) = refl
read_u32-take (a ∷ b ∷ []) = refl
read_u32-take (a ∷ b ∷ c ∷ []) = refl
read_u32-take (a ∷ b ∷ c ∷ d ∷ bytes) = refl

-- A list is its parts of four, four, n and four, and the rest.
parts :
    (n : ℕ) (xs : List ℕ)
    → xs
      ≡ take 4 xs
        ++ (take 4 (drop 4 xs)
            ++ (take n (drop 8 xs) ++ (take 4 (drop (8 + n) xs) ++ drop (12 + n) xs)))
parts n xs =
    let last : drop (12 + n) xs ≡ drop 4 (drop (8 + n) xs) =
      ap (λ k. drop k xs) (omega arith) ∙ drop-add (8 + n) 4 xs in
    rw
      (
        last,
        take_append_drop 4 (drop (8 + n) xs),
        drop-add 8 n xs,
        take_append_drop n (drop 8 xs),
        drop-add 4 4 xs,
        take_append_drop 4 (drop 4 xs),
        take_append_drop 4 xs,
      )
      refl

module _ (inflate : List ℕ → ℕ → Option (List ℕ)) where
  abbrev pub chunk_of : List ℕ → Chunk
  chunk_of bytes = record { kind = take 4 (drop 4 bytes); data_bytes = chunk_data inflate bytes }

  -- What the loop takes for a chunk is one.
  pub whole_chunk-Framed :
      (bytes : List ℕ)
      → whole_chunk inflate bytes ≡ true
      → Framed bytes (chunk_of bytes) (chunk_rest inflate bytes)
  whole_chunk-Framed bytes h =
      let n = read_u32 bytes in
      let (inside, known, sum) =
        and-eq-true_3 (leb (12 + n) (length bytes)) (has allowed (chunk_kind inflate bytes)) _ h in
      let long : 12 + n ≤ length bytes = leb→le (12 + n) (length bytes) inside in
      let sized : length (take n (drop 8 bytes)) ≡ n =
        length-take_le n (drop 8 bytes) (omega (arith, length-drop 8 bytes, long)) in
      record {
        size = take 4 bytes;
        sum = take 4 (drop (8 + n) bytes);
        layout = parts n bytes;
        fields = (
          length-take_le 4 bytes (omega (arith, long)),
          length-take_le 4 (drop 4 bytes) (omega (arith, length-drop 4 bytes, long)),
          length-take_le 4 (drop (8 + n) bytes) (omega (arith, length-drop (8 + n) bytes, long)),
        );
        size_read = read_u32-take bytes ∙ sym sized;
        sum_read =
            read_u32-take (drop (8 + n) bytes)
            ∙ sym ((eqb_iff (crc32 (take (4 + n) (drop 4 bytes))) _).0 sum)
            ∙ ap crc32 (
                take-add 4 n (drop 4 bytes)
                ∙ ap (λ r. take 4 (drop 4 bytes) ++ take n r) (sym (drop-add 4 4 bytes)));
        known = known;
      }
