-- ===== src/Evidence/Png/Sound.antt =====
-- What `validPng` of packages/campaign/src/index.mjs takes for a PNG file.
use mgds.Prelude.{
  Bool-cases, List, Option, Option-cases, [], and-eq-true, and-eq-true_4, ap, append-nil,
  append_assoc, arith, drop, eq_of_beq, eqb, eqb_iff, inl, inr, leb, leb→le, length, lit, ltb,
  nat_eq, ne_of_beq, none, not, refl, some, some-inj, subst, suc, sym, take, text_eq, true, zero, ℕ,
  ◌&&◌, ◌*◌, ◌++◌, ◌+◌, ◌<◌, ◌==◌, ◌∙◌, ◌∷◌, ◌≡◌, ◌≢◌, ◌≤◌,
}
use mgds.Evidence.Png.{
  Image, Png, blank, fits, row_bytes, expected_bytes, check_rows, end_image, end_step, chunk_kind,
  chunk_data, chunk_rest, chunk_step, whole_chunk, stepped, png_loop, valid_png, signature,
  filters_ok,
}
use mgds.Evidence.Png.Layout.{
  Chunk, Chunks, nothing, chunk, kind_text, chunk_of, whole_chunk-Framed, take_append_drop,
}
use mgds.Evidence.Png.Kept.{
  idat_of, image_data, Ends, Heads, Fits, HeadStep, chunk_step-kept, HeadStep-Fits, Heads-cons,
}

module _ (inflate : List ℕ → ℕ → Option (List ℕ)) where
  -- The data unpack to the rows of an image within the limits.
  pub record Unpacked (image : Image) (packed : List ℕ) : Type 0 where
    pub unpacked : List ℕ
    pub positive : (0 < image.width) × (0 < image.height)
    pub within :
        (image.width ≤ 8192) × (image.height ≤ 8192) × (image.width * image.height ≤ 16777216)
    pub inflates : inflate packed (expected_bytes image + 1) ≡ some unpacked
    pub whole : length unpacked ≡ expected_bytes image
    pub filters : filters_ok (row_bytes image + 1) image.height unpacked ≡ true

  -- The bytes are chunks that end the file, behind the image and the data that are known.
  pub record Laid (known : Option Image) (packed bytes : List ℕ) : Type 0 where
    pub chunks : List Chunk
    pub image : Image
    pub layout : Chunks bytes chunks
    pub heads : Heads known chunks image
    pub ends : Ends chunks
    pub unpacks : Unpacked image (packed ++ image_data chunks)

  -- A PNG file: the signature, and chunks from its header to its end.
  pub record Sound (bytes : List ℕ) : Type 0 where
    pub rest : List ℕ
    pub marked : bytes ≡ signature inflate ++ rest
    pub laid : Laid none [] rest

  positive-of : (n : ℕ) → not (eqb n 0) ≡ true → 0 < n
  positive-of n h = ground arith

  check_rows-Unpacked :
      (i : Image) (packed : List ℕ) (o : Option (List ℕ))
      → fits i ≡ true
      → inflate packed (expected_bytes i + 1) ≡ o
      → check_rows inflate i o ≡ true
      → Unpacked i packed
  check_rows-Unpacked i packed none f e h = cc
  check_rows-Unpacked i packed (some unpacked) f e h =
      let (size, filters) = and-eq-true (eqb (length unpacked) (expected_bytes i)) _ h in
      let (front, area) = and-eq-true _ (leb (i.width * i.height) 16777216) f in
      let (front2, tall) = and-eq-true _ (leb i.height 8192) front in
      let (front3, wide) = and-eq-true _ (leb i.width 8192) front2 in
      let (w, h) = and-eq-true (not (eqb i.width 0)) (not (eqb i.height 0)) front3 in
      record {
        unpacked = unpacked;
        positive = (positive-of i.width w, positive-of i.height h);
        within = (
          leb→le i.width 8192 wide,
          leb→le i.height 8192 tall,
          leb→le (i.width * i.height) 16777216 area,
        );
        inflates = e;
        whole = (eqb_iff (length unpacked) (expected_bytes i)).0 size;
        filters = filters;
      }

  end_image-Unpacked :
      (p : Png) (o : Option Image)
      → Fits o
      → end_image inflate p o ≡ true
      → (i : Image) × (o ≡ some i) × Unpacked i p.compressed
  end_image-Unpacked p none f h = cc
  end_image-Unpacked p (some i) f h = (
    i,
    refl,
    check_rows-Unpacked i p.compressed (inflate p.compressed (expected_bytes i + 1)) f refl h,
  )

  nothing_left : (xs : List ℕ) → eqb (length xs) 0 ≡ true → Chunks xs []
  nothing_left [] h = nothing
  nothing_left (x ∷ xs) h = absurd (omega (arith, (eqb_iff (length (x ∷ xs)) 0).0 h))

  end_step-Laid :
      (known : Option Image) (packed bytes : List ℕ) (q : Png)
      → whole_chunk inflate bytes ≡ true
      → chunk_kind inflate bytes ≡ lit "IEND"
      → HeadStep known (chunk_kind inflate bytes) (chunk_data inflate bytes) q.image
      → q.compressed ≡ packed ++ idat_of (chunk_kind inflate bytes) (chunk_data inflate bytes)
      → Fits q.image
      → end_step inflate (chunk_data inflate bytes) (chunk_rest inflate bytes) q ≡ true
      → Laid known packed bytes
  end_step-Laid known packed bytes q whole last head added f h =
      let (a, b, c, d) =
        and-eq-true_4 (eqb (length (chunk_data inflate bytes)) 0) q.seen_image_data
          (eqb (length (chunk_rest inflate bytes)) 0) (end_image inflate q q.image) h in
      let (i, seen, unpacks) = end_image-Unpacked q q.image f d in
      record {
        chunks = chunk_of inflate bytes ∷ [];
        image = i;
        layout =
            chunk (whole_chunk-Framed inflate bytes whole)
              (nothing_left (chunk_rest inflate bytes) c);
        heads =
            Heads-cons known q.image (chunk_of inflate bytes) [] i head
              (subst (λ o. Heads o [] i) (sym seen) refl);
        ends = (last, (eqb_iff (length (chunk_data inflate bytes)) 0).0 a);
        unpacks =
            subst (Unpacked i)
              (added
                ∙ ap (packed ++◌) (
                    sym
                      (append-nil (idat_of (chunk_kind inflate bytes) (chunk_data inflate bytes)))))
              unpacks;
      }

  Ends-cons : (c : Chunk) (cs : List Chunk) → kind_text c ≢ lit "IEND" → Ends cs → Ends (c ∷ cs)
  Ends-cons c [] n h = absurd h
  Ends-cons c (d ∷ cs) n h = (n, h)

  chunk-Laid :
      (known : Option Image) (packed bytes : List ℕ) (q : Png)
      → whole_chunk inflate bytes ≡ true
      → chunk_kind inflate bytes ≢ lit "IEND"
      → HeadStep known (chunk_kind inflate bytes) (chunk_data inflate bytes) q.image
      → q.compressed ≡ packed ++ idat_of (chunk_kind inflate bytes) (chunk_data inflate bytes)
      → Laid q.image q.compressed (chunk_rest inflate bytes)
      → Laid known packed bytes
  chunk-Laid known packed bytes q whole more head grown l =
      let added = idat_of (chunk_kind inflate bytes) (chunk_data inflate bytes) in
      record {
        chunks = chunk_of inflate bytes ∷ l.chunks;
        image = l.image;
        layout = chunk (whole_chunk-Framed inflate bytes whole) l.layout;
        heads = Heads-cons known q.image (chunk_of inflate bytes) l.chunks l.image head l.heads;
        ends = Ends-cons (chunk_of inflate bytes) l.chunks more l.ends;
        unpacks =
            subst (Unpacked l.image)
              (ap (λ r. r ++ image_data l.chunks) grown
                ∙ append_assoc packed added (image_data l.chunks))
              l.unpacks;
      }

  stepped-some :
      (bytes : List ℕ) (p q : Png)
      → stepped inflate bytes p ≡ some q
      → (whole_chunk inflate bytes ≡ true)
        × (chunk_step (chunk_kind inflate bytes) (chunk_data inflate bytes) p ≡ some q)
  stepped-some bytes p q e = elim (Bool-cases (whole_chunk inflate bytes)) [
    | inl whole ↦ (whole, rw whole at e)
    | inr cut ↦ cc (rw cut at e)
  ]

  png_loop-Laid :
      (fuel : ℕ) (bytes : List ℕ) (p : Png)
      → Fits p.image
      → png_loop inflate fuel bytes p ≡ some true
      → Laid p.image p.compressed bytes
  unfolding png_loop
  png_loop-Laid zero bytes p f h = cc
  png_loop-Laid (suc fuel) bytes p f h = elim (Bool-cases (ltb (length bytes) 12)) [
    | inl short ↦ cc (simp short at h)
    | inr long ↦ elim (Option-cases (stepped inflate bytes p)) [
      | inl bad ↦ cc (simp (long, bad) at h)
      | inr (q, good) ↦
          let (whole, step) = stepped-some bytes p q good in
          let (head, added) =
            chunk_step-kept (chunk_kind inflate bytes) (chunk_data inflate bytes) p q step in
          let fit =
            HeadStep-Fits p.image (chunk_kind inflate bytes) (chunk_data inflate bytes) q.image f
              head in
          elim (Bool-cases (chunk_kind inflate bytes == lit "IEND")) [
            | inl last ↦
                end_step-Laid p.image p.compressed bytes q whole
                  (eq_of_beq (chunk_kind inflate bytes) (lit "IEND") last) head added fit
                  (some-inj (simp (long, good, last) at h))
            | inr more ↦
                chunk-Laid p.image p.compressed bytes q whole
                  (ne_of_beq (chunk_kind inflate bytes) (lit "IEND") more) head added
                  (png_loop-Laid fuel (chunk_rest inflate bytes) q fit
                    (simp (long, good, more) at h))
          ]
    ]
  ]

  -- A file that is taken for a PNG is the signature and a row of chunks, each with its length and
  -- its sum, of which the last and no other is an empty IEND. The first is a header of thirteen
  -- bytes, whose image is not empty and has at most 8192 columns, 8192 rows and 16777216 pixels.
  -- The data of the chunks IDAT, put together, unpack within the limit that is given to
  -- `inflateSync` to exactly the bytes of the rows of this image, each of which begins with a
  -- filter type.
  pub valid_png-Sound : (bytes : List ℕ) → valid_png inflate bytes ≡ true → Sound bytes
  unfolding valid_png
  valid_png-Sound bytes h =
      elim (Bool-cases (leb 45 (length bytes) && take 8 bytes == signature inflate)) [
        | inr other ↦ cc (rw other at h)
        | inl marked ↦
            let (_, mark) = and-eq-true _ (take 8 bytes == signature inflate) marked in
            elim (Option-cases (png_loop inflate (suc (length bytes)) (drop 8 bytes) blank)) [
              | inl out ↦ cc (simp (marked, out) at h)
              | inr (b, answered) ↦ record {
                rest = drop 8 bytes;
                marked =
                    sym (take_append_drop 8 bytes)
                    ∙ ap (λ r. r ++ drop 8 bytes)
                        (eq_of_beq (take 8 bytes) (signature inflate) mark);
                laid =
                    png_loop-Laid (suc (length bytes)) (drop 8 bytes) blank tt
                      (answered ∙ ap some (simp (marked, answered) at h));
              }
            ]
      ]
