-- ===== src/Evidence/Png/Kept.antt =====
-- What each chunk keeps in `validPng` of packages/campaign/src/index.mjs: the image and its data.
use mgds.Prelude.{
  Bool, Bool-cases, List, Option, Text, [], and-eq-true, and-eq-true_3, ap, append-nil, eq_of_beq,
  eqb, eqb_iff, false, if◌then◌else◌, inl, inr, length, lit, nat_eq, none, not, refl, some,
  some-inj, subst, sym, text_eq, true, ℕ, ◌&&◌, ◌++◌, ◌==◌, ◌∙◌, ◌∷◌, ◌≡◌, ◌≢◌,
}
use mgds.Evidence.Png.{
  Image, Png, fits, valid_header, accept_header, header_on, and_then, chunk_step, read_image,
}
use mgds.Evidence.Png.Layout.{Chunk, kind_text}

-- The data of all the chunks of image data, put together.
abbrev pub idat_of : Text → List ℕ → List ℕ
idat_of kind d = if kind == lit "IDAT" then d else []

abbrev pub image_data : List Chunk → List ℕ
image_data [] = []
image_data (c ∷ cs) = idat_of (kind_text c) c.data_bytes ++ image_data cs

-- The last chunk and no other is an empty IEND.
abbrev pub Ends : List Chunk → Type 0
Ends [] = ⊥
Ends (c ∷ []) = (kind_text c ≡ lit "IEND") × (length c.data_bytes ≡ 0)
Ends (c ∷ d ∷ cs) = (kind_text c ≢ lit "IEND") × Ends (d ∷ cs)

-- The image is the one that is known, or the first chunk is its header of thirteen bytes.
abbrev pub Heads : Option Image → List Chunk → Image → Type 0
Heads (some j) cs i = i ≡ j
Heads none [] i = ⊥
Heads none (c ∷ cs) i =
    (kind_text c ≡ lit "IHDR") × (length c.data_bytes ≡ 13) × (i ≡ read_image c.data_bytes)

-- the header's image is absent or within the limits
abbrev pub Fits : Option Image → Type 0
Fits none = Unit
Fits (some i) = fits i ≡ true

-- what a chunk does to the image that is known
abbrev pub HeadStep : Option Image → Text → List ℕ → Option Image → Type 0
HeadStep (some i) kind d o = o ≡ some i
HeadStep none kind d o =
    (kind ≡ lit "IHDR") × (length d ≡ 13) × (fits (read_image d) ≡ true) × (o ≡ some (read_image d))

accept_header-HeadStep :
    (kind : Text) (d : List ℕ) (p q : Png)
    → accept_header kind d p ≡ some q
    → HeadStep none kind d q.image × (q.compressed ≡ p.compressed)
accept_header-HeadStep kind d p q h =
    elim (Bool-cases (kind == lit "IHDR" && eqb (length d) 13 && valid_header (read_image d) d)) [
      | inr bad ↦ cc (rw bad at h)
      | inl good ↦
          let (first, size, valid) =
            and-eq-true_3 (kind == lit "IHDR") (eqb (length d) 13) (valid_header (read_image d) d)
              good in
          let (fit, _) = and-eq-true (fits (read_image d)) _ valid in
          let e = some-inj (rw good at h) in
          (
            (
              eq_of_beq kind (lit "IHDR") first,
              (eqb_iff (length d) 13).0 size,
              fit,
              sym (ap (λ (x : Png). x.image) e),
            ),
            sym (ap (λ (x : Png). x.compressed) e),
          )
    ]

header_on-HeadStep :
    (kind : Text) (d : List ℕ) (p q : Png) (o : Option Image)
    → p.image ≡ o
    → header_on o kind d p ≡ some q
    → HeadStep o kind d q.image × (q.compressed ≡ p.compressed)
header_on-HeadStep kind d p q none e h = accept_header-HeadStep kind d p q h
header_on-HeadStep kind d p q (some i) e h = elim (Bool-cases (kind == lit "IHDR")) [
  | inl again ↦ cc (rw again at h)
  | inr other ↦
      let same = some-inj (rw other at h) in
      (sym (ap (λ (x : Png). x.image) same) ∙ e, sym (ap (λ (x : Png). x.compressed) same))
]

-- The block on a palette or on transparency keeps the image and its data.
block_kept :
    (b c : Bool) (p r q : Png)
    → r.image ≡ p.image
    → r.compressed ≡ p.compressed
    → (if not b then some p else if c then none else some r) ≡ some q
    → (q.image ≡ p.image) × (q.compressed ≡ p.compressed)
block_kept true true p r q e f h = cc
block_kept true false p r q e f h =
    let same = some-inj h in
    (sym (ap (λ (x : Png). x.image) same) ∙ e, sym (ap (λ (x : Png). x.compressed) same) ∙ f)
block_kept false c p r q e f h =
    let same = some-inj h in
    (sym (ap (λ (x : Png). x.image) same), sym (ap (λ (x : Png). x.compressed) same))

-- The block on image data keeps the image and adds the data.
image_kept :
    (a b c : Bool) (d : List ℕ) (p r t q : Png)
    → r.image ≡ p.image
    → t.image ≡ p.image
    → r.compressed ≡ p.compressed ++ d
    → t.compressed ≡ p.compressed
    → (if a then (if b then none else some r) else if c then some t else some p) ≡ some q
    → (q.image ≡ p.image) × (q.compressed ≡ p.compressed ++ (if a then d else []))
image_kept true true c d p r t q e f g k h = cc
image_kept true false c d p r t q e f g k h =
    let same = some-inj h in
    (sym (ap (λ (x : Png). x.image) same) ∙ e, sym (ap (λ (x : Png). x.compressed) same) ∙ g)
image_kept false b true d p r t q e f g k h =
    let same = some-inj h in
    (
      sym (ap (λ (x : Png). x.image) same) ∙ f,
      sym (ap (λ (x : Png). x.compressed) same) ∙ k ∙ sym (append-nil p.compressed),
    )
image_kept false b false d p r t q e f g k h =
    let same = some-inj h in
    (
      sym (ap (λ (x : Png). x.image) same),
      sym (ap (λ (x : Png). x.compressed) same) ∙ sym (append-nil p.compressed),
    )

and_then-some :
    (o : Option Png) (f : Png → Option Png) (q : Png)
    → and_then o f ≡ some q
    → (r : Png) × (o ≡ some r) × (f r ≡ some q)
and_then-some none f q h = cc
and_then-some (some r) f q h = (r, refl, h)

pub chunk_step-kept :
    (kind : Text) (d : List ℕ) (p q : Png)
    → chunk_step kind d p ≡ some q
    → HeadStep p.image kind d q.image × (q.compressed ≡ p.compressed ++ idat_of kind d)
unfolding chunk_step
chunk_step-kept kind d p q h =
    let (c, e3, h4) = and_then-some _ _ q h in
    let (b, e2, h3) = and_then-some _ _ c e3 in
    let (a, h1, h2) = and_then-some _ _ b e2 in
    let (head, ka) = header_on-HeadStep kind d p a p.image refl h1 in
    let (ib, kb) = block_kept _ _ a _ b refl refl h2 in
    let (ic, kc) = block_kept _ _ b _ c refl refl h3 in
    let (iq, kq) = image_kept _ _ _ d c _ _ q refl refl refl refl h4 in
    (
      subst (HeadStep p.image kind d) (sym (iq ∙ ic ∙ ib)) head,
      kq ∙ ap (λ r. r ++ idat_of kind d) (kc ∙ kb ∙ ka),
    )

pub HeadStep-Fits :
    (o : Option Image) (kind : Text) (d : List ℕ) (q : Option Image)
    → Fits o
    → HeadStep o kind d q
    → Fits q
HeadStep-Fits none kind d q f (_, _, fit, e) = subst Fits (sym e) fit
HeadStep-Fits (some i) kind d q f e = subst Fits (sym e) f

pub Heads-cons :
    (o q : Option Image) (c : Chunk) (cs : List Chunk) (i : Image)
    → HeadStep o (kind_text c) c.data_bytes q
    → Heads q cs i
    → Heads o (c ∷ cs) i
Heads-cons none q c cs i (first, size, _, e) h = (first, size, subst (λ x. Heads x cs i) e h)
Heads-cons (some j) q c cs i e h = subst (λ x. Heads x cs i) e h
