-- ===== src/Evidence/Png.antt =====
-- packages/campaign/src/index.mjs, `validPng`. The place in the file is the rest of the bytes, and the
-- header's numbers are there once it was seen. `inflateSync` is a parameter, given its limit.
pub mod Layout
pub mod Kept
pub mod Sound
pub mod Loop
use mgds.Prelude.{
  Bool, List, Option, Text, [], drop, eqb, false, has, if◌then◌else◌, leb, length, lit, ltb, map,
  nat_eq, none, not, some, suc, take, text_eq, true, zero, ℕ, ◌&&◌, ◌*◌, ◌++◌, ◌+◌, ◌==◌, ◌||◌, ◌∷◌,
}
use Prim.Native.Nat.{◌/◌, ◌%◌, ◌^◌}
use mgds.Evidence.Crc.{crc32}

pub record Image : Type 0 where
  pub width : ℕ
  pub height : ℕ
  pub bits_per_pixel : ℕ
  pub bit_depth : ℕ
  pub color_type : ℕ

pub record Png : Type 0 where
  pub image : Option Image
  pub seen_image_data : Bool
  pub image_data_ended : Bool
  pub seen_palette : Bool
  pub seen_transparency : Bool
  pub palette_entries : ℕ
  pub compressed : List ℕ

abbrev pub blank : Png
blank = record {
  image = none;
  seen_image_data = false;
  image_data_ended = false;
  seen_palette = false;
  seen_transparency = false;
  palette_entries = 0;
  compressed = [];
}

abbrev pub byte_at : ℕ → List ℕ → ℕ
byte_at n [] = 0
byte_at zero (b ∷ bytes) = b
byte_at (suc n) (b ∷ bytes) = byte_at n bytes

-- readUInt32BE
pub read_u32 : List ℕ → ℕ
read_u32 bytes =
    ((byte_at 0 bytes * 256 + byte_at 1 bytes) * 256 + byte_at 2 bytes) * 256 + byte_at 3 bytes

-- the number of channels of a color type, 0 where the table has none
abbrev pub channels : ℕ → ℕ
channels color_type =
    if eqb color_type 0
    then 1
    else if eqb color_type 2
    then 3
    else if eqb color_type 3
    then 1
    else if eqb color_type 4
    then 2
    else if eqb color_type 6
    then 4
    else 0

abbrev pub legal_depths : ℕ → List ℕ
legal_depths color_type =
    if eqb color_type 0
    then 1 ∷ 2 ∷ 4 ∷ 8 ∷ 16 ∷ []
    else if eqb color_type 3
    then 1 ∷ 2 ∷ 4 ∷ 8 ∷ []
    else 8 ∷ 16 ∷ []

abbrev pub allowed : List Text
allowed =
    lit "IHDR"
    ∷ lit "PLTE"
    ∷ lit "IDAT"
    ∷ lit "IEND"
    ∷ lit "tRNS"
    ∷ lit "gAMA"
    ∷ lit "cHRM"
    ∷ lit "sRGB"
    ∷ lit "pHYs"
    ∷ []

abbrev pub read_image : List ℕ → Image
read_image d = record {
  width = read_u32 d;
  height = read_u32 (drop 4 d);
  bits_per_pixel = channels (byte_at 9 d) * byte_at 8 d;
  bit_depth = byte_at 8 d;
  color_type = byte_at 9 d;
}

-- the tests of a header's numbers
abbrev pub fits : Image → Bool
fits i =
    not (eqb i.width 0)
    && not (eqb i.height 0)
    && leb i.width 8192
    && leb i.height 8192
    && leb (i.width * i.height) 16777216

abbrev pub valid_header : Image → List ℕ → Bool
valid_header i d =
    fits i
    && (not (eqb (channels i.color_type) 0)
        && has (legal_depths i.color_type) i.bit_depth
        && eqb (byte_at 10 d) 0
        && eqb (byte_at 11 d) 0
        && eqb (byte_at 12 d) 0)

abbrev pub accept_header : Text → List ℕ → Png → Option Png
accept_header kind d p =
    if kind == lit "IHDR" && eqb (length d) 13 && valid_header (read_image d) d
    then some (record p { image = some (read_image d) })
    else none

-- the block on the header: the first chunk is one, and no other is
abbrev pub header_on : Option Image → Text → List ℕ → Png → Option Png
header_on none kind d p = accept_header kind d p
header_on (some i) kind d p = if kind == lit "IHDR" then none else some p

abbrev pub header_step : Text → List ℕ → Png → Option Png
header_step kind d p = header_on p.image kind d p

abbrev color_of : Option Image → ℕ
color_of none = 0
color_of (some i) = i.color_type

abbrev depth_of : Option Image → ℕ
depth_of none = 0
depth_of (some i) = i.bit_depth

abbrev pub palette_step : Text → List ℕ → Png → Option Png
palette_step kind d p =
    let bad =
      p.seen_palette
      || p.seen_image_data
      || eqb (length d) 0
      || ltb 768 (length d)
      || not (eqb (length d % 3) 0)
      || eqb (color_of p.image) 0
      || eqb (color_of p.image) 4
      || (eqb (color_of p.image) 3 && ltb (2 ^ depth_of p.image) (length d / 3)) in
    if not (kind == lit "PLTE")
    then some p
    else if bad
    then none
    else some (record p { seen_palette = true; palette_entries = length d / 3 })

abbrev pub transparency_step : Text → List ℕ → Png → Option Png
transparency_step kind d p =
    let color = color_of p.image in
    let bad =
      p.seen_transparency
      || p.seen_image_data
      || eqb color 4
      || eqb color 6
      || (eqb color 0 && not (eqb (length d) 2))
      || (eqb color 2 && not (eqb (length d) 6))
      || (eqb color 3
          && (not p.seen_palette || eqb (length d) 0 || ltb p.palette_entries (length d))) in
    if not (kind == lit "tRNS")
    then some p
    else if bad
    then none
    else some (record p { seen_transparency = true })

abbrev pub image_step : Text → List ℕ → Png → Option Png
image_step kind d p =
    let bad =
      eqb (length d) 0 || p.image_data_ended || (eqb (color_of p.image) 3 && not p.seen_palette) in
    if kind == lit "IDAT"
    then (if bad
        then none
        else some (record p { seen_image_data = true; compressed = p.compressed ++ d }))
    else if p.seen_image_data && not (kind == lit "IEND")
    then some (record p { image_data_ended = true })
    else some p

abbrev pub and_then : Option Png → (Png → Option Png) → Option Png
and_then none f = none
and_then (some p) f = f p

-- what a chunk does, but for the end
unfoldable pub chunk_step : Text → List ℕ → Png → Option Png
unfolding read_u32
chunk_step kind d p =
    and_then
      (and_then (and_then (header_step kind d p) (palette_step kind d)) (transparency_step kind d))
      (image_step kind d)

-- the filter byte of each row
unfoldable pub filters_ok : ℕ → ℕ → List ℕ → Bool
filters_ok stride zero bytes = true
filters_ok stride (suc n) bytes =
    let rest = filters_ok stride n (drop stride bytes) in leb (byte_at 0 bytes) 4 && rest

abbrev pub row_bytes : Image → ℕ
row_bytes i = (i.width * i.bits_per_pixel + 7) / 8

abbrev pub expected_bytes : Image → ℕ
expected_bytes i = i.height * (row_bytes i + 1)

module _ (inflate : List ℕ → ℕ → Option (List ℕ)) where
  abbrev pub check_rows : Image → Option (List ℕ) → Bool
  check_rows i none = false
  check_rows i (some inflated) =
      eqb (length inflated) (expected_bytes i) && filters_ok (row_bytes i + 1) i.height inflated

  abbrev pub end_image : Png → Option Image → Bool
  end_image p none = false
  end_image p (some i) = check_rows i (inflate p.compressed (expected_bytes i + 1))

  -- the answer at the chunk IEND, given its length and what follows it
  abbrev pub end_step : List ℕ → List ℕ → Png → Bool
  end_step d rest p =
      eqb (length d) 0 && p.seen_image_data && eqb (length rest) 0 && end_image p p.image

  abbrev pub chunk_kind : List ℕ → Text
  chunk_kind bytes = map (λ b. b % 128) (take 4 (drop 4 bytes))

  abbrev pub chunk_data : List ℕ → List ℕ
  chunk_data bytes = take (read_u32 bytes) (drop 8 bytes)

  abbrev pub chunk_rest : List ℕ → List ℕ
  chunk_rest bytes = drop (12 + read_u32 bytes) bytes

  -- whether a chunk lies in the file, has an allowed type, and has its sum behind it
  abbrev pub whole_chunk : List ℕ → Bool
  whole_chunk bytes =
      leb (12 + read_u32 bytes) (length bytes)
      && has allowed (chunk_kind bytes)
      && eqb (crc32 (take (4 + read_u32 bytes) (drop 4 bytes)))
          (read_u32 (drop (8 + read_u32 bytes) bytes))

  abbrev pub stepped : List ℕ → Png → Option Png
  stepped bytes p =
      if whole_chunk bytes then chunk_step (chunk_kind bytes) (chunk_data bytes) p else none

  abbrev pub with_step : Option Png → (Png → Option Bool) → Option Bool
  with_step none f = some false
  with_step (some p) f = f p

  -- the loop; `none` is the fuel at its end
  unfoldable pub png_loop : ℕ → List ℕ → Png → Option Bool
  unfolding chunk_step crc32 read_u32
  png_loop zero bytes p = none
  png_loop (suc fuel) bytes p =
      let go = λ (q : Png).
        if chunk_kind bytes == lit "IEND"
        then some (end_step (chunk_data bytes) (chunk_rest bytes) q)
        else png_loop fuel (chunk_rest bytes) q in
      if ltb (length bytes) 12 then some false else with_step (stepped bytes p) go

  abbrev pub is_some_true : Option Bool → Bool
  is_some_true (some b) = b
  is_some_true none = false

  abbrev signature : List ℕ
  signature = 137 ∷ 80 ∷ 78 ∷ 71 ∷ 13 ∷ 10 ∷ 26 ∷ 10 ∷ []

  unfoldable pub valid_png : List ℕ → Bool
  unfolding png_loop filters_ok
  valid_png bytes =
      if leb 45 (length bytes) && take 8 bytes == signature
      then is_some_true (png_loop (suc (length bytes)) (drop 8 bytes) blank)
      else false
