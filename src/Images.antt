-- ===== src/Images.antt =====
-- frontend/src/lib/image.ts: making an image smaller before it is uploaded. What the browser's bitmaps and
-- canvas do is the parameter `browser`; `none` stands for a promise that rejects.
pub mod Resizing
use bu3li_comms.Prelude.{
  ℕ, ◌≤◌, ◌<◌, leb, ltb, String, Bool, true, false, ◌||◌, ◌==◌, if◌then◌else◌, Option, none, some,
  ◌≡◌,
}
use bu3li_comms.Http.{Blob}

-- `size_of` is the size of the bitmap that `createImageBitmap` makes, `has_context` whether there is a context
-- for drawing, `encode` the picture drawn at a width and a height and encoded as a type by `toBlob`, and
-- `round_scaled side limit longest` the number `Math.round(side * (limit / longest))`, computed on doubles,
-- of which only its bound is relied on.
pub record Canvas : Type 0 where
  pub size_of : Blob → Option (ℕ × ℕ)
  pub has_context : Bool
  pub encode : Blob → (width height : ℕ) → (mime_type : String) → Option Blob
  pub round_scaled : (side limit longest : ℕ) → ℕ
  pub round_scaled-le :
      (side limit longest : ℕ)
      → side ≤ longest
      → limit < longest
      → round_scaled side limit longest ≤ limit

abbrev pub max_of : ℕ → ℕ → ℕ
max_of m n = if ltb m n then n else m

abbrev pub output_type : String → String
output_type mime_type =
    if mime_type == "image/png" || mime_type == "image/webp" then mime_type else "image/jpeg"

-- The scale is below one exactly if the longest side is above the limit.
unfoldable pub resize_bitmap : Canvas → Blob → ℕ → ℕ → ℕ → Option Blob
resize_bitmap browser file max_dimension width height =
    let longest = max_of width height in
    if leb longest max_dimension
    then some file
    else if browser.has_context
    then browser.encode file (max_of 1 (browser.round_scaled width max_dimension longest))
        (max_of 1 (browser.round_scaled height max_dimension longest)) (output_type file.mime_type)
    else some file

unfoldable pub resize_image_file : Canvas → Blob → ℕ → Option Blob
unfolding resize_bitmap
resize_image_file browser file max_dimension =
    if file.mime_type == "image/gif" then some file else elim (browser.size_of file) [
      | none ↦ none
      | some size ↦ resize_bitmap browser file max_dimension size.0 size.1
    ]

unfoldable pub read_image_dimensions : Canvas → Blob → Option (ℕ × ℕ)
read_image_dimensions browser blob = browser.size_of blob
