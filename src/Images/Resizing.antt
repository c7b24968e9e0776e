-- ===== src/Images/Resizing.antt =====
-- What resizeImageFile of frontend/src/lib/image.ts returns.
use bu3li_comms.Prelude.{
  ℕ, ◌≤◌, ◌<◌, leb, String, true, false, ◌==◌, if◌then◌else◌, ◌≡◌, refl, ap, ◌||◌, ◌⊎◌, Option,
  none, some, arith, Bool-cases, Option-cases, inl, inr,
}
use bu3li_comms.Http.{Blob}
use bu3li_comms.Images.{Canvas, max_of, output_type, resize_bitmap, resize_image_file}

module _ (browser : Canvas) where
  -- What an image of a file may become.
  pub data IsResized (file : Blob) (limit : ℕ) : Blob → Type 0 where
    animated : file.mime_type ≡ "image/gif" → IsResized file limit file
    within :
        (width height : ℕ)
        → browser.size_of file ≡ some (width, height)
        → width ≤ limit
        → height ≤ limit
        → IsResized file limit file
    undrawn : browser.has_context ≡ false → IsResized file limit file
    redrawn :
        (width height new_width new_height : ℕ) (mime_type : String) (drawn : Blob)
        → browser.size_of file ≡ some (width, height)
        → (limit < width) ⊎ (limit < height)
        → (1 ≤ new_width) × (new_width ≤ limit)
        → (1 ≤ new_height) × (new_height ≤ limit)
        → (mime_type ≡ file.mime_type) ⊎ (mime_type ≡ "image/jpeg")
        → browser.encode file new_width new_height mime_type ≡ some drawn
        → IsResized file limit drawn

  output_type-cases : (t : String) → (output_type t ≡ t) ⊎ (output_type t ≡ "image/jpeg")
  output_type-cases t = elim (Bool-cases (t == "image/png" || t == "image/webp")) [
    | inl e ↦ inl (rw (e) refl)
    | inr e ↦ inr (rw (e) refl)
  ]

  max_of-ge : (m n : ℕ) → (m ≤ max_of m n) × (n ≤ max_of m n)
  max_of-ge m n = ground arith

  max_of-le : (m n l : ℕ) → m ≤ l → n ≤ l → max_of m n ≤ l
  max_of-le m n l h k = ground (arith, h, k)

  new_side :
      (side limit longest : ℕ)
      → 1 ≤ limit
      → side ≤ longest
      → limit < longest
      → (1 ≤ max_of 1 (browser.round_scaled side limit longest))
        × (max_of 1 (browser.round_scaled side limit longest) ≤ limit)
  new_side side limit longest o s l =
      let n = browser.round_scaled side limit longest in
      ((max_of-ge 1 n).0, max_of-le 1 n limit o (browser.round_scaled-le side limit longest s l))

  above : (m n l : ℕ) → l < max_of m n → (l < m) ⊎ (l < n)
  above m n l h = ground (arith, h)

  abbrev pub Resizes : Blob → ℕ → Option Blob → Type 0
  Resizes file limit none = Unit
  Resizes file limit (some resized) = IsResized file limit resized

  encoded-Resizes :
      (file : Blob) (limit width height new_width new_height : ℕ) (mime_type : String)
      → browser.size_of file ≡ some (width, height)
      → (limit < width) ⊎ (limit < height)
      → (1 ≤ new_width) × (new_width ≤ limit)
      → (1 ≤ new_height) × (new_height ≤ limit)
      → (mime_type ≡ file.mime_type) ⊎ (mime_type ≡ "image/jpeg")
      → Resizes file limit (browser.encode file new_width new_height mime_type)
  encoded-Resizes file limit width height new_width new_height mime_type d l w h t =
      elim (Option-cases (browser.encode file new_width new_height mime_type)) [
        | inl e ↦ rw (e) tt
        | inr (drawn, e) ↦
            rw (e) (redrawn width height new_width new_height mime_type drawn d l w h t e)
      ]

  resize_bitmap-plain :
      (file : Blob) (limit width height : ℕ)
      → browser.has_context ≡ false
      → resize_bitmap browser file limit width height ≡ some file
  unfolding resize_bitmap
  resize_bitmap-plain file limit width height f = ground (arith, f)

  resize_bitmap-drawn :
      (file : Blob) (limit width height : ℕ)
      → leb (max_of width height) limit ≡ false
      → browser.has_context ≡ true
      → resize_bitmap browser file limit width height
        ≡ browser.encode file
            (max_of 1 (browser.round_scaled width limit (max_of width height)))
            (max_of 1 (browser.round_scaled height limit (max_of width height)))
            (output_type file.mime_type)
  unfolding resize_bitmap
  resize_bitmap-drawn file limit width height e f =
      rw (e, resize_bitmap)
        (ap
          (λ b.
            if b
            then browser.encode file
                (max_of 1 (browser.round_scaled width limit (max_of width height)))
                (max_of 1 (browser.round_scaled height limit (max_of width height)))
                (output_type file.mime_type)
            else some file)
          f)

  resize_bitmap-Resizes :
      (file : Blob) (limit width height : ℕ)
      → 1 ≤ limit
      → browser.size_of file ≡ some (width, height)
      → Resizes file limit (resize_bitmap browser file limit width height)
  unfolding resize_bitmap
  resize_bitmap-Resizes file limit width height o d =
      let longest = max_of width height in
      let (wide, high) = max_of-ge width height in
      elim (Bool-cases (leb longest limit)) [
        | inl e ↦
            rw (e, resize_bitmap)
              (within width height d (ground (arith, wide, e)) (ground (arith, high, e)))
        | inr e ↦ elim (Bool-cases browser.has_context) [
          | inr f ↦ rw (resize_bitmap-plain file limit width height f) (undrawn f)
          | inl f ↦
              let l : limit < longest = ground (arith, e) in
              let drawn = resize_bitmap-drawn file limit width height e f in
              rw (drawn) (
                encoded-Resizes file limit width height
                  (max_of 1 (browser.round_scaled width limit longest))
                  (max_of 1 (browser.round_scaled height limit longest))
                  (output_type file.mime_type) d (above width height limit l)
                  (new_side width limit longest o wide l) (new_side height limit longest o high l)
                  (output_type-cases file.mime_type))
        ]
      ]

  pub resize_image_file-Resizes :
      (file : Blob) (limit : ℕ)
      → 1 ≤ limit
      → Resizes file limit (resize_image_file browser file limit)
  unfolding resize_image_file
  resize_image_file-Resizes file limit o = elim (Bool-cases (file.mime_type == "image/gif")) [
    | inl e ↦ rw (e, resize_image_file) (animated (ground (arith, e)))
    | inr e ↦ elim (Option-cases (browser.size_of file)) [
      | inl d ↦ rw (e, d, resize_image_file) tt
      | inr (size, d) ↦
          rw (e, d, resize_image_file) (resize_bitmap-Resizes file limit size.0 size.1 o d)
    ]
  ]
