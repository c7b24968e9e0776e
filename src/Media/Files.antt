-- ===== src/Media/Files.antt =====
-- The files that frontend/src/components/messages/MessageComposer.tsx attaches.
use bu3li_comms.Prelude.{ℕ, ◌≤◌, String, Bool, true, ◌≡◌, Option, none, some}
use bu3li_comms.Http.{Blob}
use bu3li_comms.Images.{Canvas}
use bu3li_comms.Images.Resizing.{IsResized}
use bu3li_comms.Media.{
  MediaMeta, Prepared, ready, rejected, max_image_dimension, max_video_bytes, max_video_duration_ms,
}

module _ (starts_with : String → String → Bool) (browser : Canvas)
    (video_duration_ms : Blob → Option ℕ) where
  -- An image, resized, with its size in pixels; or a video as it is, with its duration.
  pub data Attaches (file : Blob) : Blob → MediaMeta → Type 0 where
    image :
        (resized : Blob) (width height : ℕ)
        → starts_with file.mime_type "image/" ≡ true
        → IsResized browser file max_image_dimension resized
        → browser.size_of resized ≡ some (width, height)
        → Attaches file resized
            (record { duration_ms = none; width_px = some width; height_px = some height })
    video :
        (duration : ℕ)
        → starts_with file.mime_type "video/" ≡ true
        → file.size ≤ max_video_bytes
        → video_duration_ms file ≡ some duration
        → duration ≤ max_video_duration_ms
        → Attaches file file
            (record { duration_ms = some duration; width_px = none; height_px = none })

  abbrev Sound : Blob → Prepared → Type 0
  Sound file (ready blob meta) = Attaches file blob meta
  Sound file (rejected message) = Unit
