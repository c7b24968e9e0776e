-- ===== src/Media.antt =====
-- frontend/src/components/messages/MessageComposer.tsx, the mutations that send what it records or attaches
-- (frontend/src/hooks/useSendVoiceMessage.ts and useSendMediaMessage.ts) and
-- frontend/src/calls/speakingDetector.ts. `String.trim` is the parameter `trim`; what the browser's
-- bitmaps and canvas do and how long a video takes are parameters, in whole pixels and milliseconds, `none` for
-- a failure.
pub mod Speaking
pub mod Writing
pub mod Files
pub mod Devices
pub mod Tests
use Prim.Native.Nat.{Ordering}
use Prim.Native.String.{◌++◌ as join_text}
use bu3li_comms.Prelude.{
  ℕ, ◌+◌, ◌*◌, ◌/◌, ◌%◌, ltb, String, Bool, true, false, not, ◌&&◌, ◌==◌, if◌then◌else◌, Option,
  none, some, List, [], ◌∷◌, ◌++◌,
}
use bu3li_comms.Message.{Message}
use bu3li_comms.MessageCache.{insert_or_reconcile_message}
use bu3li_comms.Stores.{ToastStore, push, error}
use bu3li_comms.Composer.{TypingIndicator, notify_typing, stop_typing}
use bu3li_comms.Sending.{Conversation, update}
use bu3li_comms.Http.{Blob, Failure, is_rate_limited}
use bu3li_comms.Images.{Canvas, resize_image_file, read_image_dimensions}
use bu3li_comms.Recorder.{RecordedAudio}

pub record MediaMeta : Type 0 where
  pub duration_ms : Option ℕ
  pub width_px : Option ℕ
  pub height_px : Option ℕ

-- The state of the composer, and what it has handed to `onSend`, `onSendVoice` and `onSendMedia`, newest
-- first.
pub record MessageComposer : Type 0 where
  pub value : String
  pub is_preparing_media : Bool
  pub typing : TypingIndicator
  pub sent : List String
  pub voices : List RecordedAudio
  pub media : List (Blob × MediaMeta)
  pub toasts : ToastStore

abbrev pub max_image_dimension : ℕ
max_image_dimension = 1600

abbrev pub max_video_duration_ms : ℕ
max_video_duration_ms = 120000

abbrev pub max_video_bytes : ℕ
max_video_bytes = 50 * 1024 * 1024

module _ (trim : String → String) where
  abbrev pub is_blank : String → Bool
  is_blank text = trim text == ""

  unfoldable pub handle_change : ℕ → String → MessageComposer → MessageComposer
  handle_change now next s = record s {
    value = next;
    typing = if is_blank next then stop_typing s.typing else notify_typing now s.typing;
  }

  unfoldable pub submit : MessageComposer → MessageComposer
  submit s =
      if is_blank s.value
      then s
      else record s { sent = trim s.value ∷ s.sent; value = ""; typing = stop_typing s.typing }

  unfoldable pub handle_key_down : String → Bool → MessageComposer → MessageComposer
  unfolding submit
  handle_key_down key has_shift s = if key == "Enter" && not has_shift then submit s else s

-- `startRecording`, when the microphone is refused
unfoldable pub on_start_refused : ℕ → String → MessageComposer → MessageComposer
on_start_refused now toast_id s = record s {
  toasts = push now toast_id "Couldn't access your microphone." error s.toasts;
}

-- `finishRecording`, with what the recorder's `stop` resolves to
unfoldable pub finish_recording : Option RecordedAudio → MessageComposer → MessageComposer
finish_recording none s = s
finish_recording (some clip) s = record s { voices = clip ∷ s.voices }

pub data Prepared : Type 0 where
  ready : Blob → MediaMeta → Prepared
  rejected : (message : String) → Prepared

abbrev pub failed_file : Prepared
failed_file = rejected "Couldn't process that file. Try again."

module _ (starts_with : String → String → Bool) (browser : Canvas)
    (video_duration_ms : Blob → Option ℕ) where
  unfoldable pub prepare_image : Blob → Prepared
  unfolding resize_image_file read_image_dimensions
  prepare_image file = elim (resize_image_file browser file max_image_dimension) [
    | none ↦ failed_file
    | some resized ↦ elim (read_image_dimensions browser resized) [
      | none ↦ failed_file
      | some size ↦
          ready resized
            (record { duration_ms = none; width_px = some size.0; height_px = some size.1 })
    ]
  ]

  unfoldable pub prepare_video : Blob → Prepared
  prepare_video file =
      if ltb max_video_bytes file.size
      then rejected "That video is too large (50MB max)."
      else elim (video_duration_ms file) [
        | none ↦ failed_file
        | some duration_ms ↦
            if ltb max_video_duration_ms duration_ms
            then rejected "That video is too long (2 minutes max)."
            else ready file
                (record { duration_ms = some duration_ms; width_px = none; height_px = none })
      ]

  -- the body of the `try`
  unfoldable pub prepare : Blob → Prepared
  unfolding prepare_image prepare_video
  prepare file =
      if starts_with file.mime_type "image/"
      then prepare_image file
      else if starts_with file.mime_type "video/"
      then prepare_video file
      else rejected "Pick an image or video file."

-- `handleFileSelected` until the file is prepared, and from then on
unfoldable pub on_selected : Option Blob → MessageComposer → MessageComposer
on_selected none s = s
on_selected (some file) s = record s { is_preparing_media = true }

unfoldable pub on_prepared : ℕ → String → Prepared → MessageComposer → MessageComposer
on_prepared now toast_id (ready blob meta) s = record s {
  media = (blob, meta) ∷ s.media;
  is_preparing_media = false;
}
on_prepared now toast_id (rejected message) s = record s {
  toasts = push now toast_id message error s.toasts;
  is_preparing_media = false;
}

-- the elapsed time as minutes and seconds, `show` being the text of a number
unfoldable pub format_elapsed : (ℕ → String) → ℕ → String
format_elapsed show ms =
    let total_seconds = ms / 1000 in
    let seconds = total_seconds % 60 in
    join_text (show (total_seconds / 60))
      (join_text ":" (if ltb seconds 10 then join_text "0" (show seconds) else show seconds))

-- what may be attached to a message that is sent
pub data Upload : Type 0 where
  voice attachment : Upload

abbrev pub upload_failure_text : Upload → String
upload_failure_text voice = "Couldn't send that voice message. Try again."
upload_failure_text attachment = "Couldn't send that attachment. Try again."

unfoldable pub on_uploaded : (String → String → Ordering) → Message → Conversation → Conversation
on_uploaded compare message c = update (λ old. insert_or_reconcile_message compare old message) c

unfoldable pub on_upload_error : ℕ → String → Upload → Failure → Conversation → Conversation
on_upload_error now toast_id upload failure c = record c {
  toasts =
      push now toast_id
        (if is_rate_limited failure
          then "Sending too fast — wait a moment and try again."
          else upload_failure_text upload)
        error c.toasts;
}
