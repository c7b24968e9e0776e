-- ===== src/Media/Tests.antt =====
-- The composer of frontend/src/components/messages/MessageComposer.tsx and the detector of
-- frontend/src/calls/speakingDetector.ts on concrete inputs.
use bu3li_comms.Prelude.{
  ℕ, ◌≤◌, ◌<◌, ◌*◌, ◌/◌, eqb, ltb, if◌then◌else◌, ◌&&◌, String, Bool, true, false, ◌==◌, ◌≡◌, refl,
  Option, none, some, List, [], ◌∷◌, arith,
}
use bu3li_comms.Composer.Indicator.{quiet_indicator}
use bu3li_comms.Http.{Blob}
use bu3li_comms.Images.{Canvas}
use bu3li_comms.Media.{MessageComposer, MediaMeta}
use bu3li_comms.Media.Speaking.{
  Frame, watch, silent, tick, is_held, last_loud, last_time, IsOrdered, tells, Alternates,
  watch_lem,
}
use bu3li_comms.Media.Writing.{
  WritingEvent, changes, presses, elapses, write, IsComposed, IsTrim, write-IsComposed,
}

abbrev frames : List Frame
frames =
    record { volumes = 20 ∷ 30 ∷ []; now = 10 }
    ∷ record { volumes = 0 ∷ 1 ∷ []; now = 200 }
    ∷ record { volumes = 0 ∷ 1 ∷ []; now = 311 }
    ∷ []

watch_test : (watch frames silent).reports ≡ false ∷ true ∷ []
unfolding tick
watch_test = refl

frames-IsOrdered : IsOrdered frames 0
frames-IsOrdered = (omega arith, (omega arith, (omega arith, tt)))

watch_lem_example :
    ((watch frames silent).is_speaking ≡ is_held (last_loud frames none) (last_time frames 0))
    × (tells (watch frames silent).reports ≡ (watch frames silent).is_speaking)
    × Alternates (watch frames silent).reports
watch_lem_example = watch_lem frames frames-IsOrdered

-- a `trim` for texts without spaces at their ends
abbrev same : String → String
same text = text

same-IsTrim : IsTrim same
same-IsTrim = record { trim_twice = λ text. refl }

abbrev empty_composer : MessageComposer
empty_composer = record {
  value = "";
  is_preparing_media = false;
  typing = quiet_indicator "c";
  sent = [];
  voices = [];
  media = [];
  toasts = record { toasts = []; timers = [] };
}

abbrev written : List WritingEvent
written = changes 5 "hi" ∷ presses "Enter" false ∷ changes 9 "" ∷ elapses 2000 ∷ []

empty_composer-IsComposed : IsComposed same "c" empty_composer
empty_composer-IsComposed = record { told = (refl, refl); quiet = λ b. refl; worded = tt }

write-IsComposed_example : IsComposed same "c" (write same written empty_composer)
write-IsComposed_example =
    write-IsComposed same same-IsTrim written "c" empty_composer empty_composer-IsComposed

abbrev photo : Blob
photo = record { handle = 1; mime_type = "image/png"; size = 9000000 }

abbrev smaller_photo : Blob
smaller_photo = record { handle = 2; mime_type = "image/png"; size = 400000 }

abbrev starts_with : String → String → Bool
starts_with text prefix = text == "image/png" && prefix == "image/"

abbrev size_of : Blob → Option (ℕ × ℕ)
size_of blob = if eqb blob.handle 1 then some (3000, 2000) else some (1600, 1066)

abbrev encode : Blob → ℕ → ℕ → String → Option Blob
encode blob width height mime_type = some smaller_photo

-- rounding down
abbrev scaled : ℕ → ℕ → ℕ → ℕ
scaled side limit longest =
    if ltb limit (side * limit / longest) then limit else side * limit / longest

scaled-le :
    (side limit longest : ℕ) → side ≤ longest → limit < longest → scaled side limit longest ≤ limit
scaled-le side limit longest s l = ground arith

abbrev canvas : Canvas
canvas = record {
  size_of = size_of;
  has_context = true;
  encode = encode;
  round_scaled = scaled;
  round_scaled-le = scaled-le;
}

abbrev photo_meta : MediaMeta
photo_meta = record { duration_ms = none; width_px = some 1600; height_px = some 1066 }

abbrev no_duration : Blob → Option ℕ
no_duration file = none
