-- ===== src/Composer/Tests.antt =====
-- The hooks of an open conversation in frontend/src/hooks on concrete inputs.
use bu3li_comms.Prelude.{ℕ, true, String-discrete, ◌≡◌, refl, none, List, [], ◌∷◌}
use bu3li_comms.Message.{to_sent_message}
use bu3li_comms.MessageCache.Tests.{first, placeholder}
use bu3li_comms.Typing.Spec.{is_some}
use bu3li_comms.Composer.{
  ReadMarker, typing_started, typing_stopped, stop_typing, notify_typing, run_stops,
  elapse_indicator,
}
use bu3li_comms.Composer.Indicator.{
  Input, types, stops, ticks, after_input, after_inputs, quiet_indicator, Alternates, deadline_of,
  is_typing-after_inputs, frames-Alternates,
}
use bu3li_comms.Composer.Receipts.{is_incoming, NoIncoming}

abbrev inputs : List (ℕ × Input)
inputs =
    (0, types) ∷ (1000, types) ∷ (2000, ticks) ∷ (2600, ticks) ∷ (3000, types) ∷ (3100, stops) ∷ []

frames_test :
    (after_inputs (quiet_indicator "c") inputs).frames
    ≡ typing_stopped "c" ∷ typing_started "c" ∷ typing_stopped "c" ∷ typing_started "c" ∷ []
unfolding after_inputs after_input stop_typing notify_typing run_stops elapse_indicator
frames_test = refl

is_typing-after_inputs_example :
    (after_inputs (quiet_indicator "c") inputs).is_typing ≡ is_some (deadline_of none inputs)
is_typing-after_inputs_example = is_typing-after_inputs "c" inputs

frames-Alternates_example :
    let s = after_inputs (quiet_indicator "c") inputs in Alternates "c" s.is_typing s.frames
frames-Alternates_example = frames-Alternates "c" inputs

abbrev unread : ReadMarker
unread = record { last_marked = none; frames = [] }

from_ann : is_incoming "bob" (to_sent_message first) ≡ true
unfolding to_sent_message String-discrete
from_ann = refl

placeholder_skipped : NoIncoming "bob" (placeholder ∷ [])
unfolding String-discrete
placeholder_skipped = (refl, tt)
