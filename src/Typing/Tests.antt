-- ===== src/Typing/Tests.antt =====
-- The store of frontend/src/stores/typingStore.ts on concrete events.
use bu3li_comms.Prelude.{ℕ, ◌+◌, true, String-discrete, ne_of_test, ◌≡◌, refl, List, [], ◌∷◌}
use bu3li_comms.Typing.{initial, set_typing, typing_expiry_ms}
use bu3li_comms.Typing.View.{is_typing}
use bu3li_comms.Typing.Keys.{NoColon}
use bu3li_comms.Typing.Spec.{
  Event, signal, tick, run, is_some, spec_run, no_deadlines, HasPlainIds, is_quiet, all_before,
}
use bu3li_comms.Typing.Refinement.{is_typing-run, shown_until_expiry}

abbrev pub events : List (ℕ × Event)
events =
    (0, signal "c" "ann" true)
    ∷ (100, signal "d" "bob" true)
    ∷ (4000, signal "c" "ann" true)
    ∷ (5050, tick)
    ∷ []

c_NoColon : NoColon "c"
unfolding String-discrete
c_NoColon = (ne_of_test "c" ":" refl, tt)

d_NoColon : NoColon "d"
unfolding String-discrete
d_NoColon = (ne_of_test "d" ":" refl, tt)

events-HasPlainIds : HasPlainIds events
events-HasPlainIds = (c_NoColon, (d_NoColon, (c_NoColon, tt)))

renewed_test : is_some (spec_run no_deadlines events "c" "ann") ≡ true
unfolding String-discrete
renewed_test = refl

is_typing-run_example :
    is_typing "c" "ann" (run initial events) ≡ is_some (spec_run no_deadlines events "c" "ann")
is_typing-run_example = is_typing-run events "c" "ann" events-HasPlainIds

abbrev later : List (ℕ × Event)
later = (9000, tick) ∷ (11000, tick) ∷ []

later_quiet : is_quiet "c" "ann" later ≡ true
later_quiet = refl

shown_until_expiry_example :
    is_typing "c" "ann" (run (set_typing 6000 "c" "ann" true (run initial events)) later)
    ≡ all_before (6000 + typing_expiry_ms) later
shown_until_expiry_example =
    shown_until_expiry events later 6000 "c" "ann" events-HasPlainIds tt c_NoColon later_quiet
