-- ===== src/Sending/Tests.antt =====
-- The mutations of messages in frontend/src/hooks on a concrete conversation.
use bu3li_comms.Prelude.{
  true, false, not, String-discrete, ne_of_test, if◌then◌else◌, ◌≡◌, refl, some, [], ◌∷◌, All, ◌≢◌,
}
use bu3li_comms.Message.{ChatMessage, to_sent_message}
use bu3li_comms.MessageCache.Reactions.{has_reaction, has_message, same_triple}
use bu3li_comms.MessageCache.Tests.{by_units, first, second}
use bu3li_comms.Stores.{or_empty}
use bu3li_comms.Sending.{Conversation, send_text, on_sent, toggle_reaction}
use bu3li_comms.Sending.Answered.{on_sent-send_text}
use bu3li_comms.Sending.Toggled.{has_reaction-toggle_reaction}

abbrev general : Conversation
general = record {
  id = "general";
  me = some "ann";
  cached = some (to_sent_message first ∷ []);
  is_outdated = false;
  requests = [];
  toasts = record { toasts = []; timers = [] };
}

on_sent-send_text_example :
    (on_sent by_units second
      (send_text second.client_message_id "2026-01-03" "hello" general)).cached
    ≡ (on_sent by_units second general).cached
on_sent-send_text_example = on_sent-send_text by_units "2026-01-03" "hello" second general

no_other :
    All
      (λ (x : ChatMessage). x.client_message_id ≢ second.client_message_id)
      (or_empty general.cached)
unfolding to_sent_message String-discrete
no_other = (ne_of_test "c1" "c2" refl, tt)

first_cached : has_message (or_empty general.cached) "m1" ≡ true
unfolding to_sent_message String-discrete
first_cached = refl

no_reaction : false ≡ has_reaction (or_empty general.cached) "m1" "+1" "ann"
unfolding to_sent_message String-discrete
no_reaction = refl

has_reaction-toggle_reaction_example :
    has_reaction (or_empty (toggle_reaction "m1" "+1" false general).cached) "m1" "+1" "ann" ≡ (
      if same_triple "m1" "ann" "+1" "m1" "ann" "+1"
      then not false
      else has_reaction (or_empty general.cached) "m1" "+1" "ann")
has_reaction-toggle_reaction_example =
    has_reaction-toggle_reaction "m1" "+1" "ann" "m1" "+1" "ann" false general refl first_cached
      no_reaction
