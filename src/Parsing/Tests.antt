-- ===== src/Parsing/Tests.antt =====
-- parseRealtimeEvent of frontend/src/realtime/events.ts and the listeners of frontend/src/realtime/socket.ts
-- on a concrete message. A value of JSON is an envelope of a type and a text.
use bu3li_comms.Prelude.{
  String, Bool, false, String-discrete, ◌==◌, ◌≡◌, ◌↔◌, refl, Option, none, some, List, [], ◌∷◌,
  get,
}
use bu3li_comms.RealtimeEvent.{RealtimeEvent, user_online}
use bu3li_comms.Parsing.{
  EventSchemas, event, throws, event_schemas, parse_data, parse_realtime_event, on_message,
}
use bu3li_comms.Parsing.Kinds.{type_of, parse_realtime_event_lem}
use bu3li_comms.Parsing.Delivery.{
  Subscription, adds, removes, subscribe, is_subscribed, is_called, is_called-on_message,
}

abbrev pub Json : Type 0
Json = String × String

abbrev pub presence_only : EventSchemas Json
presence_only = record {
  envelope = λ j. some (j.0, j);
  message = λ j. none;
  message_deleted = λ j. none;
  message_read = λ j. none;
  message_reaction = λ j. none;
  server_member_changed = λ j. none;
  server_channel = λ j. none;
  server_channel_deleted = λ j. none;
  server_deleted = λ j. none;
  server_updated = λ j. none;
  typing = λ j. none;
  presence = λ j. some j.1;
  presence_snapshot = λ j. none;
  call_created = λ j. none;
  call_participants_changed = λ j. none;
  call_ended = λ j. none;
  webrtc_sdp = λ j. none;
  webrtc_ice_candidate = λ j. none;
}

abbrev pub inherits : String → Bool
inherits key = key == "toString"

abbrev online : Json
online = ("user.online", "u1")

online_parsed : parse_realtime_event presence_only inherits online ≡ event (user_online "u1")
unfolding parse_realtime_event parse_data get String-discrete
online_parsed = refl

inherited_test : parse_realtime_event presence_only inherits ("toString", "") ≡ throws
unfolding parse_realtime_event parse_data get String-discrete
inherited_test = refl

parse_realtime_event_lem_example :
    (parse_realtime_event presence_only inherits online ≡ event (user_online "u1")) ↔ (
      (d : Json) × (f : Json → Option RealtimeEvent) × (presence_only.envelope online
        ≡ some (type_of (user_online "u1"), d))
      × (get (type_of (user_online "u1")) (event_schemas presence_only) ≡ some f)
      × (f d ≡ some (user_online "u1")))
parse_realtime_event_lem_example =
    parse_realtime_event_lem presence_only inherits online (user_online "u1")

abbrev read_all : String → Option Json
read_all raw = some online

abbrev subscriptions : List Subscription
subscriptions = adds 1 ∷ adds 2 ∷ removes 1 ∷ adds 2 ∷ []

is_called-on_message_example :
    is_called 2 (on_message presence_only inherits read_all "{}" (subscribe subscriptions []))
    ≡ is_subscribed 2 subscriptions false
is_called-on_message_example =
    is_called-on_message presence_only inherits read_all "{}" online (user_online "u1")
      subscriptions 2 refl online_parsed
