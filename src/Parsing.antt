-- ===== src/Parsing.antt =====
-- parseRealtimeEvent of frontend/src/realtime/events.ts, and how frontend/src/realtime/socket.ts hands the
-- events on. A value of JSON is of the parameter `Json`; zod's schemas are functions that read one or refuse
-- it; `is_inherited` tells the keys that every object inherits, which the operator `in` finds too.
pub mod Kinds
pub mod Delivery
pub mod Tests
use mathlib.Core.Option
use bu3li_comms.Prelude.{
  String, Bool, true, false, not, ◌==◌, if◌then◌else◌, Option, none, some, List, [], ◌∷◌, ◌++◌, map,
  any, filter, eqb, ℕ, Dict, get,
}
use bu3li_comms.Message.{Message}
use bu3li_comms.Server.{ServerChannel}
use bu3li_comms.RealtimeEvent.{
  RealtimeEvent, message_created, message_updated, message_deleted, message_read,
  message_reaction_added, message_reaction_removed, server_member_added, server_member_removed,
  server_member_role_changed, server_channel_created, server_channel_deleted,
  server_channels_reordered, server_deleted, server_updated, server_role_changed, typing_started,
  typing_stopped, user_online, user_offline, presence_snapshot, call_created, call_joined,
  call_left, call_ended, webrtc_offer, webrtc_answer, webrtc_ice_candidate,
}

-- the schemas of the payloads, and of the envelope, with its type and data
pub record EventSchemas (Json : Type 0) : Type 0 where
  pub envelope : Json → Option (String × Json)
  pub message : Json → Option Message
  pub message_deleted : Json → Option (String × String)
  pub message_read : Json → Option (String × String × String × String)
  pub message_reaction : Json → Option (String × String × String × String)
  pub server_member_changed : Json → Option (String × String)
  pub server_channel : Json → Option ServerChannel
  pub server_channel_deleted : Json → Option (String × String)
  pub server_deleted : Json → Option String
  pub server_updated : Json → Option String
  pub typing : Json → Option (String × String)
  pub presence : Json → Option String
  pub presence_snapshot : Json → Option (List String)
  pub call_created : Json → Option (String × String)
  pub call_participants_changed : Json → Option (String × String × List String)
  pub call_ended : Json → Option String
  pub webrtc_sdp : Json → Option (String × String × String)
  pub webrtc_ice_candidate : Json → Option (String × String × String)

pub data Parsed : Type 0 where
  event : RealtimeEvent → Parsed
  nothing throws : Parsed

abbrev pub is_listening : ℕ → List ℕ → Bool
is_listening listener = any (λ l. eqb l listener)

-- The listeners, by number, in the order in which they were added; a listener is there once.
unfoldable pub on_event : ℕ → List ℕ → List ℕ
on_event listener listeners =
    if is_listening listener listeners then listeners else listeners ++ listener ∷ []

unfoldable pub off_event : ℕ → List ℕ → List ℕ
off_event listener listeners = filter (λ l. not (eqb l listener)) listeners

module _ {Json : Type 0} (schemas : EventSchemas Json) where
  -- a schema, with the event that its data makes
  abbrev pub reading :
      {A : Type 0} → (Json → Option A) → (A → RealtimeEvent) → Json → Option RealtimeEvent
  reading schema f data_value = Option.map f (schema data_value)

  -- `realtimeEventSchemas`
  abbrev pub event_schemas : Dict (Json → Option RealtimeEvent)
  event_schemas =
      ("message.created", reading schemas.message message_created)
      ∷ ("message.updated", reading schemas.message message_updated)
      ∷ ("message.deleted", reading schemas.message_deleted (λ d. message_deleted d.0 d.1))
      ∷ ("message.read", reading schemas.message_read (λ d. message_read d.0 d.1 d.2 d.3))
      ∷ (
        "message.reaction_added",
        reading schemas.message_reaction (λ d. message_reaction_added d.0 d.1 d.2 d.3),
      )
      ∷ (
        "message.reaction_removed",
        reading schemas.message_reaction (λ d. message_reaction_removed d.0 d.1 d.2 d.3),
      )
      ∷ (
        "server.member_added",
        reading schemas.server_member_changed (λ d. server_member_added d.0 d.1),
      )
      ∷ (
        "server.member_removed",
        reading schemas.server_member_changed (λ d. server_member_removed d.0 d.1),
      )
      ∷ ("server.channel_created", reading schemas.server_channel server_channel_created)
      ∷ (
        "server.channel_deleted",
        reading schemas.server_channel_deleted (λ d. server_channel_deleted d.0 d.1),
      )
      ∷ ("server.channels_reordered", reading schemas.server_updated server_channels_reordered)
      ∷ ("server.deleted", reading schemas.server_deleted server_deleted)
      ∷ ("server.updated", reading schemas.server_updated server_updated)
      ∷ ("server.role_changed", reading schemas.server_updated server_role_changed)
      ∷ (
        "server.member_role_changed",
        reading schemas.server_member_changed (λ d. server_member_role_changed d.0 d.1),
      )
      ∷ ("typing.started", reading schemas.typing (λ d. typing_started d.0 d.1))
      ∷ ("typing.stopped", reading schemas.typing (λ d. typing_stopped d.0 d.1))
      ∷ ("user.online", reading schemas.presence user_online)
      ∷ ("user.offline", reading schemas.presence user_offline)
      ∷ ("presence.snapshot", reading schemas.presence_snapshot presence_snapshot)
      ∷ ("call.created", reading schemas.call_created (λ d. call_created d.0 d.1))
      ∷ ("call.joined", reading schemas.call_participants_changed (λ d. call_joined d.0 d.1 d.2))
      ∷ ("call.left", reading schemas.call_participants_changed (λ d. call_left d.0 d.1 d.2))
      ∷ ("call.ended", reading schemas.call_ended call_ended)
      ∷ ("webrtc.offer", reading schemas.webrtc_sdp (λ d. webrtc_offer d.0 d.1 d.2))
      ∷ ("webrtc.answer", reading schemas.webrtc_sdp (λ d. webrtc_answer d.0 d.1 d.2))
      ∷ (
        "webrtc.ice_candidate",
        reading schemas.webrtc_ice_candidate (λ d. webrtc_ice_candidate d.0 d.1 d.2),
      )
      ∷ []

  -- `schema.safeParse(data)`; what is inherited has no `safeParse`
  unfoldable pub parse_data : Bool → Option (Json → Option RealtimeEvent) → Json → Parsed
  parse_data is_inherited none data_value = if is_inherited then throws else nothing
  parse_data is_inherited (some schema) data_value = elim (schema data_value) [
    | none ↦ nothing
    | some e ↦ event e
  ]

  unfoldable pub parse_realtime_event : (String → Bool) → Json → Parsed
  unfolding parse_data
  parse_realtime_event is_inherited raw = elim (schemas.envelope raw) [
    | none ↦ nothing
    | some envelope ↦ parse_data (is_inherited envelope.0) (get envelope.0 event_schemas) envelope.1
  ]

  -- the listener of `message`: which listener is called with which event, in order
  unfoldable pub on_message :
      (String → Bool) → (String → Option Json) → String → List ℕ → List (ℕ × RealtimeEvent)
  unfolding parse_realtime_event
  on_message is_inherited parse_json raw listeners = elim (parse_json raw) [
    | none ↦ []
    | some json ↦ elim (parse_realtime_event is_inherited json) [
      | event e ↦ map (λ l. (l, e)) listeners
      | nothing ↦ []
      | throws ↦ []
    ]
  ]
