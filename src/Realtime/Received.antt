-- ===== src/Realtime/Received.antt =====
-- A message of the connection from its text to the cache: the listener of frontend/src/realtime/socket.ts,
-- parseRealtimeEvent of frontend/src/realtime/events.ts and handleEvent of frontend/src/hooks/useRealtime.ts,
-- which is the one listener of events.
use Prim.Native.Nat.{Ordering}
use mathlib.Core.Option
use bu3li_comms.Prelude.{
  ℕ, String, Bool, String-discrete, ◌≡◌, refl, ◌∙◌, Option, some, List, [], ◌∷◌, get,
}
use bu3li_comms.Message.{Message}
use bu3li_comms.MessageCache.{insert_or_reconcile_message}
use bu3li_comms.MessageCache.Order.{IsCollation, DistinctIds}
use bu3li_comms.Stores.{or_empty}
use bu3li_comms.RealtimeEvent.{RealtimeEvent}
use bu3li_comms.Parsing.{EventSchemas, event, event_schemas, parse_realtime_event, on_message}
use bu3li_comms.Parsing.Kinds.{parse_realtime_event_lem}
use bu3li_comms.Realtime.{QueryClient, World, handle_event}
use bu3li_comms.Realtime.Messages.{created-messages, created_twice}

module _ {Json : Type 0} (schemas : EventSchemas Json) (is_inherited : String → Bool)
    (parse_json : String → Option Json) (compare : String → String → Ordering)
    (client : QueryClient) where
  open client use {Cache, messages}

  abbrev handle_calls : ℕ → List (ℕ × RealtimeEvent) → World Cache → World Cache
  handle_calls now [] w = w
  handle_calls now (call ∷ calls) w =
      handle_calls now calls (handle_event compare client now call.1 w)

  -- The hook is the listener 0.
  unfoldable pub receive : ℕ → String → World Cache → World Cache
  receive now raw w = handle_calls now (on_message schemas is_inherited parse_json raw (0 ∷ [])) w

  -- The text is that of an event for a new message.
  pub record Announces (raw : String) (m : Message) : Type 0 where
    pub json : Json
    pub payload : Json
    pub is_json : parse_json raw ≡ some json
    pub is_envelope : schemas.envelope json ≡ some ("message.created", payload)
    pub is_message : schemas.message payload ≡ some m

  created_schema :
      get "message.created" (event_schemas schemas)
      ≡ some (λ d. Option.map RealtimeEvent.message_created (schemas.message d))
  unfolding get String-discrete
  created_schema = refl

  receive-Announces :
      (now : ℕ) (raw : String) (m : Message) (w : World Cache)
      → Announces raw m
      → receive now raw w ≡ handle_event compare client now (RealtimeEvent.message_created m) w
  unfolding receive on_message
  receive-Announces now raw m w a =
      let parsed : parse_realtime_event schemas is_inherited a.json
          ≡ event (RealtimeEvent.message_created m) =
        (parse_realtime_event_lem schemas is_inherited a.json (RealtimeEvent.message_created m)).1 (
          a.payload,
          (λ d. Option.map RealtimeEvent.message_created (schemas.message d)),
          a.is_envelope,
          created_schema,
          rw (a.is_message) refl,
        ) in
      rw (a.is_json, parsed, on_message) refl

  -- If `localeCompare` orders the texts and the cached ids of the conversation are distinct, then a text that
  -- announces a new message inserts it into, or reconciles it with, the cached messages of its conversation
  -- when the connection delivers it, and a second delivery leaves the conversation's messages so.
  pub received_twice :
      (now later : ℕ) (raw : String) (m : Message) (w : World Cache)
      → Announces raw m
      → IsCollation compare
      → DistinctIds (or_empty (messages m.conversation_id w.cache))
      → let after =
          some (
            insert_or_reconcile_message compare
              (or_empty (messages m.conversation_id w.cache))
              m) in
        (messages m.conversation_id (receive now raw w).cache ≡ after)
        × (messages m.conversation_id (receive later raw (receive now raw w)).cache ≡ after)
  received_twice now later raw m w a c d =
      let first = receive-Announces now raw m w a in
      let second = receive-Announces later raw m (receive now raw w) a in
      let inserted = created-messages compare client now m w in
      (
        rw (first) inserted,
        rw (second, first) (created_twice compare client now later m w c d ∙ inserted),
      )
