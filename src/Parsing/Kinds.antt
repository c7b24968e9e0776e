-- ===== src/Parsing/Kinds.antt =====
-- The kinds of the events that parseRealtimeEvent of frontend/src/realtime/events.ts reads.

use bu3li_comms.Prelude.{
  String, Bool, ◌==◌, ◌≡◌, ◌↔◌, refl, sym, subst, ◌∙◌, ap, Option, none, some, [], ◌∷◌, All, Dict,
  get, arith, Bool-cases, Option-cases, inl, inr,
}
use bu3li_comms.RealtimeEvent.{
  RealtimeEvent, message_created, message_updated, message_deleted, message_read,
  message_reaction_added, message_reaction_removed, server_member_added, server_member_removed,
  server_member_role_changed, server_channel_created, server_channel_deleted,
  server_channels_reordered, server_deleted, server_updated, server_role_changed, typing_started,
  typing_stopped, user_online, user_offline, presence_snapshot, call_created, call_joined,
  call_left, call_ended, webrtc_offer, webrtc_answer, webrtc_ice_candidate,
}
use bu3li_comms.Parsing.{
  EventSchemas, event, reading, event_schemas, parse_data, parse_realtime_event,
}

-- the type in the envelope of an event
abbrev pub type_of : RealtimeEvent → String
type_of (message_created m) = "message.created"
type_of (message_updated m) = "message.updated"
type_of (message_deleted m c) = "message.deleted"
type_of (message_read m u c t) = "message.read"
type_of (message_reaction_added m c u e) = "message.reaction_added"
type_of (message_reaction_removed m c u e) = "message.reaction_removed"
type_of (server_member_added s u) = "server.member_added"
type_of (server_member_removed s u) = "server.member_removed"
type_of (server_member_role_changed s u) = "server.member_role_changed"
type_of (server_channel_created c) = "server.channel_created"
type_of (server_channel_deleted s c) = "server.channel_deleted"
type_of (server_channels_reordered s) = "server.channels_reordered"
type_of (server_deleted s) = "server.deleted"
type_of (server_updated s) = "server.updated"
type_of (server_role_changed s) = "server.role_changed"
type_of (typing_started u c) = "typing.started"
type_of (typing_stopped u c) = "typing.stopped"
type_of (user_online u) = "user.online"
type_of (user_offline u) = "user.offline"
type_of (presence_snapshot us) = "presence.snapshot"
type_of (call_created c u) = "call.created"
type_of (call_joined c u ps) = "call.joined"
type_of (call_left c u ps) = "call.left"
type_of (call_ended c) = "call.ended"
type_of (webrtc_offer c u s) = "webrtc.offer"
type_of (webrtc_answer c u s) = "webrtc.answer"
type_of (webrtc_ice_candidate c u i) = "webrtc.ice_candidate"

module _ {Json : Type 0} (schemas : EventSchemas Json) where
  -- What an entry reads is of its kind.
  abbrev IsTyped : String × (Json → Option RealtimeEvent) → Type 0
  IsTyped entry = (d : Json) (e : RealtimeEvent) → entry.1 d ≡ some e → type_of e ≡ entry.0

  reading-IsTyped :
      {A : Type 0} (key : String) (schema : Json → Option A) (f : A → RealtimeEvent)
      → ((a : A) → type_of (f a) ≡ key)
      → IsTyped (key, reading schemas schema f)
  reading-IsTyped key schema f h d e r = elim (Option-cases (schema d)) [
    | inl n ↦ absurd (ground arith)
    | inr (a, k) ↦ let same : f a ≡ e = ground arith in subst (λ x. type_of x ≡ key) same (h a)
  ]

  event_schemas-IsTyped : All IsTyped (event_schemas schemas)
  event_schemas-IsTyped = (
    reading-IsTyped _ _ _ (λ a. refl),
    (
      reading-IsTyped _ _ _ (λ a. refl),
      (
        reading-IsTyped _ _ _ (λ a. refl),
        (
          reading-IsTyped _ _ _ (λ a. refl),
          (
            reading-IsTyped _ _ _ (λ a. refl),
            (
              reading-IsTyped _ _ _ (λ a. refl),
              (
                reading-IsTyped _ _ _ (λ a. refl),
                (
                  reading-IsTyped _ _ _ (λ a. refl),
                  (
                    reading-IsTyped _ _ _ (λ a. refl),
                    (
                      reading-IsTyped _ _ _ (λ a. refl),
                      (
                        reading-IsTyped _ _ _ (λ a. refl),
                        (
                          reading-IsTyped _ _ _ (λ a. refl),
                          (
                            reading-IsTyped _ _ _ (λ a. refl),
                            (
                              reading-IsTyped _ _ _ (λ a. refl),
                              (
                                reading-IsTyped _ _ _ (λ a. refl),
                                (
                                  reading-IsTyped _ _ _ (λ a. refl),
                                  (
                                    reading-IsTyped _ _ _ (λ a. refl),
                                    (
                                      reading-IsTyped _ _ _ (λ a. refl),
                                      (
                                        reading-IsTyped _ _ _ (λ a. refl),
                                        (
                                          reading-IsTyped _ _ _ (λ a. refl),
                                          (
                                            reading-IsTyped _ _ _ (λ a. refl),
                                            (
                                              reading-IsTyped _ _ _ (λ a. refl),
                                              (
                                                reading-IsTyped _ _ _ (λ a. refl),
                                                (
                                                  reading-IsTyped _ _ _ (λ a. refl),
                                                  (
                                                    reading-IsTyped _ _ _ (λ a. refl),
                                                    (
                                                      reading-IsTyped _ _ _ (λ a. refl),
                                                      (reading-IsTyped _ _ _ (λ a. refl), tt),
                                                    ),
                                                  ),
                                                ),
                                              ),
                                            ),
                                          ),
                                        ),
                                      ),
                                    ),
                                  ),
                                ),
                              ),
                            ),
                          ),
                        ),
                      ),
                    ),
                  ),
                ),
              ),
            ),
          ),
        ),
      ),
    ),
  )

  get-IsTyped :
      (key : String) (entries : Dict (Json → Option RealtimeEvent))
      (f : Json → Option RealtimeEvent)
      → All IsTyped entries
      → get key entries ≡ some f
      → IsTyped (key, f)
  unfolding get
  get-IsTyped key [] f h e = absurd (ground arith)
  get-IsTyped key ((k, g) ∷ entries) f (t, h) e = elim (Bool-cases (k == key)) [
    | inl b ↦
        let same_key : k ≡ key = ground arith in
        let same : g ≡ f = ground arith in
        subst (λ x. IsTyped (x, f)) same_key (subst (λ x. IsTyped (k, x)) same t)
    | inr b ↦ get-IsTyped key entries f h (ground arith)
  ]

  parse_data-event :
      (is_inherited : Bool) (found : Option (Json → Option RealtimeEvent)) (d : Json)
      (e : RealtimeEvent)
      → parse_data schemas is_inherited found d ≡ event e
      → (f : Json → Option RealtimeEvent) × (found ≡ some f) × (f d ≡ some e)
  unfolding parse_data
  parse_data-event is_inherited none d e h = elim (Bool-cases is_inherited) [
    | inl b ↦ absurd (ground arith)
    | inr b ↦ absurd (ground arith)
  ]
  parse_data-event is_inherited (some f) d e h = elim (Option-cases (f d)) [
    | inl n ↦ absurd (ground arith)
    | inr (x, k) ↦ (f, refl, ground arith)
  ]

  parse_data-some :
      (is_inherited : Bool) (f : Json → Option RealtimeEvent) (d : Json) (e : RealtimeEvent)
      → f d ≡ some e
      → parse_data schemas is_inherited (some f) d ≡ event e
  unfolding parse_data
  parse_data-some is_inherited f d e k = rw (k) refl

  -- What is parsed to an event is an envelope whose type is the event's kind, and the schema of that kind
  -- reads its data as the event; and every such envelope is parsed to the event.
  pub parse_realtime_event_lem :
      (is_inherited : String → Bool) (raw : Json) (e : RealtimeEvent)
      → (parse_realtime_event schemas is_inherited raw ≡ event e) ↔ (
          (d : Json) × (f : Json → Option RealtimeEvent) × (schemas.envelope raw
            ≡ some (type_of e, d))
          × (get (type_of e) (event_schemas schemas) ≡ some f)
          × (f d ≡ some e))
  unfolding parse_realtime_event
  parse_realtime_event_lem is_inherited raw e = (λ h. read h, λ (d, f, i, g, k). write d f i g k)
    where
      write :
          (d : Json) (f : Json → Option RealtimeEvent)
          → schemas.envelope raw ≡ some (type_of e, d)
          → get (type_of e) (event_schemas schemas) ≡ some f
          → f d ≡ some e
          → parse_realtime_event schemas is_inherited raw ≡ event e
      write d f i g k =
          rw (i, parse_realtime_event)
            (subst (λ o. parse_data schemas (is_inherited (type_of e)) o d ≡ event e) (sym g)
              (parse_data-some (is_inherited (type_of e)) f d e k))

      read :
          parse_realtime_event schemas is_inherited raw ≡ event e
          → (d : Json) × (f : Json → Option RealtimeEvent) × (schemas.envelope raw
              ≡ some (type_of e, d))
            × (get (type_of e) (event_schemas schemas) ≡ some f)
            × (f d ≡ some e)
      read h = elim (Option-cases (schemas.envelope raw)) [
        | inl n ↦ absurd (ground arith)
        | inr (envelope, i) ↦
            let (f, g, k) =
              parse_data-event (is_inherited envelope.0) (get envelope.0 (event_schemas schemas))
                envelope.1 e (ground arith) in
            let kind =
              get-IsTyped envelope.0 (event_schemas schemas) f event_schemas-IsTyped g envelope.1 e
                k in
            (envelope.1, f, i ∙ ap (λ t. some (t, envelope.1)) (sym kind), rw (kind) g, k)
      ]
