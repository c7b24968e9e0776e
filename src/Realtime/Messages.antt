-- ===== src/Realtime/Messages.antt =====
-- The cached messages under the events of frontend/src/hooks/useRealtime.ts.
use Prim.Native.Nat.{Ordering}
use bu3li_comms.Prelude.{
  ℕ, String, Bool, false, ◌==◌, if◌then◌else◌, ◌≡◌, refl, ap, ◌∙◌, some, List, arith,
}
use bu3li_comms.Message.{Message, ChatMessage}
use bu3li_comms.MessageCache.{insert_or_reconcile_message}
use bu3li_comms.MessageCache.Order.{IsCollation, DistinctIds}
use bu3li_comms.MessageCache.Reconcile.{reconcile_twice}
use bu3li_comms.Stores.{or_empty}
use bu3li_comms.RealtimeEvent.{RealtimeEvent}
use bu3li_comms.Realtime.{QueryClient, World, update_messages, handle_event, conversations, servers}

-- The event is about a message of the conversation.
abbrev pub concerns : String → RealtimeEvent → Bool
concerns j (RealtimeEvent.message_created m) = m.conversation_id == j
concerns j (RealtimeEvent.message_updated m) = m.conversation_id == j
concerns j (RealtimeEvent.message_deleted id c) = c == j
concerns j (RealtimeEvent.message_reaction_added id c u emoji) = c == j
concerns j (RealtimeEvent.message_reaction_removed id c u emoji) = c == j
concerns j _ = false

module _ (compare : String → String → Ordering) (client : QueryClient) where
  open client use {Cache, messages, set_messages, invalidate, messages-set, messages-invalidate}

  messages-update :
      (j k : String) (f : List ChatMessage → List ChatMessage) (w : World Cache)
      → messages j (update_messages compare client k f w).cache
        ≡ (if k == j then some (f (or_empty (messages k w.cache))) else messages j w.cache)
  unfolding update_messages
  messages-update j k f w = messages-set j k (f (or_empty (messages k w.cache))) w.cache

  -- An event that is not about a message of a conversation leaves the conversation's messages alone.
  pub other_conversations :
      (now : ℕ) (j : String) (e : RealtimeEvent) (w : World Cache)
      → concerns j e ≡ false
      → messages j (handle_event compare client now e w).cache ≡ messages j w.cache
  unfolding handle_event
  other_conversations now j (RealtimeEvent.message_created m) w h =
      messages-invalidate j conversations _ ∙ (messages-update j _ _ w ∙ rw h refl)
  other_conversations now j (RealtimeEvent.message_updated m) w h =
      messages-update j _ _ w ∙ rw h refl
  other_conversations now j (RealtimeEvent.message_deleted id c) w h =
      messages-invalidate j conversations _ ∙ (messages-update j _ _ w ∙ rw h refl)
  other_conversations now j (RealtimeEvent.message_reaction_added id c u emoji) w h =
      messages-update j _ _ w ∙ rw h refl
  other_conversations now j (RealtimeEvent.message_reaction_removed id c u emoji) w h =
      messages-update j _ _ w ∙ rw h refl
  other_conversations now j (RealtimeEvent.message_read id u c r) w h =
      messages-invalidate j conversations _
  other_conversations now j (RealtimeEvent.server_member_added s u) w h =
      messages-invalidate j conversations _ ∙ messages-invalidate j servers _
  other_conversations now j (RealtimeEvent.server_channel_created ch) w h =
      messages-invalidate j conversations _ ∙ messages-invalidate j servers _
  other_conversations now j (RealtimeEvent.server_member_removed s u) w h =
      messages-invalidate j servers _
  other_conversations now j (RealtimeEvent.server_member_role_changed s u) w h =
      messages-invalidate j servers _
  other_conversations now j (RealtimeEvent.server_channel_deleted s c) w h =
      messages-invalidate j servers _
  other_conversations now j (RealtimeEvent.server_channels_reordered s) w h =
      messages-invalidate j servers _
  other_conversations now j (RealtimeEvent.server_deleted s) w h = messages-invalidate j servers _
  other_conversations now j (RealtimeEvent.server_updated s) w h = messages-invalidate j servers _
  other_conversations now j (RealtimeEvent.server_role_changed s) w h =
      messages-invalidate j servers _
  other_conversations now j (RealtimeEvent.typing_started u c) w h = refl
  other_conversations now j (RealtimeEvent.typing_stopped u c) w h = refl
  other_conversations now j (RealtimeEvent.user_online u) w h = refl
  other_conversations now j (RealtimeEvent.user_offline u) w h = refl
  other_conversations now j (RealtimeEvent.presence_snapshot ids) w h = refl
  other_conversations now j (RealtimeEvent.call_created c u) w h = refl
  other_conversations now j (RealtimeEvent.call_joined c u ps) w h = refl
  other_conversations now j (RealtimeEvent.call_left c u ps) w h = refl
  other_conversations now j (RealtimeEvent.call_ended c) w h = refl
  other_conversations now j (RealtimeEvent.webrtc_offer c u sdp) w h = refl
  other_conversations now j (RealtimeEvent.webrtc_answer c u sdp) w h = refl
  other_conversations now j (RealtimeEvent.webrtc_ice_candidate c u ca) w h = refl

  pub created-messages :
      (now : ℕ) (m : Message) (w : World Cache)
      → messages m.conversation_id
          (handle_event compare client now (RealtimeEvent.message_created m) w).cache
        ≡ some
            (insert_or_reconcile_message compare (or_empty (messages m.conversation_id w.cache)) m)
  unfolding handle_event
  created-messages now m w =
      messages-invalidate m.conversation_id conversations _
      ∙ (messages-update m.conversation_id m.conversation_id _ w ∙ ground arith)

  -- If `localeCompare` orders the texts and the cached ids of the conversation are distinct, then an
  -- event for a new message that is delivered twice leaves the conversation's messages as the first
  -- delivery does.
  pub created_twice :
      (now later : ℕ) (m : Message) (w : World Cache)
      → IsCollation compare
      → DistinctIds (or_empty (messages m.conversation_id w.cache))
      → let e = RealtimeEvent.message_created m in
        let w' = handle_event compare client now e w in
        messages m.conversation_id (handle_event compare client later e w').cache
        ≡ messages m.conversation_id w'.cache
  created_twice now later m w c d =
      created-messages later m _
      ∙ (rw (created-messages now m w) (ap some (reconcile_twice compare _ m c d)))
