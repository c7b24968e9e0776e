-- ===== src/Realtime/Refresh.antt =====
-- Which lists the events of frontend/src/hooks/useRealtime.ts have fetched again.
use Prim.Native.Nat.{Ordering}
use bu3li_comms.Prelude.{ℕ, String, Bool, true, false, ◌||◌, ◌≡◌, refl, ◌∙◌, ap, List}
use bu3li_comms.Message.{ChatMessage}
use bu3li_comms.RealtimeEvent.{RealtimeEvent}
use bu3li_comms.Realtime.{
  QueryClient, World, ListQuery, conversations, servers, update_messages, handle_event, same_query,
}

-- The events after which a list is out of date.
abbrev pub outdates : ListQuery → RealtimeEvent → Bool
outdates q (RealtimeEvent.message_created m) = same_query q conversations
outdates q (RealtimeEvent.message_deleted id c) = same_query q conversations
outdates q (RealtimeEvent.message_read id u c r) = same_query q conversations
outdates q (RealtimeEvent.server_member_added s u) = true
outdates q (RealtimeEvent.server_channel_created ch) = true
outdates q (RealtimeEvent.server_member_removed s u) = same_query q servers
outdates q (RealtimeEvent.server_member_role_changed s u) = same_query q servers
outdates q (RealtimeEvent.server_channel_deleted s c) = same_query q servers
outdates q (RealtimeEvent.server_channels_reordered s) = same_query q servers
outdates q (RealtimeEvent.server_deleted s) = same_query q servers
outdates q (RealtimeEvent.server_updated s) = same_query q servers
outdates q (RealtimeEvent.server_role_changed s) = same_query q servers
outdates q e = false

module _ (compare : String → String → Ordering) (client : QueryClient) where
  open client use {Cache, is_stale, invalidate, stale-set, stale-invalidate}

  stale-update :
      (q : ListQuery) (k : String) (f : List ChatMessage → List ChatMessage) (w : World Cache)
      → is_stale q (update_messages compare client k f w).cache ≡ is_stale q w.cache
  unfolding update_messages
  stale-update q k f w = stale-set q k _ w.cache

  both_stale :
      (q : ListQuery) (w : World Cache)
      → is_stale q (invalidate conversations (invalidate servers w.cache)) ≡ true
  both_stale conversations w = stale-invalidate conversations conversations _
  both_stale servers w =
      stale-invalidate servers conversations _ ∙ stale-invalidate servers servers w.cache

  -- After an event a list is to be fetched again exactly if it was before or the event is one of those
  -- after which it is out of date.
  pub is_stale-handle_event :
      (now : ℕ) (q : ListQuery) (e : RealtimeEvent) (w : World Cache)
      → is_stale q (handle_event compare client now e w).cache
        ≡ (outdates q e || is_stale q w.cache)
  unfolding handle_event
  is_stale-handle_event now q (RealtimeEvent.message_created m) w =
      stale-invalidate q conversations _
      ∙ ap (λ b. same_query q conversations || b) (stale-update q _ _ w)
  is_stale-handle_event now q (RealtimeEvent.message_deleted id c) w =
      stale-invalidate q conversations _
      ∙ ap (λ b. same_query q conversations || b) (stale-update q _ _ w)
  is_stale-handle_event now q (RealtimeEvent.message_read id u c r) w =
      stale-invalidate q conversations _
  is_stale-handle_event now q (RealtimeEvent.server_member_added s u) w = both_stale q w
  is_stale-handle_event now q (RealtimeEvent.server_channel_created ch) w = both_stale q w
  is_stale-handle_event now q (RealtimeEvent.server_member_removed s u) w =
      stale-invalidate q servers _
  is_stale-handle_event now q (RealtimeEvent.server_member_role_changed s u) w =
      stale-invalidate q servers _
  is_stale-handle_event now q (RealtimeEvent.server_channel_deleted s c) w =
      stale-invalidate q servers _
  is_stale-handle_event now q (RealtimeEvent.server_channels_reordered s) w =
      stale-invalidate q servers _
  is_stale-handle_event now q (RealtimeEvent.server_deleted s) w = stale-invalidate q servers _
  is_stale-handle_event now q (RealtimeEvent.server_updated s) w = stale-invalidate q servers _
  is_stale-handle_event now q (RealtimeEvent.server_role_changed s) w = stale-invalidate q servers _
  is_stale-handle_event now q (RealtimeEvent.message_updated m) w = stale-update q _ _ w
  is_stale-handle_event now q (RealtimeEvent.message_reaction_added id c u emoji) w =
      stale-update q _ _ w
  is_stale-handle_event now q (RealtimeEvent.message_reaction_removed id c u emoji) w =
      stale-update q _ _ w
  is_stale-handle_event now q (RealtimeEvent.typing_started u c) w = refl
  is_stale-handle_event now q (RealtimeEvent.typing_stopped u c) w = refl
  is_stale-handle_event now q (RealtimeEvent.user_online u) w = refl
  is_stale-handle_event now q (RealtimeEvent.user_offline u) w = refl
  is_stale-handle_event now q (RealtimeEvent.presence_snapshot ids) w = refl
  is_stale-handle_event now q (RealtimeEvent.call_created c u) w = refl
  is_stale-handle_event now q (RealtimeEvent.call_joined c u ps) w = refl
  is_stale-handle_event now q (RealtimeEvent.call_left c u ps) w = refl
  is_stale-handle_event now q (RealtimeEvent.call_ended c) w = refl
  is_stale-handle_event now q (RealtimeEvent.webrtc_offer c u sdp) w = refl
  is_stale-handle_event now q (RealtimeEvent.webrtc_answer c u sdp) w = refl
  is_stale-handle_event now q (RealtimeEvent.webrtc_ice_candidate c u ca) w = refl
