-- ===== src/Realtime.antt =====
-- frontend/src/hooks/useRealtime.ts: what the application does with the events and the statuses of the
-- connection. TanStack Query's client is a parameter, `QueryClient`; `localeCompare` is one too.
pub mod Messages
pub mod Refresh
pub mod Online
pub mod Received
pub mod Tests
use Prim.Native.Nat.{Ordering}
use bu3li_comms.Prelude.{
  ℕ, String, Bool, true, false, ◌==◌, ◌||◌, if◌then◌else◌, ◌≡◌, Option, none, some, List, [], ◌∷◌,
}
use bu3li_comms.Message.{ChatMessage}
use bu3li_comms.MessageCache.{
  insert_or_reconcile_message, replace_if_newer, remove_by_id, add_reaction_local,
  remove_reaction_local,
}
use bu3li_comms.Stores.{
  PresenceStore, set_online, set_all_online, ReadReceiptsStore, set_last_read, VoiceChannelStore,
  set_voice_participants, clear_voice, ToastStore, push, success, or_empty,
}
use bu3li_comms.Typing.{TypingStore, set_typing}
use bu3li_comms.Socket.{ConnectionStatus, connecting, connected, reconnecting, disconnected}
use bu3li_comms.Calls.{CallManager}
use bu3li_comms.Calls.Handlers.{
  handle_call_created, handle_call_joined, handle_call_left, handle_call_ended, handle_offer,
  handle_answer, handle_ice_candidate,
}
use bu3li_comms.RealtimeEvent.{RealtimeEvent}

-- The queries that the events refresh, beside those of messages.
pub data ListQuery : Type 0 where
  conversations servers : ListQuery

abbrev pub same_query : ListQuery → ListQuery → Bool
same_query conversations conversations = true
same_query servers servers = true
same_query _ _ = false

-- TanStack Query's client: the messages cached under a conversation's key, and which lists are to be
-- fetched again. Invalidating a query keeps its data.
pub record QueryClient : Type 1 where
  pub Cache : Type 0
  pub messages : String → Cache → Option (List ChatMessage)
  pub set_messages : String → List ChatMessage → Cache → Cache
  pub invalidate : ListQuery → Cache → Cache
  pub is_stale : ListQuery → Cache → Bool
  pub messages-set :
      (j k : String) (ms : List ChatMessage) (c : Cache)
      → messages j (set_messages k ms c) ≡ (if k == j then some ms else messages j c)
  pub messages-invalidate :
      (j : String) (q : ListQuery) (c : Cache) → messages j (invalidate q c) ≡ messages j c
  pub stale-set :
      (q : ListQuery) (k : String) (ms : List ChatMessage) (c : Cache)
      → is_stale q (set_messages k ms c) ≡ is_stale q c
  pub stale-invalidate :
      (q r : ListQuery) (c : Cache) → is_stale q (invalidate r c) ≡ (same_query q r || is_stale q c)

-- The state that the events change. `was_disrupted` is the hook's ref.
pub record World (Cache : Type 0) : Type 0 where
  pub cache : Cache
  pub presence : PresenceStore
  pub typing : TypingStore
  pub receipts : ReadReceiptsStore
  pub voice : VoiceChannelStore
  pub calls : CallManager
  pub toasts : ToastStore
  pub connection : ConnectionStatus
  pub was_disrupted : Bool

module _ (compare : String → String → Ordering) (client : QueryClient) where
  open client use {Cache, messages, set_messages, invalidate}

  -- `queryClient.setQueryData(messagesQueryKey(id), (old = []) => f(old))`
  unfoldable pub update_messages :
      String → (List ChatMessage → List ChatMessage) → World Cache → World Cache
  update_messages id f w = record w {
    cache = set_messages id (f (or_empty (messages id w.cache))) w.cache;
  }

  abbrev pub refresh : ListQuery → World Cache → World Cache
  refresh q w = record w { cache = invalidate q w.cache }

  unfoldable pub handle_event : ℕ → RealtimeEvent → World Cache → World Cache
  handle_event now (RealtimeEvent.message_created m) w =
      refresh conversations
        (update_messages m.conversation_id (λ old. insert_or_reconcile_message compare old m) w)
  handle_event now (RealtimeEvent.message_updated m) w =
      update_messages m.conversation_id (λ old. replace_if_newer old m) w
  handle_event now (RealtimeEvent.message_deleted id c) w =
      refresh conversations (update_messages c (λ old. remove_by_id old id) w)
  handle_event now (RealtimeEvent.typing_started u c) w = record w {
    typing = set_typing now c u true w.typing;
  }
  handle_event now (RealtimeEvent.typing_stopped u c) w = record w {
    typing = set_typing now c u false w.typing;
  }
  handle_event now (RealtimeEvent.user_online u) w = record w {
    presence = set_online u true w.presence;
  }
  handle_event now (RealtimeEvent.user_offline u) w = record w {
    presence = set_online u false w.presence;
  }
  handle_event now (RealtimeEvent.message_read id u c read_at) w =
      refresh conversations (record w { receipts = set_last_read c u id w.receipts })
  handle_event now (RealtimeEvent.message_reaction_added id c u emoji) w =
      update_messages c (λ old. add_reaction_local old id u emoji) w
  handle_event now (RealtimeEvent.message_reaction_removed id c u emoji) w =
      update_messages c (λ old. remove_reaction_local old id u emoji) w
  handle_event now (RealtimeEvent.presence_snapshot ids) w = record w {
    presence = set_all_online ids w.presence;
  }
  handle_event now (RealtimeEvent.call_created c u) w = record w {
    calls = handle_call_created c u w.calls;
  }
  handle_event now (RealtimeEvent.call_joined c u ps) w = record w {
    calls = handle_call_joined c ps w.calls;
    voice = set_voice_participants c ps w.voice;
  }
  handle_event now (RealtimeEvent.call_left c u ps) w = record w {
    calls = handle_call_left c u ps w.calls;
    voice = set_voice_participants c ps w.voice;
  }
  handle_event now (RealtimeEvent.call_ended c) w = record w {
    calls = handle_call_ended c w.calls;
    voice = clear_voice c w.voice;
  }
  handle_event now (RealtimeEvent.webrtc_offer c u sdp) w = record w {
    calls = handle_offer c u sdp w.calls;
  }
  handle_event now (RealtimeEvent.webrtc_answer c u sdp) w = record w {
    calls = handle_answer c u sdp w.calls;
  }
  handle_event now (RealtimeEvent.webrtc_ice_candidate c u candidate) w = record w {
    calls = handle_ice_candidate c u candidate w.calls;
  }
  handle_event now (RealtimeEvent.server_member_added s u) w =
      refresh conversations (refresh servers w)
  handle_event now (RealtimeEvent.server_channel_created channel) w =
      refresh conversations (refresh servers w)
  handle_event now (RealtimeEvent.server_member_removed s u) w = refresh servers w
  handle_event now (RealtimeEvent.server_member_role_changed s u) w = refresh servers w
  handle_event now (RealtimeEvent.server_channel_deleted s c) w = refresh servers w
  handle_event now (RealtimeEvent.server_channels_reordered s) w = refresh servers w
  handle_event now (RealtimeEvent.server_deleted s) w = refresh servers w
  handle_event now (RealtimeEvent.server_updated s) w = refresh servers w
  handle_event now (RealtimeEvent.server_role_changed s) w = refresh servers w

-- `handleStatus`; `id` is the new toast's id
unfoldable pub handle_status :
    {Cache : Type 0} → ℕ → String → ConnectionStatus → World Cache → World Cache
handle_status now id reconnecting w = record w { was_disrupted = true; connection = reconnecting }
handle_status now id disconnected w = record w { was_disrupted = true; connection = disconnected }
handle_status now id connected w =
    if w.was_disrupted
    then record w {
      was_disrupted = false;
      toasts = push now id "Back online." success w.toasts;
      connection = connected;
    }
    else record w { connection = connected }
handle_status now id connecting w = record w { connection = connecting }
