-- ===== src/Stores.antt =====
-- frontend/src/stores: presence, read receipts, voice channels and toasts. A store is a record, and each
-- action returns the new one. The stores of calls and of typing users have modules of their own.
pub mod Laws
pub mod Tests
use bu3li_comms.Prelude.{
  ℕ, ◌+◌, leb, ltb, String, Bool, true, false, not, ◌==◌, if◌then◌else◌, Option, none, some, List,
  [], ◌∷◌, ◌++◌, filter, includes, Dict, get, put, del, set_add, set_delete,
}

-- presenceStore.ts
pub record PresenceStore : Type 0 where
  pub online : List String

unfoldable pub set_online : String → Bool → PresenceStore → PresenceStore
set_online user_id is_online s = record s {
  online = if is_online then set_add user_id s.online else set_delete user_id s.online;
}

-- an empty id is falsy, as is `undefined`
unfoldable pub is_online : Option String → PresenceStore → Bool
is_online none s = false
is_online (some user_id) s = if user_id == "" then false else includes user_id s.online

-- the loop of "presence.snapshot" in hooks/useRealtime.ts
unfoldable pub set_all_online : List String → PresenceStore → PresenceStore
set_all_online [] s = s
set_all_online (user_id ∷ ids) s = set_all_online ids (set_online user_id true s)

-- readReceiptsStore.ts: conversation, then reader, then the last message that was read
pub record ReadReceiptsStore : Type 0 where
  pub last_read_by_conversation : Dict (Dict String)

abbrev pub or_empty {ℓ} : {A : Type ℓ} → Option (List A) → List A
or_empty none = []
or_empty (some xs) = xs

unfoldable pub set_last_read : String → String → String → ReadReceiptsStore → ReadReceiptsStore
set_last_read conversation_id user_id message_id s = record s {
  last_read_by_conversation =
      put conversation_id
        (put user_id message_id (or_empty (get conversation_id s.last_read_by_conversation)))
        s.last_read_by_conversation;
}

-- voiceChannelStore.ts
pub record VoiceChannelStore : Type 0 where
  pub participants_by_conversation : Dict (List String)

unfoldable pub set_voice_participants : String → List String → VoiceChannelStore → VoiceChannelStore
set_voice_participants conversation_id participant_ids s = record s {
  participants_by_conversation = put conversation_id participant_ids s.participants_by_conversation;
}

unfoldable pub clear_voice : String → VoiceChannelStore → VoiceChannelStore
clear_voice conversation_id s = record s {
  participants_by_conversation = del conversation_id s.participants_by_conversation;
}

unfoldable pub voice_participants : String → VoiceChannelStore → List String
voice_participants conversation_id s = or_empty (get conversation_id s.participants_by_conversation)

-- toastStore.ts: `crypto.randomUUID()` is an argument, the new id. The timeout of a toast is an entry of
-- `timers`, the ids that the host will still dismiss.
pub data ToastTone : Type 0 where
  info error success : ToastTone

pub record Toast : Type 0 where
  pub id : String
  pub text : String
  pub tone : ToastTone

pub record ToastStore : Type 0 where
  pub toasts : List Toast
  pub timers : List (ℕ × String)

abbrev pub toast_duration_ms : ℕ
toast_duration_ms = 5000

unfoldable pub push : ℕ → String → String → ToastTone → ToastStore → ToastStore
push now id text tone s = record s {
  toasts = s.toasts ++ record { id = id; text = text; tone = tone } ∷ [];
  timers = s.timers ++ (now + toast_duration_ms, id) ∷ [];
}

unfoldable pub dismiss : String → ToastStore → ToastStore
dismiss id s = record s { toasts = filter (λ t. not (t.id == id)) s.toasts }

-- the host: the timeouts that are due run in turn
dismiss_each : List (ℕ × String) → ToastStore → ToastStore
unfolding dismiss
dismiss_each [] s = s
dismiss_each ((due, id) ∷ ts) s = dismiss_each ts (dismiss id s)

unfoldable pub elapse : ℕ → ToastStore → ToastStore
unfolding dismiss_each
elapse now s =
    dismiss_each (filter (λ t. leb t.0 now) s.timers)
      (record s { timers = filter (λ t. ltb now t.0) s.timers })
