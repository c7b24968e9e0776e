-- ===== src/Sending.antt =====
-- frontend/src/hooks/useSendMessage.ts, useEditMessage.ts, useDeleteMessage.ts and useToggleReaction.ts: what
-- they do to the cached messages of one conversation, the requests that they make and the toasts. The host
-- calls the on_ functions with the server's answers.
pub mod Answered
pub mod Toggled
pub mod Tests
use Prim.Native.Nat.{Ordering}
use bu3li_comms.Prelude.{
  ℕ, String, Bool, true, false, if◌then◌else◌, Option, none, some, List, [], ◌∷◌, ◌++◌,
}
use bu3li_comms.Message.{Message, ChatMessage, pending}
use bu3li_comms.MessageCache.{
  insert_or_reconcile_message, replace_if_newer, remove_by_id, mark_failed, mark_retrying,
  add_reaction_local, remove_reaction_local,
}
use bu3li_comms.Stores.{ToastStore, push, info, error, or_empty}

pub data Request : Type 0 where
  send_message : (client_message_id content : String) → Request
  edit_message : (message_id content : String) → (version : ℕ) → Request
  delete_message : (message_id : String) → Request
  add_reaction remove_reaction : (message_id emoji : String) → Request

-- What the hooks of the conversation see and change: the user, if known, the query of the conversation's
-- messages with its data, and the requests made.
pub record Conversation : Type 0 where
  pub id : String
  pub me : Option String
  pub cached : Option (List ChatMessage)
  pub is_outdated : Bool
  pub requests : List Request
  pub toasts : ToastStore

-- `queryClient.setQueryData(queryKey, (old = []) => f(old))`
abbrev pub update : (List ChatMessage → List ChatMessage) → Conversation → Conversation
update f c = record c { cached = some (f (or_empty c.cached)) }

abbrev pub request : Request → Conversation → Conversation
request r c = record c { requests = c.requests ++ r ∷ [] }

abbrev pub outdate : Conversation → Conversation
outdate c = record c { is_outdated = true }

-- the optimistic message; `client_message_id` is the new UUID, `now` the time as a text
abbrev pub pending_message : String → String → String → String → String → ChatMessage
pending_message conversation_id user client_message_id now content = record {
  message = record {
    id = client_message_id;
    conversation_id = conversation_id;
    sender_id = user;
    client_message_id = client_message_id;
    content = content;
    version = 1;
    created_at = now;
    updated_at = now;
    has_attachment = false;
    attachment_kind = none;
    attachment_duration_ms = 0;
    attachment_width_px = 0;
    attachment_height_px = 0;
    reactions = [];
  };
  status = pending;
}

unfoldable pub send_text : String → String → String → Conversation → Conversation
send_text client_message_id now content c = elim c.me [
  | none ↦ c
  | some user ↦
      request (send_message client_message_id content)
        (update (λ old. old ++ pending_message c.id user client_message_id now content ∷ []) c)
]

unfoldable pub retry : ChatMessage → Conversation → Conversation
retry m c =
    request (send_message m.client_message_id m.content)
      (update (λ old. mark_retrying old m.client_message_id) c)

unfoldable pub on_sent : (String → String → Ordering) → Message → Conversation → Conversation
on_sent compare m c = update (λ old. insert_or_reconcile_message compare old m) c

unfoldable pub on_send_error : String → Conversation → Conversation
on_send_error client_message_id c = update (λ old. mark_failed old client_message_id) c

unfoldable pub edit : String → String → ℕ → Conversation → Conversation
edit message_id content version = request (edit_message message_id content version)

unfoldable pub on_edited : Message → Conversation → Conversation
on_edited m c = update (λ old. replace_if_newer old m) c

unfoldable pub on_edit_error : ℕ → String → Bool → Conversation → Conversation
on_edit_error now id is_conflict c =
    if is_conflict
    then outdate (record c {
      toasts = push now id "This message changed elsewhere. Latest version loaded." info c.toasts;
    })
    else record c { toasts = push now id "Couldn't save that edit. Try again." error c.toasts }

unfoldable pub delete_one : String → Conversation → Conversation
delete_one message_id = request (delete_message message_id)

unfoldable pub on_deleted : String → Conversation → Conversation
on_deleted message_id c = update (λ old. remove_by_id old message_id) c

unfoldable pub on_delete_error : ℕ → String → Conversation → Conversation
on_delete_error now id c = record c {
  toasts = push now id "Couldn't delete that message. Try again." error c.toasts;
}

-- `onMutate`, then `mutationFn`
unfoldable pub toggle_reaction : String → String → Bool → Conversation → Conversation
toggle_reaction message_id emoji is_active c =
    request (if is_active then remove_reaction message_id emoji else add_reaction message_id emoji)
      (elim c.me [
        | none ↦ c
        | some user ↦
            update
              (λ old.
                if is_active
                then remove_reaction_local old message_id user emoji
                else add_reaction_local old message_id user emoji)
              c
      ])

unfoldable pub on_toggle_error : ℕ → String → Conversation → Conversation
on_toggle_error now id c =
    outdate
      (record c { toasts = push now id "Couldn't update that reaction. Try again." error c.toasts })
