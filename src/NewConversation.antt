-- ===== src/NewConversation.antt =====
-- frontend/src/components/conversations/NewConversationDialog.tsx and the mutation that it runs, of
-- frontend/src/hooks/useConversationMutations.ts.
pub mod Selection
pub mod Starting
pub mod Tests
use bu3li_comms.Prelude.{
  ℕ, String, Bool, true, false, not, ◌==◌, if◌then◌else◌, Option, none, some, List, [], ◌∷◌, ◌++◌,
  map, any, filter,
}
use bu3li_comms.Stores.{ToastStore, push, error}
use bu3li_comms.Conversations.{ConversationType, direct, group}
use bu3li_comms.Http.{RequestInit, Fetched, Outcome, done, failed}
use bu3li_comms.Http.Endpoints.{
  Schemas, User, Conversation, create_conversation, add_conversation_member,
}

-- the state of `DialogContent`
pub record Dialog : Type 0 where
  pub conversation_type : ConversationType
  pub query : String
  pub selected : List User

abbrev pub opened : Dialog
opened = record { conversation_type = direct; query = ""; selected = [] }

abbrev pub select : ConversationType → User → List User → List User
select direct user selected = user ∷ []
select group user selected = selected ++ user ∷ []

abbrev pub is_selected : String → List User → Bool
is_selected id = any (λ u. u.id == id)

unfoldable pub toggle : User → Dialog → Dialog
toggle user d = record d {
  selected =
      if is_selected user.id d.selected
      then filter (λ u. not (u.id == user.id)) d.selected
      else select d.conversation_type user d.selected;
}

-- `prev.slice(0, 1)`
abbrev pub first_only : List User → List User
first_only [] = []
first_only (u ∷ us) = u ∷ []

abbrev pub keep_for : ConversationType → List User → List User
keep_for direct selected = first_only selected
keep_for group selected = selected

unfoldable pub change_type : ConversationType → Dialog → Dialog
change_type next d = record d { conversation_type = next; selected = keep_for next d.selected }

-- `handleSubmit`: what the mutation is called with, if it is called
unfoldable pub submit : Dialog → Option (ConversationType × List String)
submit d = elim d.selected [
  | [] ↦ none
  | u ∷ us ↦ some (d.conversation_type, map (λ x. x.id) (u ∷ us))
]

abbrev pub is_done : {A : Type 0} → Outcome A → Bool
is_done (done a) = true
is_done (failed failure) = false

-- A browser's answer that a later request may change is out of `fetch`'s reach, which is a function here.
module _ {Json : Type 0} (api_url : String) (fetch : String → RequestInit → Fetched Json)
    (schemas : Schemas Json) where
  -- `Promise.all`, as to whether it is fulfilled
  unfoldable pub add_members : String → List String → Bool
  add_members conversation_id [] = true
  add_members conversation_id (user_id ∷ user_ids) =
      let rest = add_members conversation_id user_ids in
      if is_done (add_conversation_member api_url fetch schemas conversation_id user_id)
      then rest
      else false

  -- `mutationFn`; its callers do not look at the error
  unfoldable pub start_conversation : ConversationType → List String → Option Conversation
  start_conversation conversation_type member_ids =
      elim (create_conversation api_url fetch schemas conversation_type) [
        | failed failure ↦ none
        | done conversation ↦
            if add_members conversation.id member_ids then some conversation else none
      ]

-- The query of the conversations, the toasts, and the page that is navigated to.
pub record Started : Type 0 where
  pub is_outdated : Bool
  pub toasts : ToastStore
  pub is_open : Bool
  pub conversation : Option String

unfoldable pub on_started : ℕ → String → Option Conversation → Started → Started
on_started now toast_id none s = record s {
  toasts = push now toast_id "Couldn't start that conversation. Try again." error s.toasts;
}
on_started now toast_id (some conversation) s = record s {
  is_outdated = true;
  is_open = false;
  conversation = some conversation.id;
}
