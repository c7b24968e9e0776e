-- ===== src/NewConversation/Tests.antt =====
-- The dialog of frontend/src/components/conversations/NewConversationDialog.tsx on concrete users.
use bu3li_comms.Prelude.{
  ℕ, String, true, false, String-discrete, ◌≡◌, refl, none, some, List, [], ◌∷◌,
}
use bu3li_comms.Conversations.{direct, group}
use bu3li_comms.Http.{RequestInit, Fetched, answered}
use bu3li_comms.Http.Endpoints.{User, Schemas, Conversation}
use bu3li_comms.NewConversation.{opened, toggle, change_type, submit}
use bu3li_comms.NewConversation.Selection.{
  DialogEvent, toggled, type_changed, handle_all, CanStart, submit-handle_all,
}

abbrev user_of : String → User
user_of id = record { id = id; username = id; email = ""; has_avatar = false }

-- A group of two is made a direct message.
abbrev clicks : List DialogEvent
clicks =
    type_changed group ∷ toggled (user_of "a") ∷ toggled (user_of "b") ∷ type_changed direct ∷ []

submitted : submit (handle_all clicks opened) ≡ some (direct, "a" ∷ [])
unfolding submit toggle change_type String-discrete
submitted = refl

submit-handle_all_example : CanStart direct ("a" ∷ [])
submit-handle_all_example = submit-handle_all clicks direct ("a" ∷ []) submitted

-- A server that answers every request with the conversation "c1".
abbrev accepting : String → RequestInit → Fetched ℕ
accepting url init =
    answered (record { is_ok = true; status = 200; status_text = "OK"; text = none; json = some 1 })

abbrev created : Conversation
created = record { id = "c1"; conversation_type = direct }

abbrev one_conversation : Schemas ℕ
one_conversation = record {
  message = λ n. none;
  message_list = λ n. none;
  user = λ n. none;
  user_list = λ n. none;
  conversation = λ n. some created;
  conversation_list = λ n. none;
}
