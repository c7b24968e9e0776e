-- ===== src/Http/Endpoints.antt =====
-- frontend/src/api/messages.ts, auth.ts, users.ts and conversations.ts: the requests for messages, sessions,
-- users and conversations. zod's schemas are the parameter `schemas`, `encodeURIComponent` is `encode`,
-- `URLSearchParams.toString` is `search_params`, `String.trim` is `trim` and the text of a rounded number
-- is `rounded`; a duration or a size in pixels is of the parameter `Number`.
use Prim.Native.Nat.{Ordering}
use Prim.Native.String.{◌++◌ as join_text}
use bu3li_comms.Prelude.{
  ℕ, String, Bool, ◌==◌, if◌then◌else◌, Option, none, some, List, [], ◌∷◌, ◌++◌, map,
}
use bu3li_comms.Message.{Message, ChatMessage, to_sent_message}
use bu3li_comms.MessageCache.{is_not_gt}
use bu3li_comms.Conversations.{ConversationType, direct, group, ConversationSummary}
use bu3li_comms.Http.{
  Blob, get, post, patch, delete, text, number, RequestInit, Fetched, Outcome, done, then_read,
  request, api_fetch, api_fetch_void, api_upload, concat, binary, text_or,
}

-- frontend/src/types/user.ts
pub record User : Type 0 where
  pub id : String
  pub username : String
  pub email : String
  pub has_avatar : Bool

pub record Conversation : Type 0 where
  pub id : String
  pub conversation_type : ConversationType

-- the schemas that the answers are read with
pub record Schemas (Json : Type 0) : Type 0 where
  pub message : Json → Option Message
  pub message_list : Json → Option (List Message)
  pub user : Json → Option User
  pub user_list : Json → Option (List User)
  pub conversation : Json → Option Conversation
  pub conversation_list : Json → Option (List ConversationSummary)

abbrev pub type_text : ConversationType → String
type_text direct = "direct"
type_text group = "group"

module _ (compare : String → String → Ordering) where
  abbrev pub message_not_after : Message → Message → Bool
  message_not_after a b = is_not_gt (compare a.created_at b.created_at)

  unfoldable pub insert_message : Message → List Message → List Message
  insert_message m [] = m ∷ []
  insert_message m (x ∷ xs) = if message_not_after m x then m ∷ x ∷ xs else x ∷ insert_message m xs

  -- `[...messages].sort((a, b) => a.created_at.localeCompare(b.created_at))`
  unfoldable pub sort_messages : List Message → List Message
  sort_messages [] = []
  sort_messages (x ∷ xs) = insert_message x (sort_messages xs)

module _ {Json : Type 0} (api_url : String) (fetch : String → RequestInit → Fetched Json)
    (schemas : Schemas Json) where
  unfoldable pub list_messages : (String → String → Ordering) → String → Outcome (List Message)
  unfolding sort_messages insert_message
  list_messages compare conversation_id =
      then_read
        (api_fetch api_url fetch (concat ("/conversations/" ∷ conversation_id ∷ "/messages" ∷ []))
          schemas.message_list get none)
        (λ messages. done (sort_messages compare messages))

  -- `queryFn` of frontend/src/hooks/useMessages.ts
  unfoldable pub query_messages : (String → String → Ordering) → String → Outcome (List ChatMessage)
  unfolding list_messages
  query_messages compare conversation_id =
      then_read (list_messages compare conversation_id)
        (λ messages. done (map to_sent_message messages))

  unfoldable pub post_message : String → String → String → Outcome Message
  post_message conversation_id client_message_id content =
      api_fetch api_url fetch (concat ("/conversations/" ∷ conversation_id ∷ "/messages" ∷ []))
        schemas.message post
        (some (("client_message_id", text client_message_id) ∷ ("content", text content) ∷ []))

  unfoldable pub patch_message : String → String → ℕ → Outcome Message
  patch_message message_id content version =
      api_fetch api_url fetch (concat ("/messages/" ∷ message_id ∷ [])) schemas.message patch
        (some (("content", text content) ∷ ("version", number version) ∷ []))

  unfoldable pub delete_message : String → Outcome (Unit {0})
  delete_message message_id =
      api_fetch_void api_url fetch (concat ("/messages/" ∷ message_id ∷ [])) delete none

  module _ (search_params : List (String × String) → String) {Number : Type 0}
      (rounded : Number → String) where
    unfoldable pub send_voice_message : String → String → Number → Blob → Outcome Message
    send_voice_message conversation_id client_message_id duration_ms blob =
        let params =
          search_params (
            ("client_message_id", client_message_id) ∷ ("duration_ms", rounded duration_ms) ∷ []) in
        api_upload api_url fetch
          (concat ("/conversations/" ∷ conversation_id ∷ "/messages/voice?" ∷ params ∷ []))
          schemas.message blob (text_or (some blob.mime_type) "audio/webm")

    -- a parameter that is set if the number is given and is not 0
    abbrev pub optional_param : (Number → Bool) → String → Option Number → List (String × String)
    optional_param is_zero name none = []
    optional_param is_zero name (some n) = if is_zero n then [] else (name, rounded n) ∷ []

    unfoldable pub send_media_message :
        (Number → Bool)
        → String
        → String
        → Blob
        → (duration_ms width_px height_px : Option Number) → Outcome Message
    send_media_message is_zero conversation_id client_message_id blob duration_ms width_px
          height_px =
        let params = search_params (
          ("client_message_id", client_message_id)
          ∷ (optional_param is_zero "duration_ms" duration_ms
              ++ (optional_param is_zero "width_px" width_px
                  ++ optional_param is_zero "height_px" height_px))) in
        api_upload api_url fetch
          (concat ("/conversations/" ∷ conversation_id ∷ "/messages/media?" ∷ params ∷ []))
          schemas.message blob (text_or (some blob.mime_type) "application/octet-stream")

  unfoldable pub attachment_url : String → String
  attachment_url message_id = concat (api_url ∷ "/messages/" ∷ message_id ∷ "/attachment" ∷ [])

  unfoldable pub post_reaction : String → String → Outcome (Unit {0})
  post_reaction message_id emoji =
      api_fetch_void api_url fetch (concat ("/messages/" ∷ message_id ∷ "/reactions" ∷ [])) post
        (some (("emoji", text emoji) ∷ []))

  unfoldable pub delete_reaction : (String → String) → String → String → Outcome (Unit {0})
  delete_reaction encode message_id emoji =
      api_fetch_void api_url fetch
        (concat ("/messages/" ∷ message_id ∷ "/reactions/" ∷ encode emoji ∷ [])) delete none

  -- auth.ts
  unfoldable pub register : (username email password : String) → Outcome User
  register username email password = api_fetch api_url fetch "/users" schemas.user post (
      some (("username", text username) ∷ ("email", text email) ∷ ("password", text password) ∷ []))

  unfoldable pub login : (email password : String) → Outcome User
  login email password =
      api_fetch api_url fetch "/login" schemas.user post
        (some (("email", text email) ∷ ("password", text password) ∷ []))

  unfoldable pub logout : Outcome (Unit {0})
  logout = api_fetch_void api_url fetch "/logout" post none

  unfoldable pub get_me : Outcome User
  get_me = api_fetch api_url fetch "/me" schemas.user get none

  unfoldable pub update_profile : (username email : String) → Outcome User
  update_profile username email =
      api_fetch api_url fetch "/me" schemas.user patch
        (some (("username", text username) ∷ ("email", text email) ∷ []))

  unfoldable pub update_password : (current_password new_password : String) → Outcome (Unit {0})
  update_password current_password new_password =
      api_fetch_void api_url fetch "/me/password" patch (
        some
          (("current_password", text current_password) ∷ ("new_password", text new_password) ∷ []))

  -- users.ts
  unfoldable pub search_users : (String → String) → (String → String) → String → Outcome (List User)
  search_users trim encode query =
      let params : String =
        if trim query == "" then "" else join_text "?q=" (encode (trim query)) in
      api_fetch api_url fetch (concat ("/users" ∷ params ∷ [])) schemas.user_list get none

  unfoldable pub get_user : String → Outcome User
  get_user user_id =
      api_fetch api_url fetch (concat ("/users/" ∷ user_id ∷ [])) schemas.user get none

  unfoldable pub avatar_url : String → String
  avatar_url user_id = concat (api_url ∷ "/users/" ∷ user_id ∷ "/avatar" ∷ [])

  unfoldable pub upload_avatar : Blob → Outcome (Unit {0})
  upload_avatar blob =
      then_read
        (request api_url fetch "/me/avatar" (record {
          method = post;
          content_type = some (text_or (some blob.mime_type) "image/png");
          body = binary blob;
        }))
        (λ r. done tt)

  unfoldable pub delete_avatar : Outcome (Unit {0})
  delete_avatar = api_fetch_void api_url fetch "/me/avatar" delete none

  -- conversations.ts
  unfoldable pub list_conversations : Outcome (List ConversationSummary)
  list_conversations = api_fetch api_url fetch "/conversations" schemas.conversation_list get none

  unfoldable pub create_conversation : ConversationType → Outcome Conversation
  create_conversation conversation_type =
      api_fetch api_url fetch "/conversations" schemas.conversation post
        (some (("type", text (type_text conversation_type)) ∷ []))

  unfoldable pub add_conversation_member : String → String → Outcome (Unit {0})
  add_conversation_member conversation_id user_id =
      api_fetch_void api_url fetch (concat ("/conversations/" ∷ conversation_id ∷ "/members" ∷ []))
        post (some (("user_id", text user_id) ∷ []))
