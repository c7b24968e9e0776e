-- ===== src/Conversations.antt =====
-- frontend/src/types/conversation.ts, frontend/src/lib/conversation.ts and
-- frontend/src/hooks/useUserDirectory.ts: conversations, their members, and the users that the client knows.
pub mod Directory
pub mod Tests
use Prim.Native.String.{◌++◌ as join_text}
use bu3li_comms.Prelude.{
  ℕ, String, Bool, true, false, not, ◌==◌, if◌then◌else◌, Option, none, some, List, [], ◌∷◌, map,
  filter, Dict, put,
}
use bu3li_comms.Message.{AttachmentKind}
use bu3li_comms.Server.{ServerMember, ServerSummary}
use bu3li_comms.Stores.{or_empty}

pub data ConversationType : Type 0 where
  direct group : ConversationType

pub record Member : Type 0 where
  pub id : String
  pub username : String
  pub has_avatar : Bool

pub record LastMessage : Type 0 where
  pub id : String
  pub sender_id : String
  pub content : String
  pub has_attachment : Bool
  pub attachment_kind : Option AttachmentKind
  pub created_at : String

pub record ConversationSummary : Type 0 where
  pub id : String
  pub conversation_type : ConversationType
  pub members : List Member
  pub last_message : Option LastMessage
  pub unread_count : ℕ

unfoldable pub other_members : ConversationSummary → String → List Member
other_members conversation current_user_id =
    filter (λ m. not (m.id == current_user_id)) conversation.members

-- `names.join(", ")`
unfoldable pub join_names : List String → String
join_names [] = ""
join_names (name ∷ []) = name
join_names (name ∷ other ∷ names) = join_text name (join_text ", " (join_names (other ∷ names)))

unfoldable pub conversation_display_name : ConversationSummary → String → String
conversation_display_name conversation current_user_id =
    elim (other_members conversation current_user_id) [
      | [] ↦ "Just you"
      | m ∷ ms ↦ join_names (map (λ x. x.username) (m ∷ ms))
    ]

abbrev pub first_of : List Member → Option Member
first_of [] = none
first_of (m ∷ ms) = some m

unfoldable pub direct_peer : ConversationSummary → String → Option Member
direct_peer conversation current_user_id = elim conversation.conversation_type [
  | group ↦ none
  | direct ↦ first_of (other_members conversation current_user_id)
]

pub record DirectoryEntry : Type 0 where
  pub username : String
  pub has_avatar : Bool

unfoldable pub add_members : List Member → Dict DirectoryEntry → Dict DirectoryEntry
add_members [] d = d
add_members (m ∷ ms) d =
    add_members ms (put m.id (record { username = m.username; has_avatar = m.has_avatar }) d)

unfoldable pub add_server_members : List ServerMember → Dict DirectoryEntry → Dict DirectoryEntry
add_server_members [] d = d
add_server_members (m ∷ ms) d =
    add_server_members ms
      (put m.user_id (record { username = m.username; has_avatar = m.has_avatar }) d)

unfoldable pub add_conversations :
    List ConversationSummary → Dict DirectoryEntry → Dict DirectoryEntry
add_conversations [] d = d
add_conversations (c ∷ cs) d = add_conversations cs (add_members c.members d)

unfoldable pub add_servers : List ServerSummary → Dict DirectoryEntry → Dict DirectoryEntry
add_servers [] d = d
add_servers (s ∷ ss) d = add_servers ss (add_server_members s.members d)

unfoldable pub user_directory :
    Option (List ConversationSummary) → Option (List ServerSummary) → Dict DirectoryEntry
user_directory conversations servers =
    add_servers (or_empty servers) (add_conversations (or_empty conversations) [])
