-- ===== src/Presentation.antt =====
-- What further components choose to show or to do: the conversation view and the list's items
-- (frontend/src/components/messages/ConversationView.tsx, frontend/src/components/conversations), names
-- (frontend/src/hooks/useDisplayName.ts, frontend/src/components/messages/TypingIndicator.tsx), the settings of a
-- server and the voice channel's bar. A number's text is `show`, the first code units of a text `take_units`,
-- and whether a text mentions a user `mentions_user`.
pub mod Access
pub mod Names
pub mod Reactions
pub mod Dialogs
pub mod Tests
use Prim.Native.String.{◌++◌ as join_text}
use bu3li_comms.Prelude.{
  ℕ, ltb, ◌-◌, String, Bool, true, false, not, ◌&&◌, ◌||◌, ◌==◌, if◌then◌else◌, Option, none, some,
  List, [], ◌∷◌, ◌++◌, length, find, Dict, get,
}
use bu3li_comms.Message.{ChatMessage, AttachmentKind, audio, image, video}
use bu3li_comms.Server.{ServerPermissions, ServerMember, ServerSummary}
use bu3li_comms.Conversations.{ConversationSummary, LastMessage, DirectoryEntry}
use bu3li_comms.Http.Endpoints.{User}
use bu3li_comms.Calls.{CallStatus, idle, outgoing, incoming, active}

pub record DisplayName : Type 0 where
  pub text : String
  pub is_known : Bool
  pub has_avatar : Bool

abbrev pub is_me : Option User → String → Bool
is_me none user_id = false
is_me (some me) user_id = user_id == me.id

abbrev pub avatar_of : Option User → Bool
avatar_of none = false
avatar_of (some me) = me.has_avatar

abbrev pub entry_name : (String → String) → String → Option DirectoryEntry → DisplayName
entry_name take_units user_id none = record {
  text = join_text "Unknown (" (join_text (take_units user_id) ")");
  is_known = false;
  has_avatar = false;
}
entry_name take_units user_id (some entry) = record {
  text = entry.username;
  is_known = true;
  has_avatar = entry.has_avatar;
}

-- `useDisplayName`; `take_units` gives the first eight code units
unfoldable pub display_name :
    (String → String) → Option User → Dict DirectoryEntry → String → DisplayName
display_name take_units me directory user_id =
    if is_me me user_id
    then record { text = "You"; is_known = true; has_avatar = avatar_of me }
    else entry_name take_units user_id (get user_id directory)

-- the text of `TypingIndicator`, `none` if nothing is shown
unfoldable pub typing_text : (ℕ → String) → (String → String) → List String → Option String
typing_text show name_of [] = none
typing_text show name_of (first ∷ []) = some (join_text (name_of first) " is typing…")
typing_text show name_of (first ∷ second ∷ others) = some (
    join_text (name_of first) (
      join_text " and " (
        join_text (show (length (second ∷ others))) (
          join_text (if ltb 2 (length (first ∷ second ∷ others)) then " others" else " other")
            " typing…"))))

abbrev pub attachment_label : Option AttachmentKind → String
attachment_label (some image) = "Photo"
attachment_label (some video) = "Video"
attachment_label _ = "Voice message"

-- `LastMessagePreview`
unfoldable pub last_message_preview : Option LastMessage → String → String
last_message_preview none current_user_id = "No messages yet"
last_message_preview (some last) current_user_id =
    join_text (if last.sender_id == current_user_id then "You: " else "")
      (if last.has_attachment then attachment_label last.attachment_kind else last.content)

pub data Badge : Type 0 where
  at_sign many : Badge
  count : ℕ → Badge

abbrev pub mentioned_in :
    (String → String → Bool) → Option User → String → Option LastMessage → Bool
mentioned_in mentions_user none current_user_id last = false
mentioned_in mentions_user (some me) current_user_id none = false
mentioned_in mentions_user (some me) current_user_id (some last) =
    not (last.sender_id == current_user_id) && mentions_user last.content me.username

-- the badge of unread messages
unfoldable pub unread_badge :
    (String → String → Bool) → Option User → String → ConversationSummary → Option Badge
unread_badge mentions_user me current_user_id conversation =
    if not (ltb 0 conversation.unread_count)
    then none
    else if mentioned_in mentions_user me current_user_id conversation.last_message
    then some at_sign
    else if ltb 99 conversation.unread_count
    then some many
    else some (count conversation.unread_count)

-- `onEdit` of the view: what the mutation of the edit is called with
unfoldable pub edit_of : List ChatMessage → String → String → Option (String × String × ℕ)
edit_of messages message_id content = elim (find (λ m. m.id == message_id) messages) [
  | none ↦ none
  | some m ↦ some (message_id, content, m.version)
]

pub data Section : Type 0 where
  overview roles members : Section

pub data SettingsView : Type 0 where
  loading : SettingsView
  goes_to : (path : String) → SettingsView
  sections : List Section → SettingsView

abbrev pub can_manage_anything : ServerPermissions → Bool
can_manage_anything p = p.manage_server || p.manage_roles || p.kick_members

abbrev pub settings_sections : ServerPermissions → List Section
settings_sections p =
    (if p.manage_server then overview ∷ [] else [])
    ++ ((if p.manage_roles then roles ∷ [] else [])
        ++ (if p.manage_roles || p.kick_members then members ∷ [] else []))

-- `ServerSettingsPage`, for a user who is known; `servers` is the query's data
unfoldable pub settings_view : Bool → Option (List ServerSummary) → String → SettingsView
settings_view is_loading servers server_id = if is_loading then loading else elim servers [
  | none ↦ goes_to "/chat"
  | some known ↦ elim (find (λ s. s.id == server_id) known) [
    | none ↦ goes_to "/chat"
    | some server ↦
        if can_manage_anything server.permissions
        then sections (settings_sections server.permissions)
        else goes_to (join_text "/servers/" server.id)
  ]
]

-- what the settings show beside a member's name
pub data MemberControl : Type 0 where
  owner_mark role_select role_name remove : MemberControl

unfoldable pub member_controls : ServerPermissions → String → ServerMember → List MemberControl
member_controls p current_user_id m =
    (if m.is_owner then owner_mark else if p.manage_roles then role_select else role_name)
    ∷ (if not m.is_owner && (p.kick_members && not (m.user_id == current_user_id))
        then remove ∷ []
        else [])

abbrev pub is_in_call : CallStatus → Bool
is_in_call idle = false
is_in_call incoming = false
is_in_call outgoing = true
is_in_call active = true

abbrev pub is_idle : CallStatus → Bool
is_idle idle = true
is_idle _ = false

abbrev pub is_call_in : Option String → String → Bool
is_call_in none conversation_id = false
is_call_in (some active_id) conversation_id = active_id == conversation_id

-- the button of `VoiceChannelBar`
pub data VoiceButton : Type 0 where
  leaves joins : VoiceButton
  joins_not : VoiceButton

unfoldable pub voice_button : CallStatus → Option String → String → VoiceButton
voice_button status active_id conversation_id =
    if is_call_in active_id conversation_id && is_in_call status
    then leaves
    else if not (is_idle status) && not (is_call_in active_id conversation_id)
    then joins_not
    else joins
