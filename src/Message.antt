-- ===== src/Message.antt =====
-- frontend/src/types/message.ts: a message as the server sends it, and the cached message, which
-- adds the state of its sending. `version` and the sizes are natural numbers.
use bu3li_comms.Prelude.{ℕ, Bool, String, List, Option}

pub data AttachmentKind : Type 0 where
  audio image video : AttachmentKind

pub record ReactionSummary : Type 0 where
  pub emoji : String
  pub user_ids : List String

pub record Message : Type 0 where
  pub id : String
  pub conversation_id : String
  pub sender_id : String
  pub client_message_id : String
  pub content : String
  pub version : ℕ
  pub created_at : String
  pub updated_at : String
  pub has_attachment : Bool
  pub attachment_kind : Option AttachmentKind
  pub attachment_duration_ms : ℕ
  pub attachment_width_px : ℕ
  pub attachment_height_px : ℕ
  pub reactions : List ReactionSummary

pub data MessageStatus : Type 0 where
  sent pending failed : MessageStatus

pub record ChatMessage : Type 0 where
  pub message : Message
  pub open message use *
  pub status : MessageStatus

unfoldable pub to_sent_message : Message → ChatMessage
to_sent_message m = record { message = m; status = sent }
