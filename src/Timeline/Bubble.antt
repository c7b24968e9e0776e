-- ===== src/Timeline/Bubble.antt =====
-- frontend/src/components/messages/MessageBubble.tsx: editing a message, and what a message offers.
use bu3li_comms.Prelude.{
  String, Bool, true, false, not, ◌&&◌, ◌==◌, if◌then◌else◌, ◌≡◌, ◌↔◌, Option, none, some, List, [],
  ◌∷◌, ◌++◌, In, arith,
}
use bu3li_comms.Message.{MessageStatus, pending, sent, failed}

-- the component's state
pub record Bubble : Type 0 where
  pub is_editing : Bool
  pub draft : String
  pub confirming_delete : Bool

abbrev pub mounted : String → Bubble
mounted content = record { is_editing = false; draft = content; confirming_delete = false }

unfoldable pub start_edit : Bubble → Bubble
start_edit s = record s { is_editing = true }

unfoldable pub change_draft : String → Bubble → Bubble
change_draft draft s = record s { draft = draft }

unfoldable pub cancel_edit : String → Bubble → Bubble
cancel_edit content s = record s { is_editing = false; draft = content }

module _ (trim : String → String) where
  -- the new content, if `onEdit` is called, and the state
  unfoldable pub submit_edit : String → Bubble → Option String × Bubble
  submit_edit content s = (
    if not (trim s.draft == "") && not (trim s.draft == content) then some (trim s.draft) else none,
    record s { is_editing = false },
  )

  unfoldable pub edit_key_down : String → String → Bool → Bubble → Option String × Bubble
  unfolding submit_edit cancel_edit
  edit_key_down content key has_shift s =
      if key == "Enter" && not has_shift
      then submit_edit content s
      else if key == "Escape"
      then (none, cancel_edit content s)
      else (none, s)

  -- What the server is asked for is an edit: the text has words, and it is another text than the message's.
  pub submit_edit_lem :
      (content new : String) (s : Bubble)
      → ((submit_edit content s).0 ≡ some new)
        ↔ ((new ≡ trim s.draft) × ((new == "") ≡ false) × ((new == content) ≡ false))
  unfolding submit_edit
  submit_edit_lem content new s = ground arith

-- What a message shows below its text, from left to right.
pub data Control : Type 0 where
  reaction_bar sending failed_to_send retry time edited read edit confirm_delete delete_yes
        delete_no delete :
      Control

abbrev pub edit_controls :
    (is_own is_editing has_attachment confirming_delete : Bool) → List Control
edit_controls is_own is_editing has_attachment confirming_delete =
    if is_own && not is_editing
    then (if has_attachment then [] else edit ∷ [])
      ++ (if confirming_delete then confirm_delete ∷ delete_yes ∷ delete_no ∷ [] else delete ∷ [])
    else []

unfoldable pub controls :
    MessageStatus
    → (was_edited is_read is_own is_editing has_attachment confirming_delete : Bool) → List Control
controls pending was_edited is_read is_own is_editing has_attachment confirming_delete =
    sending ∷ []
controls failed was_edited is_read is_own is_editing has_attachment confirming_delete =
    failed_to_send ∷ retry ∷ []
controls sent was_edited is_read is_own is_editing has_attachment confirming_delete =
    reaction_bar
    ∷ time
    ∷ ((if was_edited then edited ∷ [] else [])
        ++ ((if is_own && is_read then read ∷ [] else [])
            ++ edit_controls is_own is_editing has_attachment confirming_delete))

-- A message may be sent again exactly if it failed; it may be reacted to exactly if the server has it; and
-- only the user's own messages that the server has may be edited, those without an attachment, or deleted.
pub controls_lem :
    (status : MessageStatus)
    (was_edited is_read is_own is_editing has_attachment confirming_delete : Bool)
    → (In retry
          (controls status was_edited is_read is_own is_editing has_attachment confirming_delete)
        ↔ (status ≡ failed))
      × (In reaction_bar
            (controls status was_edited is_read is_own is_editing has_attachment confirming_delete)
          ↔ (status ≡ sent))
      × (In edit
            (controls status was_edited is_read is_own is_editing has_attachment confirming_delete)
          ↔ ((status ≡ sent) × (is_own ≡ true) × (is_editing ≡ false) × (has_attachment ≡ false)))
      × (In delete_yes
            (controls status was_edited is_read is_own is_editing has_attachment confirming_delete)
          ↔ ((status ≡ sent) × (is_own ≡ true) × (is_editing ≡ false) × (confirming_delete ≡ true)))
unfolding controls
controls_lem status was_edited is_read is_own is_editing has_attachment confirming_delete =
    ground arith
