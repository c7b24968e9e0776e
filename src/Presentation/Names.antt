-- ===== src/Presentation/Names.antt =====
-- The names that frontend/src/hooks/useDisplayName.ts gives, and the edits that
-- frontend/src/components/messages/ConversationView.tsx asks for.
use bu3li_comms.Prelude.{
  ℕ, String, ◌||◌, ◌==◌, ◌≡◌, sym, ap, ◌∙◌, Option, some, List, [], ◌∷◌, In, find, Dict, arith,
  Bool-cases, Option-cases, inl, inr,
}
use bu3li_comms.Message.{ChatMessage}
use bu3li_comms.Stores.{or_empty}
use bu3li_comms.Server.{ServerSummary}
use bu3li_comms.Conversations.{DirectoryEntry, ConversationSummary, user_directory}
use bu3li_comms.Conversations.Directory.{
  is_known, is_member, is_server_member, is_known-user_directory,
}
use bu3li_comms.Http.Endpoints.{User}
use bu3li_comms.Presentation.{is_me, display_name, edit_of}

known_of_entry :
    (take_units : String → String) (me : Option User) (directory : Dict DirectoryEntry)
    (user_id : String)
    → (display_name take_units me directory user_id).is_known
      ≡ (is_me me user_id || is_known user_id directory)
unfolding display_name
known_of_entry take_units me directory user_id = ground arith

-- A user has a name that is known exactly if it is the user of the client, or a member of one of the
-- servers or of one of the conversations that are loaded.
pub is_known-display_name :
    (take_units : String → String) (me : Option User) (cs : Option (List ConversationSummary))
    (ss : Option (List ServerSummary)) (user_id : String)
    → (display_name take_units me (user_directory cs ss) user_id).is_known ≡ (
        is_me me user_id
        || (is_server_member user_id (or_empty ss) || is_member user_id (or_empty cs)))
is_known-display_name take_units me cs ss user_id =
    known_of_entry take_units me (user_directory cs ss) user_id
    ∙ ap (λ b. is_me me user_id || b) (is_known-user_directory user_id cs ss)

find_cases :
    (id : String) (ms : List ChatMessage) (m : ChatMessage)
    → find (λ x. x.id == id) ms ≡ some m
    → In m ms × (m.id ≡ id)
find_cases id [] m h = absurd (ground arith)
find_cases id (x ∷ ms) m h = elim (Bool-cases (x.id == id)) [
  | inl e ↦ let same : x ≡ m = ground arith in (inl (sym same), ground (arith, same, e))
  | inr e ↦ let (i, k) = find_cases id ms m (ground arith) in (inr i, k)
]

-- An edit is asked for only of a message that is cached, with the version that is cached.
pub edit_of-some :
    (ms : List ChatMessage) (message_id content id new : String) (version : ℕ)
    → edit_of ms message_id content ≡ some (id, new, version)
    → (m : ChatMessage) × In m ms × (m.id ≡ id) × (m.version ≡ version) × (new ≡ content)
unfolding edit_of
edit_of-some ms message_id content id new version h =
    elim (Option-cases (find (λ m. m.id == message_id) ms)) [
      | inl n ↦ absurd (ground arith)
      | inr (m, e) ↦
          let (i, k) = find_cases message_id ms m e in
          (m, i, ground (arith, k, e), ground (arith, e), ground (arith, e))
    ]
