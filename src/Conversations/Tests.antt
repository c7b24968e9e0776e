-- ===== src/Conversations/Tests.antt =====
-- Names and the directory of frontend/src/lib and frontend/src/hooks on a concrete conversation.
use bu3li_comms.Prelude.{String, false, String-discrete, ◌≡◌, refl, none, [], ◌∷◌}
use bu3li_comms.Conversations.{
  ConversationSummary, Member, group, other_members, join_names, conversation_display_name,
}

abbrev member_of : String → String → Member
member_of id username = record { id = id; username = username; has_avatar = false }

abbrev friends : ConversationSummary
friends = record {
  id = "c";
  conversation_type = group;
  members = member_of "1" "ann" ∷ member_of "2" "bob" ∷ member_of "3" "cat" ∷ [];
  last_message = none;
  unread_count = 0;
}

display_name_test : conversation_display_name friends "1" ≡ "bob, cat"
unfolding conversation_display_name other_members join_names String-discrete
display_name_test = refl
