-- ===== src/Conversations/Directory.antt =====
-- Whom `useUserDirectory` of frontend/src/hooks/useUserDirectory.ts knows.
use bu3li_comms.Prelude.{
  String, Bool, true, false, ◌==◌, ◌||◌, ◌≡◌, refl, Option, none, some, List, [], ◌∷◌, any, Dict,
  get, put, get-put, arith,
}
use bu3li_comms.Server.{ServerMember, ServerSummary}
use bu3li_comms.Stores.{or_empty}
use bu3li_comms.Conversations.{
  Member, ConversationSummary, DirectoryEntry, add_members, add_server_members, add_conversations,
  add_servers, user_directory,
}

abbrev pub is_known : String → Dict DirectoryEntry → Bool
is_known id d = elim (get id d) [ none ↦ false | some e ↦ true ]

is_known-put :
    (id k : String) (e : DirectoryEntry) (d : Dict DirectoryEntry)
    → is_known id (put k e d) ≡ (k == id || is_known id d)
is_known-put id k e d = ground (arith, get-put id k e d)

is_known-add_members :
    (id : String) (ms : List Member) (d : Dict DirectoryEntry)
    → is_known id (add_members ms d) ≡ (any (λ m. m.id == id) ms || is_known id d)
unfolding add_members
is_known-add_members id [] d = refl
is_known-add_members id (m ∷ ms) d = ground (
  arith,
  is_known-add_members id ms
      (put m.id (record { username = m.username; has_avatar = m.has_avatar }) d),
  is_known-put id m.id (record { username = m.username; has_avatar = m.has_avatar }) d,
)

is_known-add_server_members :
    (id : String) (ms : List ServerMember) (d : Dict DirectoryEntry)
    → is_known id (add_server_members ms d) ≡ (any (λ m. m.user_id == id) ms || is_known id d)
unfolding add_server_members
is_known-add_server_members id [] d = refl
is_known-add_server_members id (m ∷ ms) d = ground (
  arith,
  is_known-add_server_members id ms
      (put m.user_id (record { username = m.username; has_avatar = m.has_avatar }) d),
  is_known-put id m.user_id (record { username = m.username; has_avatar = m.has_avatar }) d,
)

abbrev pub is_member : String → List ConversationSummary → Bool
is_member id cs = any (λ c. any (λ m. m.id == id) c.members) cs

abbrev pub is_server_member : String → List ServerSummary → Bool
is_server_member id ss = any (λ s. any (λ m. m.user_id == id) s.members) ss

is_known-add_conversations :
    (id : String) (cs : List ConversationSummary) (d : Dict DirectoryEntry)
    → is_known id (add_conversations cs d) ≡ (is_member id cs || is_known id d)
unfolding add_conversations
is_known-add_conversations id [] d = refl
is_known-add_conversations id (c ∷ cs) d = ground (
  arith,
  is_known-add_conversations id cs (add_members c.members d),
  is_known-add_members id c.members d,
)

is_known-add_servers :
    (id : String) (ss : List ServerSummary) (d : Dict DirectoryEntry)
    → is_known id (add_servers ss d) ≡ (is_server_member id ss || is_known id d)
unfolding add_servers
is_known-add_servers id [] d = refl
is_known-add_servers id (s ∷ ss) d = ground (
  arith,
  is_known-add_servers id ss (add_server_members s.members d),
  is_known-add_server_members id s.members d,
)

-- The directory knows exactly the members of the conversations and of the servers that are loaded.
pub is_known-user_directory :
    (id : String) (cs : Option (List ConversationSummary)) (ss : Option (List ServerSummary))
    → is_known id (user_directory cs ss)
      ≡ (is_server_member id (or_empty ss) || is_member id (or_empty cs))
unfolding user_directory get
is_known-user_directory id cs ss = ground (
  arith,
  is_known-add_servers id (or_empty ss) (add_conversations (or_empty cs) []),
  is_known-add_conversations id (or_empty cs) [],
)
