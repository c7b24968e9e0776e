-- ===== src/Presentation/Tests.antt =====
-- The settings of a server and the names of users on concrete inputs.
use bu3li_comms.Prelude.{
  String, true, false, String-discrete, ◌==◌, ◌≡◌, refl, some, List, [], ◌∷◌, find,
}
use bu3li_comms.Server.{ServerPermissions, ServerSummary}
use bu3li_comms.Presentation.{members, sections, settings_view, typing_text}
use bu3li_comms.Presentation.Access.{AreAllowed, settings_view-sections}

abbrev moderator : ServerPermissions
moderator = record {
  is_owner = false;
  is_admin = false;
  manage_server = false;
  manage_roles = false;
  manage_channels = false;
  kick_members = true;
}

abbrev server : ServerSummary
server = record {
  id = "s1";
  name = "Server";
  owner_id = "u1";
  has_icon = false;
  has_banner = false;
  permissions = moderator;
  channels = [];
  members = [];
  roles = [];
}

members_shown : settings_view false (some (server ∷ [])) "s1" ≡ sections (members ∷ [])
unfolding settings_view String-discrete
members_shown = refl

settings_view-sections_example :
    (known : List ServerSummary) × (found : ServerSummary) × (some (server ∷ []) ≡ some known)
    × (find (λ s. s.id == "s1") known ≡ some found)
    × AreAllowed found.permissions (members ∷ [])
settings_view-sections_example =
    settings_view-sections false (some (server ∷ [])) "s1" (members ∷ []) members_shown

typing_test :
    typing_text (λ n. "2") (λ id. id) ("ann" ∷ "bob" ∷ "eve" ∷ []) ≡ some "ann and 2 others typing…"
unfolding typing_text
typing_test = refl

abbrev shorten : String → String
shorten id = id
