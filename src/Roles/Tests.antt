-- ===== src/Roles/Tests.antt =====
-- The role editor of frontend/src/components/servers/settings/ServerRolesSettings.tsx on a concrete role.
use bu3li_comms.Prelude.{String, true, false, String-discrete, ◌==◌, ◌≡◌, refl}
use bu3li_comms.Server.{ServerRole}

abbrev moderator : ServerRole
moderator = record {
  id = "r1";
  server_id = "s1";
  name = "Moderator";
  color = "#000000";
  is_default = false;
  position = 1;
  is_admin = false;
  can_manage_server = false;
  can_manage_roles = false;
  can_manage_channels = true;
  can_kick_members = true;
}

abbrev as_is : String → String
as_is text = text

moderator_named : (moderator.name == "") ≡ false
unfolding String-discrete
moderator_named = refl
