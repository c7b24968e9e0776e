-- ===== src/Roles/Editor.antt =====
-- Editing a role in frontend/src/components/servers/settings/ServerRolesSettings.tsx.
use bu3li_comms.Prelude.{
  String, Bool, true, false, not, ◌&&◌, ◌||◌, ◌==◌, if◌then◌else◌, ◌≡◌, refl, some, arith,
}
use bu3li_comms.Server.{ServerRole}
use bu3li_comms.Http.Servers.{RoleInput}
use bu3li_comms.Roles.{
  PermissionKey, Permissions, opened, has_permission, click_permission, update_role, submit_role,
}

-- the fields of a role that a caller may set
abbrev pub input_of : ServerRole → RoleInput
input_of r = record {
  name = r.name;
  color = r.color;
  is_admin = r.is_admin;
  can_manage_server = r.can_manage_server;
  can_manage_roles = r.can_manage_roles;
  can_manage_channels = r.can_manage_channels;
  can_kick_members = r.can_kick_members;
}

-- If a role's name is not empty and has no space at its ends, then saving the role as it was opened sends
-- the role as it is.
pub submit_role-opened :
    (trim : String → String) (r : ServerRole)
    → trim r.name ≡ r.name
    → (r.name == "") ≡ false
    → submit_role trim (opened (some r)) ≡ some (update_role r.id (input_of r))
unfolding submit_role opened
submit_role-opened trim r t n = rw (t, n) refl

abbrev pub is_same_key : PermissionKey → PermissionKey → Bool
is_same_key PermissionKey.is_admin PermissionKey.is_admin = true
is_same_key PermissionKey.can_manage_server PermissionKey.can_manage_server = true
is_same_key PermissionKey.can_manage_channels PermissionKey.can_manage_channels = true
is_same_key PermissionKey.can_manage_roles PermissionKey.can_manage_roles = true
is_same_key PermissionKey.can_kick_members PermissionKey.can_kick_members = true
is_same_key _ _ = false

-- A click on a checkbox changes that permission and no other; on a permission that being an administrator
-- includes, it changes nothing. The boxes show what the role grants.
pub click_permission_lem :
    (key other : PermissionKey) (p : Permissions)
    → (has_permission other (click_permission key p) ≡ (
        if is_same_key key other && (is_same_key key PermissionKey.is_admin || not p.is_admin)
        then not (has_permission other p)
        else has_permission other p))
unfolding click_permission has_permission
click_permission_lem key other p = ground arith
