-- ===== src/Roles.antt =====
-- Roles and members of a server: frontend/src/components/servers/settings/ServerRolesSettings.tsx,
-- frontend/src/components/servers/ServerMembersSidebar.tsx and InviteMemberDialog.tsx. `String.trim` is the
-- parameter `trim`.
pub mod Editor
pub mod Members
pub mod Tests
use bu3li_comms.Prelude.{
  ℕ, String, Bool, true, false, not, ◌&&◌, ◌||◌, ◌==◌, if◌then◌else◌, Option, none, some, List, [],
  ◌∷◌, ◌++◌, map, filter, includes,
}
use bu3li_comms.Server.{ServerRole, ServerMember}
use bu3li_comms.Http.Endpoints.{User}
use bu3li_comms.Http.Servers.{RoleInput}

pub data PermissionKey : Type 0 where
  is_admin can_manage_server can_manage_channels can_manage_roles can_kick_members : PermissionKey

pub record Permissions : Type 0 where
  pub is_admin : Bool
  pub can_manage_server : Bool
  pub can_manage_channels : Bool
  pub can_manage_roles : Bool
  pub can_kick_members : Bool

-- the state of `RoleEditor`; `role` is the role that it edits, if it does not create one
pub record RoleEditor : Type 0 where
  pub role : Option ServerRole
  pub name : String
  pub color : String
  pub permissions : Permissions

unfoldable pub opened : Option ServerRole → RoleEditor
opened none = record {
  role = none;
  name = "New role";
  color = "#7C9CE8";
  permissions = record {
    is_admin = false;
    can_manage_server = false;
    can_manage_channels = false;
    can_manage_roles = false;
    can_kick_members = false;
  };
}
opened (some r) = record {
  role = some r;
  name = r.name;
  color = r.color;
  permissions = record {
    is_admin = r.is_admin;
    can_manage_server = r.can_manage_server;
    can_manage_channels = r.can_manage_channels;
    can_manage_roles = r.can_manage_roles;
    can_kick_members = r.can_kick_members;
  };
}

unfoldable pub has_permission : PermissionKey → Permissions → Bool
has_permission PermissionKey.is_admin p = p.is_admin
has_permission PermissionKey.can_manage_server p = p.can_manage_server
has_permission PermissionKey.can_manage_channels p = p.can_manage_channels
has_permission PermissionKey.can_manage_roles p = p.can_manage_roles
has_permission PermissionKey.can_kick_members p = p.can_kick_members

unfoldable pub toggle_permission : PermissionKey → Permissions → Permissions
toggle_permission PermissionKey.is_admin p = record p { is_admin = not p.is_admin }
toggle_permission PermissionKey.can_manage_server p = record p {
  can_manage_server = not p.can_manage_server;
}
toggle_permission PermissionKey.can_manage_channels p = record p {
  can_manage_channels = not p.can_manage_channels;
}
toggle_permission PermissionKey.can_manage_roles p = record p {
  can_manage_roles = not p.can_manage_roles;
}
toggle_permission PermissionKey.can_kick_members p = record p {
  can_kick_members = not p.can_kick_members;
}

-- how the checkbox of a permission below the administrator's is shown
unfoldable pub is_checked : PermissionKey → Permissions → Bool
unfolding has_permission
is_checked key p = p.is_admin || has_permission key p

-- a checkbox that is disabled is not toggled
unfoldable pub click_permission : PermissionKey → Permissions → Permissions
unfolding toggle_permission
click_permission PermissionKey.is_admin p = toggle_permission PermissionKey.is_admin p
click_permission key p = if p.is_admin then p else toggle_permission key p

pub data RoleMutation : Type 0 where
  update_role : (role_id : String) → RoleInput → RoleMutation
  create_role : RoleInput → RoleMutation

unfoldable pub submit_role : (String → String) → RoleEditor → Option RoleMutation
submit_role trim s =
    let input : RoleInput = record {
      name = trim s.name;
      color = s.color;
      is_admin = s.permissions.is_admin;
      can_manage_server = s.permissions.can_manage_server;
      can_manage_roles = s.permissions.can_manage_roles;
      can_manage_channels = s.permissions.can_manage_channels;
      can_kick_members = s.permissions.can_kick_members;
    } in
    if trim s.name == ""
    then none
    else some (elim s.role [ none ↦ create_role input | some role ↦ update_role role.id input ])

-- the set of the users who are online, as a list
abbrev pub is_shown_online : String → List String → ServerMember → Bool
is_shown_online current_user_id online_ids m =
    m.user_id == current_user_id || includes m.user_id online_ids

-- the loop, with the groups so far
unfoldable pub group_members :
    String
    → List String
    → (online offline : List ServerMember) → List ServerMember
    → List ServerMember × List ServerMember
group_members current_user_id online_ids online offline [] = (online, offline)
group_members current_user_id online_ids online offline (m ∷ ms) =
    group_members current_user_id online_ids
      (if is_shown_online current_user_id online_ids m then online ++ m ∷ [] else online)
      (if is_shown_online current_user_id online_ids m then offline else offline ++ m ∷ []) ms

-- the users who are found and are not members yet
unfoldable pub candidates : List ServerMember → List User → List User
candidates existing_members results =
    filter (λ u. not (includes u.id (map (λ m. m.user_id) existing_members))) results
