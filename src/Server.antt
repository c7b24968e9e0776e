-- ===== src/Server.antt =====
-- frontend/src/types/server.ts: servers, their channels, roles and members.
use bu3li_comms.Prelude.{ℕ, String, Bool, Option, List}

pub data ChannelType : Type 0 where
  text voice : ChannelType

pub record ServerChannel : Type 0 where
  pub id : String
  pub server_id : String
  pub conversation_id : String
  pub name : String
  pub channel_type : ChannelType
  pub position : ℕ

pub record ServerRole : Type 0 where
  pub id : String
  pub server_id : String
  pub name : String
  pub color : String
  pub is_default : Bool
  pub position : ℕ
  pub is_admin : Bool
  pub can_manage_server : Bool
  pub can_manage_roles : Bool
  pub can_manage_channels : Bool
  pub can_kick_members : Bool

pub record ServerPermissions : Type 0 where
  pub is_owner : Bool
  pub is_admin : Bool
  pub manage_server : Bool
  pub manage_roles : Bool
  pub manage_channels : Bool
  pub kick_members : Bool

pub record ServerMember : Type 0 where
  pub user_id : String
  pub username : String
  pub has_avatar : Bool
  pub is_owner : Bool
  pub role_id : Option String
  pub role_name : String
  pub role_color : String
  pub joined_at : String
  pub user_created_at : String

pub record ServerSummary : Type 0 where
  pub id : String
  pub name : String
  pub owner_id : String
  pub has_icon : Bool
  pub has_banner : Bool
  pub permissions : ServerPermissions
  pub channels : List ServerChannel
  pub members : List ServerMember
  pub roles : List ServerRole
