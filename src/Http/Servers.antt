-- ===== src/Http/Servers.antt =====
-- frontend/src/api/servers.ts: the requests for servers, their members, channels and roles.
use bu3li_comms.Prelude.{String, Bool, Option, none, some, List, [], ◌∷◌}
use bu3li_comms.Server.{ChannelType, ServerChannel, ServerRole, ServerSummary}
use bu3li_comms.Http.{
  Blob, get, post, patch, delete, Field, text, texts, flag, RequestInit, Fetched, Outcome, done,
  then_read, request, api_fetch, api_fetch_void, concat, binary, text_or,
}

-- frontend/src/types/server.ts
pub record RoleInput : Type 0 where
  pub name : String
  pub color : String
  pub is_admin : Bool
  pub can_manage_server : Bool
  pub can_manage_roles : Bool
  pub can_manage_channels : Bool
  pub can_kick_members : Bool

pub record ServerSchemas (Json : Type 0) : Type 0 where
  pub channel : Json → Option ServerChannel
  pub role : Json → Option ServerRole
  pub server : Json → Option ServerSummary
  pub server_list : Json → Option (List ServerSummary)

abbrev pub channel_text : ChannelType → String
channel_text ChannelType.text = "text"
channel_text ChannelType.voice = "voice"

abbrev pub role_fields : RoleInput → List (String × Field)
role_fields i =
    ("name", text i.name)
    ∷ ("color", text i.color)
    ∷ ("is_admin", flag i.is_admin)
    ∷ ("can_manage_server", flag i.can_manage_server)
    ∷ ("can_manage_roles", flag i.can_manage_roles)
    ∷ ("can_manage_channels", flag i.can_manage_channels)
    ∷ ("can_kick_members", flag i.can_kick_members)
    ∷ []

module _ {Json : Type 0} (api_url : String) (fetch : String → RequestInit → Fetched Json)
    (schemas : ServerSchemas Json) where
  unfoldable pub list_servers : Outcome (List ServerSummary)
  list_servers = api_fetch api_url fetch "/servers" schemas.server_list get none

  unfoldable pub get_server : String → Outcome ServerSummary
  get_server server_id =
      api_fetch api_url fetch (concat ("/servers/" ∷ server_id ∷ [])) schemas.server get none

  unfoldable pub create_server : String → Outcome ServerSummary
  create_server name =
      api_fetch api_url fetch "/servers" schemas.server post (some (("name", text name) ∷ []))

  unfoldable pub update_server : String → String → Outcome ServerSummary
  update_server server_id name =
      api_fetch api_url fetch (concat ("/servers/" ∷ server_id ∷ [])) schemas.server patch
        (some (("name", text name) ∷ []))

  unfoldable pub create_channel : String → String → ChannelType → Outcome ServerChannel
  create_channel server_id name channel_type =
      api_fetch api_url fetch (concat ("/servers/" ∷ server_id ∷ "/channels" ∷ [])) schemas.channel
        post (some (("name", text name) ∷ ("type", text (channel_text channel_type)) ∷ []))

  unfoldable pub create_role : String → RoleInput → Outcome ServerRole
  create_role server_id input =
      api_fetch api_url fetch (concat ("/servers/" ∷ server_id ∷ "/roles" ∷ [])) schemas.role post
        (some (role_fields input))

  unfoldable pub update_role : String → String → RoleInput → Outcome ServerRole
  update_role server_id role_id input =
      api_fetch api_url fetch (concat ("/servers/" ∷ server_id ∷ "/roles/" ∷ role_id ∷ []))
        schemas.role patch (some (role_fields input))

module _ {Json : Type 0} (api_url : String) (fetch : String → RequestInit → Fetched Json) where
  unfoldable pub delete_server : String → Outcome (Unit {0})
  delete_server server_id =
      api_fetch_void api_url fetch (concat ("/servers/" ∷ server_id ∷ [])) delete none

  unfoldable pub add_server_member : String → String → Outcome (Unit {0})
  add_server_member server_id user_id =
      api_fetch_void api_url fetch (concat ("/servers/" ∷ server_id ∷ "/members" ∷ [])) post
        (some (("user_id", text user_id) ∷ []))

  unfoldable pub remove_server_member : String → String → Outcome (Unit {0})
  remove_server_member server_id user_id =
      api_fetch_void api_url fetch (concat ("/servers/" ∷ server_id ∷ "/members/" ∷ user_id ∷ []))
        delete none

  unfoldable pub assign_server_role : String → String → String → Outcome (Unit {0})
  assign_server_role server_id user_id role_id =
      api_fetch_void api_url fetch
        (concat ("/servers/" ∷ server_id ∷ "/members/" ∷ user_id ∷ "/role" ∷ [])) post
        (some (("role_id", text role_id) ∷ []))

  unfoldable pub delete_channel : String → String → Outcome (Unit {0})
  delete_channel server_id channel_id =
      api_fetch_void api_url fetch
        (concat ("/servers/" ∷ server_id ∷ "/channels/" ∷ channel_id ∷ [])) delete none

  unfoldable pub reorder_channels : String → List String → Outcome (Unit {0})
  reorder_channels server_id channel_ids =
      api_fetch_void api_url fetch (concat ("/servers/" ∷ server_id ∷ "/channels/reorder" ∷ []))
        patch (some (("channel_ids", texts channel_ids) ∷ []))

  unfoldable pub delete_role : String → String → Outcome (Unit {0})
  delete_role server_id role_id =
      api_fetch_void api_url fetch (concat ("/servers/" ∷ server_id ∷ "/roles/" ∷ role_id ∷ []))
        delete none

  unfoldable pub upload_server_image : String → Blob → Outcome (Unit {0})
  upload_server_image path blob =
      then_read
        (request api_url fetch path (record {
          method = post;
          content_type = some (text_or (some blob.mime_type) "image/png");
          body = binary blob;
        }))
        (λ r. done tt)

  unfoldable pub upload_server_icon : String → Blob → Outcome (Unit {0})
  upload_server_icon server_id =
      upload_server_image (concat ("/servers/" ∷ server_id ∷ "/icon" ∷ []))

  unfoldable pub delete_server_icon : String → Outcome (Unit {0})
  delete_server_icon server_id =
      api_fetch_void api_url fetch (concat ("/servers/" ∷ server_id ∷ "/icon" ∷ [])) delete none

  unfoldable pub upload_server_banner : String → Blob → Outcome (Unit {0})
  upload_server_banner server_id =
      upload_server_image (concat ("/servers/" ∷ server_id ∷ "/banner" ∷ []))

  unfoldable pub delete_server_banner : String → Outcome (Unit {0})
  delete_server_banner server_id =
      api_fetch_void api_url fetch (concat ("/servers/" ∷ server_id ∷ "/banner" ∷ [])) delete none

  unfoldable pub server_icon_url : String → String
  server_icon_url server_id = concat (api_url ∷ "/servers/" ∷ server_id ∷ "/icon" ∷ [])

  unfoldable pub server_banner_url : String → String
  server_banner_url server_id = concat (api_url ∷ "/servers/" ∷ server_id ∷ "/banner" ∷ [])
