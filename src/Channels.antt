-- ===== src/Channels.antt =====
-- frontend/src/hooks/useServerMutations.ts: what the hooks do to the cached list of servers and to the
-- toasts. The requests are the server's to answer; the host calls on_success or on_error with the answer.
pub mod Reorder
pub mod Rollback
pub mod Tests
use mathlib.Core.Path.{◌≡◌}
use bu3li_comms.Prelude.{
  ℕ, ◌+◌, String, Bool, true, false, not, ◌==◌, if◌then◌else◌, Option, none, some, List, [], ◌∷◌,
  map, Dict, get, put,
}
use bu3li_comms.Stores.{ToastStore, push, error}
use bu3li_comms.Server.{ServerChannel, ServerSummary}

-- the mutations beside the reordering of channels
pub data Mutation : Type 0 where
  create_server update_server delete_server add_member remove_member assign_role create_channel
        delete_channel create_role update_role delete_role upload_icon delete_icon upload_banner
        delete_banner :
      Mutation

abbrev pub failure_text : Mutation → String
failure_text create_server = "Couldn't create that server. Try again."
failure_text update_server = "Couldn't update that server. Try again."
failure_text delete_server = "Couldn't delete that server. Try again."
failure_text add_member = "Couldn't add that member. Try again."
failure_text remove_member = "Couldn't remove that member. Try again."
failure_text assign_role = "Couldn't change that member's role. Try again."
failure_text create_channel = "Couldn't create that channel. Try again."
failure_text delete_channel = "Couldn't delete that channel. Try again."
failure_text create_role = "Couldn't create that role. Try again."
failure_text update_role = "Couldn't update that role. Try again."
failure_text delete_role = "Couldn't delete that role. Try again."
failure_text upload_icon = "Couldn't upload that icon. Try again."
failure_text delete_icon = "Couldn't remove that icon. Try again."
failure_text upload_banner = "Couldn't upload that banner. Try again."
failure_text delete_banner = "Couldn't remove that banner. Try again."

-- The query of the servers: its data, and whether it is to be fetched again.
pub record ServersQuery : Type 0 where
  pub servers : Option (List ServerSummary)
  pub is_outdated : Bool
  pub toasts : ToastStore

unfoldable pub on_success : Mutation → ServersQuery → ServersQuery
on_success mutation q = record q { is_outdated = true }

unfoldable pub on_failure : ℕ → String → Mutation → ServersQuery → ServersQuery
on_failure now id mutation q = record q {
  toasts = push now id (failure_text mutation) error q.toasts;
}

-- `new Map(channels.map((channel) => [channel.id, channel]))`, from the entries that are there
unfoldable pub index_channels : Dict ServerChannel → List ServerChannel → Dict ServerChannel
index_channels d [] = d
index_channels d (c ∷ cs) = index_channels (put c.id c d) cs

-- the channels of the ids, each with its place among them; an id that is not there is left out
unfoldable pub place : Dict ServerChannel → ℕ → List String → List ServerChannel
place by_id position [] = []
place by_id position (id ∷ ids) =
    let rest = place by_id (position + 1) ids in
    elim (get id by_id) [
      | none ↦ rest
      | some channel ↦ record channel { position = position } ∷ rest
    ]

unfoldable pub reorder : List String → List ServerChannel → List ServerChannel
reorder channel_ids channels = place (index_channels [] channels) 0 channel_ids

abbrev pub reorder_in : String → List String → ServerSummary → ServerSummary
reorder_in server_id channel_ids server =
    if not (server.id == server_id)
    then server
    else record server { channels = reorder channel_ids server.channels }

abbrev pub map_servers :
    (ServerSummary → ServerSummary) → Option (List ServerSummary) → Option (List ServerSummary)
map_servers f none = none
map_servers f (some servers) = some (map f servers)

-- `onMutate`; the context that it returns is the data before
unfoldable pub on_reorder :
    String → List String → ServersQuery → Option (List ServerSummary) × ServersQuery
on_reorder server_id channel_ids q =
    (q.servers, record q { servers = map_servers (reorder_in server_id channel_ids) q.servers })

abbrev pub restore :
    Option (List ServerSummary) → Option (List ServerSummary) → Option (List ServerSummary)
restore none now = now
restore (some previous) now = some previous

-- `onError`, then `onSettled`
unfoldable pub on_reorder_error :
    ℕ → String → Option (List ServerSummary) → ServersQuery → ServersQuery
on_reorder_error now id previous q = record q {
  servers = restore previous q.servers;
  toasts = push now id "Couldn't reorder channels. Try again." error q.toasts;
  is_outdated = true;
}

-- `onSettled` after a success
unfoldable pub on_reorder_success : ServersQuery → ServersQuery
on_reorder_success q = record q { is_outdated = true }
