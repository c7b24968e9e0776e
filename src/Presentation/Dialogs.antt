-- ===== src/Presentation/Dialogs.antt =====
-- The names that the dialogs of frontend/src/components/servers accept: CreateServerDialog.tsx,
-- CreateChannelDialog.tsx and settings/ServerOverviewSettings.tsx. `String.trim` is the parameter `trim`; a
-- result is what the mutation is called with, if it is called.
use bu3li_comms.Prelude.{
  String, false, ◌||◌, ◌==◌, if◌then◌else◌, ◌≡◌, ◌↔◌, Option, none, some, arith,
}
use bu3li_comms.Server.{ChannelType, ServerSummary}

module _ (trim : String → String) where
  unfoldable pub submit_server : String → Option String
  submit_server name = if trim name == "" then none else some (trim name)

  unfoldable pub submit_channel :
      String → String → ChannelType → Option (String × String × ChannelType)
  submit_channel server_id name channel_type =
      if trim name == "" then none else some (server_id, trim name, channel_type)

  unfoldable pub submit_rename : ServerSummary → String → Option (String × String)
  submit_rename server name =
      if trim name == "" || trim name == server.name then none else some (server.id, trim name)

  -- A server is renamed exactly if the trimmed name is not empty and is another than the server's, and then
  -- to that; a server or a channel is created exactly if the trimmed name is not empty, and then with that.
  pub submit_rename_lem :
      (server : ServerSummary) (name new : String) (channel_type : ChannelType)
      → ((submit_rename server name ≡ some (server.id, new))
          ↔ ((new ≡ trim name) × ((new == "") ≡ false) × ((new == server.name) ≡ false)))
        × ((submit_server name ≡ some new) ↔ ((new ≡ trim name) × ((new == "") ≡ false)))
        × ((submit_channel server.id name channel_type ≡ some (server.id, new, channel_type))
            ↔ ((new ≡ trim name) × ((new == "") ≡ false)))
  unfolding submit_rename submit_server submit_channel
  submit_rename_lem server name new channel_type = ground arith
