-- ===== src/Channels/Tests.antt =====
-- The reordering of frontend/src/hooks/useServerMutations.ts on a concrete server.
use bu3li_comms.Prelude.{
  ℕ, String, true, false, String-discrete, ◌≡◌, refl, some, List, [], ◌∷◌, All, get, put,
}
use bu3li_comms.Server.{ServerChannel, text}
use bu3li_comms.Channels.{ServersQuery, index_channels, place, reorder}
use bu3li_comms.Channels.Reorder.{has_channel}

abbrev pub channel_of : String → ℕ → ServerChannel
channel_of id position = record {
  id = id;
  server_id = "s";
  conversation_id = id;
  name = id;
  channel_type = text;
  position = position;
}

abbrev two_channels : List ServerChannel
two_channels = channel_of "a" 0 ∷ channel_of "b" 1 ∷ []

abbrev new_order : List String
new_order = "b" ∷ "a" ∷ []

reorder_test : reorder new_order two_channels ≡ channel_of "b" 0 ∷ channel_of "a" 1 ∷ []
unfolding reorder place index_channels get put String-discrete
reorder_test = refl

new_order_known : All (λ id. has_channel two_channels id ≡ true) new_order
unfolding String-discrete
new_order_known = (refl, (refl, tt))

abbrev query : ServersQuery
query = record {
  servers = some [];
  is_outdated = false;
  toasts = record { toasts = []; timers = [] };
}
