-- ===== src/RealtimeEvent.antt =====
-- frontend/src/realtime/events.ts: the events that the server sends, with the fields of their data.
use bu3li_comms.Prelude.{String, List}
use bu3li_comms.Message.{Message}
use bu3li_comms.Server.{ServerChannel}

pub data RealtimeEvent : Type 0 where
  message_created message_updated : Message → RealtimeEvent
  message_deleted : (message_id conversation_id : String) → RealtimeEvent
  message_read : (message_id user_id conversation_id read_at : String) → RealtimeEvent
  message_reaction_added message_reaction_removed :
      (message_id conversation_id user_id emoji : String) → RealtimeEvent
  server_member_added server_member_removed server_member_role_changed :
      (server_id user_id : String) → RealtimeEvent
  server_channel_created : ServerChannel → RealtimeEvent
  server_channel_deleted : (server_id channel_id : String) → RealtimeEvent
  server_channels_reordered server_deleted server_updated server_role_changed :
      (server_id : String) → RealtimeEvent
  typing_started typing_stopped : (user_id conversation_id : String) → RealtimeEvent
  user_online user_offline : (user_id : String) → RealtimeEvent
  presence_snapshot : (online_user_ids : List String) → RealtimeEvent
  call_created : (conversation_id caller_id : String) → RealtimeEvent
  call_joined call_left :
      (conversation_id user_id : String) → (participants : List String) → RealtimeEvent
  call_ended : (conversation_id : String) → RealtimeEvent
  webrtc_offer webrtc_answer : (conversation_id from_user_id sdp : String) → RealtimeEvent
  webrtc_ice_candidate : (conversation_id from_user_id candidate : String) → RealtimeEvent
