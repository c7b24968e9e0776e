-- ===== src/Calls/Steps.antt =====
-- Everything that can happen to the call of frontend/src/calls/callManager.ts.
use bu3li_comms.Prelude.{ℕ, String, Option, List, [], ◌∷◌}
use bu3li_comms.Calls.{
  Task, CallManager, set_self_user_id, start, accept, decline, leave, toggle_mute, toggle_deafen,
}
use bu3li_comms.Calls.Handlers.{
  handle_call_created, handle_call_ended, handle_call_joined, handle_call_left, handle_offer,
  handle_answer, handle_ice_candidate, on_ice_candidate, on_track, resume_stream, resume_sdp,
}

-- A call of the application, an event of the server, an event of a connection, or an answer that a
-- suspended method goes on with.
pub data Action : Type 0 where
  sets_self start_call : String → Action
  accepts declines leaves toggles_mute toggles_deafen : Action
  created : (conversation_id caller_id : String) → Action
  ended : (conversation_id : String) → Action
  joined : (conversation_id : String) → List String → Action
  left : (conversation_id user_id : String) → List String → Action
  offered answered candidate : (conversation_id from_user_id body : String) → Action
  found_candidate : (participant_id : String) → Option String → Action
  got_track : (participant_id : String) → Option ℕ → Action
  answers_stream : Task → ℕ → Action
  answers_sdp : Task → String → Action

unfoldable pub act : Action → CallManager → CallManager
act (sets_self u) = set_self_user_id u
act (start_call c) = start c
act accepts = accept
act declines = decline
act leaves = leave
act toggles_mute = toggle_mute
act toggles_deafen = toggle_deafen
act (created c u) = handle_call_created c u
act (ended c) = handle_call_ended c
act (joined c ps) = handle_call_joined c ps
act (left c u ps) = handle_call_left c u ps
act (offered c u sdp) = handle_offer c u sdp
act (answered c u sdp) = handle_answer c u sdp
act (candidate c u body) = handle_ice_candidate c u body
act (found_candidate u o) = on_ice_candidate u o
act (got_track u o) = on_track u o
act (answers_stream task stream) = resume_stream task stream
act (answers_sdp task sdp) = resume_sdp task sdp

unfoldable pub act_all : List Action → CallManager → CallManager
act_all [] w = w
act_all (a ∷ rest) w = act_all rest (act a w)
