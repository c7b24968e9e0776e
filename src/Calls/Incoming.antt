-- ===== src/Calls/Incoming.antt =====
-- The states of a call in frontend/src/stores/callStore.ts, as frontend/src/calls/callManager.ts moves them.
use bu3li_comms.Prelude.{String, ◌≡◌, refl, ◌≢◌, none, some, List, [], ◌∷◌, arith}
use bu3li_comms.Calls.{
  idle, outgoing, incoming, active, CallManager, starting, accepting, offering, answering, start,
  accept, decline, leave, teardown, started, accepted, set_self_user_id, toggle_mute, toggle_deafen,
  set_participants,
}
use bu3li_comms.Calls.Handlers.{
  handle_call_created, handle_call_ended, handle_call_joined, handle_call_left, handle_offer,
  handle_answer, handle_ice_candidate, on_ice_candidate, on_track, resume_stream, resume_sdp,
  got_stream, join_loop, open_peer_connection, close_peer,
}
use bu3li_comms.Calls.Steps.{
  Action, sets_self, start_call, accepts, declines, leaves, toggles_mute, toggles_deafen, created,
  ended, joined, left, offered, answered, candidate, found_candidate, got_track, answers_stream,
  answers_sdp, act, act_all,
}

-- A call that rings shows who calls from where; one that is under way has its conversation.
pub record IsConsistent (w : CallManager) : Type 0 where
  pub ringing_where : w.store.status ≡ incoming → w.store.conversation_id ≢ none
  pub ringing_who : w.store.status ≡ incoming → w.store.caller_id ≢ none
  pub outgoing_call : w.store.status ≡ outgoing → w.conversation_id ≢ none
  pub active_call : w.store.status ≡ active → w.conversation_id ≢ none

-- A call that is created while another rings or is under way changes nothing.
pub created_while_busy :
    (c u : String) (w : CallManager) → w.store.status ≢ idle → handle_call_created c u w ≡ w
unfolding handle_call_created
created_while_busy c u w n = ground arith

join_loop-store :
    (c : String) (ps : List String) (w : CallManager) → (join_loop c ps w).store ≡ w.store
unfolding join_loop open_peer_connection
join_loop-store c [] w = refl
join_loop-store c (p ∷ ps) w =
    ground (arith, join_loop-store c ps w, join_loop-store c ps (open_peer_connection p w))

join_loop-call :
    (c : String) (ps : List String) (w : CallManager)
    → (join_loop c ps w).conversation_id ≡ w.conversation_id
unfolding join_loop open_peer_connection
join_loop-call c [] w = refl
join_loop-call c (p ∷ ps) w =
    ground (arith, join_loop-call c ps w, join_loop-call c ps (open_peer_connection p w))

join_loop-IsConsistent :
    (c : String) (ps : List String) (w : CallManager)
    → IsConsistent w
    → IsConsistent (join_loop c ps w)
join_loop-IsConsistent c ps w h = ground (arith, join_loop-store c ps w, join_loop-call c ps w)

joined-IsConsistent :
    (c : String) (ps : List String) (w : CallManager)
    → IsConsistent w
    → IsConsistent (handle_call_joined c ps w)
unfolding handle_call_joined
joined-IsConsistent c ps w h =
    let w' : CallManager = record w { store = set_participants ps w.store } in
    ground (arith, join_loop-store c ps w', join_loop-call c ps w')

act-IsConsistent : (a : Action) (w : CallManager) → IsConsistent w → IsConsistent (act a w)
unfolding act set_self_user_id start started accept accepted decline leave teardown toggle_mute
    toggle_deafen handle_call_created handle_call_ended handle_call_left close_peer handle_offer
    open_peer_connection handle_answer handle_ice_candidate on_ice_candidate on_track resume_stream
    got_stream resume_sdp
act-IsConsistent (sets_self u) w h = ground arith
act-IsConsistent (start_call c) w h = ground arith
act-IsConsistent accepts w h = ground arith
act-IsConsistent declines w h = ground arith
act-IsConsistent leaves w h = ground arith
act-IsConsistent toggles_mute w h = ground arith
act-IsConsistent toggles_deafen w h = ground arith
act-IsConsistent (created c u) w h = ground arith
act-IsConsistent (ended c) w h = ground arith
act-IsConsistent (joined c ps) w h = joined-IsConsistent c ps w h
act-IsConsistent (left c u ps) w h = ground arith
act-IsConsistent (offered c u sdp) w h = ground arith
act-IsConsistent (answered c u sdp) w h = ground arith
act-IsConsistent (candidate c u body) w h = ground arith
act-IsConsistent (found_candidate u none) w h = ground arith
act-IsConsistent (found_candidate u (some body)) w h = ground arith
act-IsConsistent (got_track u none) w h = ground arith
act-IsConsistent (got_track u (some stream)) w h = ground arith
act-IsConsistent (answers_stream (starting c) stream) w h = ground arith
act-IsConsistent (answers_stream (accepting c) stream) w h = ground arith
act-IsConsistent (answers_stream (offering c p rest) stream) w h = h
act-IsConsistent (answers_stream (answering c u) stream) w h = h
act-IsConsistent (answers_sdp (starting c) sdp) w h = h
act-IsConsistent (answers_sdp (accepting c) sdp) w h = h
act-IsConsistent (answers_sdp (offering c p rest) sdp) w h =
    join_loop-IsConsistent c rest _ (ground arith)
act-IsConsistent (answers_sdp (answering c u) sdp) w h = ground arith

-- Whatever happens, from a consistent state on a call that rings has a caller and a conversation, and a
-- call that goes out or is active has the manager's conversation.
pub act_all-IsConsistent :
    (actions : List Action) (w : CallManager) → IsConsistent w → IsConsistent (act_all actions w)
unfolding act_all
act_all-IsConsistent [] w h = h
act_all-IsConsistent (a ∷ rest) w h = act_all-IsConsistent rest (act a w) (act-IsConsistent a w h)
