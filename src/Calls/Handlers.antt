-- ===== src/Calls/Handlers.antt =====
-- frontend/src/calls/callManager.ts: what the manager does when an event of the call arrives, and when the
-- browser answers what a method waits for.
use bu3li_comms.Prelude.{
  ℕ, ◌+◌, String, Bool, true, false, not, ◌==◌, ◌||◌, if◌then◌else◌, Option, none, some, List, [],
  ◌∷◌, ◌++◌, get, put, del,
}
use bu3li_comms.Utf16.{str_lt}
use bu3li_comms.Calls.{
  CallStatus, idle, set_incoming, set_participants, set_remote_stream, remove_remote_stream, offer,
  answer, ice_candidate, Task, starting, accepting, offering, answering, PeerOp, remote_offer,
  remote_answer, add_candidate, CallManager, emit, suspend, is_call, is_truthy, started, accepted,
  teardown,
}

abbrev pub is_idle : CallStatus → Bool
is_idle idle = true
is_idle _ = false

unfoldable pub handle_call_created : String → String → CallManager → CallManager
handle_call_created conversation_id caller_id w =
    if not (is_idle w.store.status)
    then w
    else record w { store = set_incoming conversation_id caller_id w.store }

unfoldable pub handle_call_ended : String → CallManager → CallManager
handle_call_ended conversation_id w = if not (is_call conversation_id w) then w else teardown w

-- The connection is new, and its number is `w.next_peer`.
unfoldable pub open_peer_connection : String → CallManager → CallManager
open_peer_connection participant_id w = record w {
  peers = put participant_id w.next_peer w.peers;
  next_peer = w.next_peer + 1;
}

abbrev pub is_self : String → CallManager → Bool
is_self participant_id w = elim w.self_user_id [ none ↦ false | some u ↦ participant_id == u ]

abbrev pub has_peer : String → CallManager → Bool
has_peer participant_id w = elim (get participant_id w.peers) [ none ↦ false | some pc ↦ true ]

-- The user with the smaller id sends the offer.
abbrev pub offers_to : String → CallManager → Bool
offers_to participant_id w = elim w.self_user_id [ none ↦ false | some u ↦ str_lt u participant_id ]

-- the loop of `handleCallJoined`, up to its end or to the next `await`
unfoldable pub join_loop : String → List String → CallManager → CallManager
join_loop conversation_id [] w = w
join_loop conversation_id (participant_id ∷ rest) w =
    let skip = join_loop conversation_id rest w in
    let opened = open_peer_connection participant_id w in
    let go_on = join_loop conversation_id rest opened in
    if is_self participant_id w || has_peer participant_id w
    then skip
    else if offers_to participant_id w
    then suspend (offering conversation_id participant_id rest) opened
    else go_on

unfoldable pub handle_call_joined : String → List String → CallManager → CallManager
handle_call_joined conversation_id participants w =
    let joined : CallManager = record w { store = set_participants participants w.store } in
    if not (is_call conversation_id w) then w else elim w.self_user_id [
      | none ↦ w
      | some u ↦ if is_truthy u then join_loop conversation_id participants joined else w
    ]

unfoldable pub close_peer : String → CallManager → CallManager
close_peer participant_id w = elim (get participant_id w.peers) [
  | none ↦ record w { peers = del participant_id w.peers }
  | some pc ↦ record w { closed = pc ∷ w.closed; peers = del participant_id w.peers }
]

unfoldable pub handle_call_left : String → String → List String → CallManager → CallManager
handle_call_left conversation_id user_id participants w =
    let w' = close_peer user_id w in
    if not (is_call conversation_id w)
    then w
    else record w' { store = remove_remote_stream user_id (set_participants participants w'.store) }

abbrev pub ask : ℕ → PeerOp → CallManager → CallManager
ask pc op w = record w { asked = w.asked ++ (pc, op) ∷ [] }

unfoldable pub handle_offer : String → String → String → CallManager → CallManager
handle_offer conversation_id from_user_id sdp w =
    let task = answering conversation_id from_user_id in
    if not (is_call conversation_id w) then w else elim (get from_user_id w.peers) [
      | some pc ↦ suspend task (ask pc (remote_offer sdp) w)
      | none ↦
          suspend task (ask w.next_peer (remote_offer sdp) (open_peer_connection from_user_id w))
    ]

-- what `handleAnswer` and `handleIceCandidate` ask of the sender's connection, if there is one
abbrev pub ask_peer : String → String → PeerOp → CallManager → CallManager
ask_peer conversation_id from_user_id op w =
    if not (is_call conversation_id w)
    then w
    else elim (get from_user_id w.peers) [ none ↦ w | some pc ↦ ask pc op w ]

unfoldable pub handle_answer : String → String → String → CallManager → CallManager
handle_answer conversation_id from_user_id sdp =
    ask_peer conversation_id from_user_id (remote_answer sdp)

unfoldable pub handle_ice_candidate : String → String → String → CallManager → CallManager
handle_ice_candidate conversation_id from_user_id candidate =
    ask_peer conversation_id from_user_id (add_candidate candidate)

-- the listeners that a connection gets
unfoldable pub on_ice_candidate : String → Option String → CallManager → CallManager
on_ice_candidate participant_id none w = w
on_ice_candidate participant_id (some candidate) w = elim w.conversation_id [
  | none ↦ w
  | some c ↦ if is_truthy c then emit (ice_candidate c participant_id candidate) w else w
]

unfoldable pub on_track : String → Option ℕ → CallManager → CallManager
on_track participant_id none w = w
on_track participant_id (some stream) w = record w {
  store = set_remote_stream participant_id stream w.store;
}

-- the browser grants the microphone
unfoldable pub got_stream : ℕ → CallManager → CallManager
got_stream stream w = record w {
  local_stream = some stream;
  enabled = true;
  store = record w.store { local_stream = some stream };
}

-- A suspended method goes on with the browser's answer: the stream's number, or the description. A
-- refusal ends the method (its task is dropped). It may be resumed after its connection has been closed too,
-- which is more than a browser does.
unfoldable pub resume_stream : Task → ℕ → CallManager → CallManager
resume_stream (starting conversation_id) stream w = started conversation_id (got_stream stream w)
resume_stream (accepting conversation_id) stream w = accepted conversation_id (got_stream stream w)
resume_stream (offering conversation_id participant_id rest) stream w = w
resume_stream (answering conversation_id from_user_id) stream w = w

unfoldable pub resume_sdp : Task → String → CallManager → CallManager
resume_sdp (offering conversation_id participant_id rest) sdp w =
    join_loop conversation_id rest
      (if is_truthy sdp then emit (offer conversation_id participant_id sdp) w else w)
resume_sdp (answering conversation_id from_user_id) sdp w =
    if is_truthy sdp then emit (answer conversation_id from_user_id sdp) w else w
resume_sdp (starting conversation_id) sdp w = w
resume_sdp (accepting conversation_id) sdp w = w
