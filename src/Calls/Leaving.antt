-- ===== src/Calls/Leaving.antt =====
-- Leaving a call of frontend/src/calls/callManager.ts.
use bu3li_comms.Prelude.{
  ℕ, ◌<◌, String, true, ◌≡◌, refl, none, some, List, [], ◌∷◌, ◌++◌, In, In-append, arith,
}
use bu3li_comms.Calls.{CallManager, call_leave, initial, is_truthy, leave, teardown, emit}
use bu3li_comms.Calls.Handlers.{
  handle_call_ended, handle_call_joined, handle_call_left, handle_offer, handle_answer,
  handle_ice_candidate, on_ice_candidate,
}
use bu3li_comms.Calls.Peers.{NoLeak, values}
use bu3li_comms.Calls.Steps.{Action, act_all}
use bu3li_comms.Calls.Leaks.{act_all-NoLeak}

-- No call is on: the store is as at the start, nothing is held.
pub record IsOver (w : CallManager) : Type 0 where
  pub store : w.store ≡ initial
  pub no_call : w.conversation_id ≡ none
  pub no_peers : w.peers ≡ []
  pub no_stream : w.local_stream ≡ none

leave-teardown :
    (w : CallManager) (c : String)
    → w.conversation_id ≡ some c
    → is_truthy c ≡ true
    → leave w ≡ teardown (emit (call_leave c) w)
unfolding leave
leave-teardown w c e t = ground arith

teardown-closed : (w : CallManager) (n : ℕ) → NoLeak w → n < w.next_peer → In n (teardown w).closed
unfolding teardown
teardown-closed w n v l = (In-append n (values w.peers) w.closed).1 (v.kept n l)

teardown-stopped :
    (w : CallManager) (stream : ℕ) → w.local_stream ≡ some stream → In stream (teardown w).stopped
unfolding teardown
teardown-stopped w stream e = ground arith

teardown-IsOver : (w : CallManager) → IsOver (teardown w)
unfolding teardown
teardown-IsOver w = record { store = refl; no_call = refl; no_peers = refl; no_stream = refl }

teardown-sent : (w : CallManager) → (teardown w).sent ≡ w.sent
unfolding teardown
teardown-sent w = refl

-- Whatever happened before, if every peer connection created at first was held for a participant or closed,
-- then leaving a call that holds a microphone and whose conversation's id is not empty ends it: no call is on,
-- every peer connection created so far is closed, the microphone is stopped, and what is handed to `send` is
-- one further frame, that the user leaves the conversation.
pub leave_lem :
    (actions : List Action) (first : CallManager) (c : String) (stream n : ℕ)
    → NoLeak first
    → (act_all actions first).conversation_id ≡ some c
    → is_truthy c ≡ true
    → (act_all actions first).local_stream ≡ some stream
    → n < (act_all actions first).next_peer
    → let w = act_all actions first in
      IsOver (leave w)
      × In n (leave w).closed
      × In stream (leave w).stopped
      × ((leave w).sent ≡ w.sent ++ call_leave c ∷ [])
leave_lem actions first c stream n v e t s l =
    let w : CallManager = act_all actions first in
    let w' : CallManager = emit (call_leave c) w in
    let kept = act_all-NoLeak actions first v in
    rw (leave-teardown w c e t) (
      teardown-IsOver w',
      teardown-closed w' n (record { keys = kept.keys; kept = kept.kept }) l,
      teardown-stopped w' stream s,
      teardown-sent w',
    )

-- While no call is on, the events of any call but its creation change nothing.
pub events_after_call :
    (w : CallManager) (c u body : String) (ps : List String)
    → w.conversation_id ≡ none
    → (handle_call_ended c w ≡ w)
      × (handle_call_joined c ps w ≡ w)
      × (handle_call_left c u ps w ≡ w)
      × (handle_offer c u body w ≡ w)
      × (handle_answer c u body w ≡ w)
      × (handle_ice_candidate c u body w ≡ w)
      × (on_ice_candidate u (some body) w ≡ w)
unfolding handle_call_ended handle_call_joined handle_call_left handle_offer handle_answer
    handle_ice_candidate on_ice_candidate
events_after_call w c u body ps e = ground arith
