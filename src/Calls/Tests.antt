-- ===== src/Calls/Tests.antt =====
-- The call of frontend/src/calls/callManager.ts in concrete histories.
use bu3li_comms.Prelude.{
  String, true, not, String-discrete, ne_of_test, ◌≡◌, refl, ◌≢◌, ◌⊎◌, inl, inr, none, some, List,
  [], ◌∷◌, ◌++◌, any, In, arith, get, put,
}
use bu3li_comms.Utf16.{str_lt}
use bu3li_comms.Calls.{
  CallManager, idle, active, initial, CallManager, offering, starting, leave, call_leave,
  set_self_user_id, start, started,
}
use bu3li_comms.Calls.Handlers.{
  handle_call_joined, resume_stream, got_stream, join_loop, open_peer_connection,
}
use bu3li_comms.Calls.Steps.{
  Action, sets_self, start_call, joined, left, leaves, answers_stream, answers_sdp, act_all, act,
}
use bu3li_comms.Calls.Peers.{NoLeak}
use bu3li_comms.Calls.Leaks.{act_all-NoLeak}
use bu3li_comms.Calls.Offers.{Covered, WillGoOn, is_offering, join_loop-covers, one_offers}
use bu3li_comms.Calls.Leaving.{IsOver, leave_lem}
use bu3li_comms.Calls.Incoming.{IsConsistent, act_all-IsConsistent}

abbrev fresh : CallManager
fresh = record {
  store = initial;
  self_user_id = none;
  conversation_id = none;
  local_stream = none;
  peers = [];
  next_peer = 1;
  closed = [];
  stopped = [];
  enabled = true;
  sent = [];
  asked = [];
  tasks = [];
}

abbrev unused : CallManager
unused = record fresh { next_peer = 0 }

-- a call in which Ann waits for her offer to Bob while Cat leaves
abbrev history : List Action
history =
    sets_self "ann"
    ∷ start_call "lobby"
    ∷ answers_stream (starting "lobby") 7
    ∷ joined "lobby" ("ann" ∷ "bob" ∷ "cat" ∷ [])
    ∷ answers_sdp (offering "lobby" "bob" ("cat" ∷ [])) "sdp"
    ∷ left "lobby" "cat" ("ann" ∷ "bob" ∷ [])
    ∷ leaves
    ∷ []

unused-NoLeak : NoLeak unused
unused-NoLeak = record { keys = tt; kept = λ n h. absurd (omega (arith, h)) }

act_all-NoLeak_example : NoLeak (act_all history unused)
act_all-NoLeak_example = act_all-NoLeak history unused unused-NoLeak

fresh-IsConsistent : IsConsistent fresh
fresh-IsConsistent = record {
  ringing_where = λ e. ground arith;
  ringing_who = λ e. ground arith;
  outgoing_call = λ e. ground arith;
  active_call = λ e. ground arith;
}

act_all-IsConsistent_example : IsConsistent (act_all history fresh)
act_all-IsConsistent_example = act_all-IsConsistent history fresh fresh-IsConsistent

-- the manager of a user in the call of the lobby
abbrev member : String → CallManager
member u = record fresh { self_user_id = some u; conversation_id = some "lobby" }

join_loop-covers_example :
    Covered (join_loop "lobby" ("bob" ∷ "cat" ∷ []) (member "ann")) "cat"
    ⊎ WillGoOn "lobby" "cat"
        (member "ann").tasks
        (join_loop "lobby" ("bob" ∷ "cat" ∷ []) (member "ann")).tasks
join_loop-covers_example =
    join_loop-covers "lobby" "cat" ("bob" ∷ "cat" ∷ []) (member "ann") (inr (inl refl))

ann_bob : ◌≢◌ {A = String} "ann" "bob"
unfolding String-discrete
ann_bob = ne_of_test "ann" "bob" refl

one_offers_example :
    any (is_offering "bob") (handle_call_joined "lobby" ("ann" ∷ "bob" ∷ []) (member "ann")).tasks
    ≡ not (
        any
          (is_offering "ann")
          (handle_call_joined "lobby" ("ann" ∷ "bob" ∷ []) (member "bob")).tasks)
unfolding String-discrete
one_offers_example =
    one_offers "lobby" "ann" "bob" (member "ann") (member "bob") ann_bob refl refl refl refl refl
      refl refl refl refl refl

ann_offers_test :
    any (is_offering "bob") (handle_call_joined "lobby" ("ann" ∷ "bob" ∷ []) (member "ann")).tasks
    ≡ true
unfolding handle_call_joined join_loop open_peer_connection get str_lt String-discrete
ann_offers_test = refl

-- ann is in a call with bob
abbrev talk : List Action
talk =
    sets_self "ann"
    ∷ start_call "lobby"
    ∷ answers_stream (starting "lobby") 7
    ∷ joined "lobby" ("ann" ∷ "bob" ∷ [])
    ∷ []

leave_lem_example :
    let w = act_all talk unused in
    IsOver (leave w)
    × In 0 (leave w).closed
    × In 7 (leave w).stopped
    × ((leave w).sent ≡ w.sent ++ call_leave "lobby" ∷ [])
unfolding act_all act set_self_user_id start started resume_stream got_stream handle_call_joined
    join_loop open_peer_connection get put str_lt String-discrete
leave_lem_example = leave_lem talk unused "lobby" 7 0 unused-NoLeak refl refl refl (omega arith)

abbrev busy : CallManager
busy = record fresh { store = record initial { status = active } }

busy_not_idle : busy.store.status ≢ idle
busy_not_idle = λ e. ground arith
