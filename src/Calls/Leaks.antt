-- ===== src/Calls/Leaks.antt =====
-- The connections of a call in frontend/src/calls/callManager.ts, over every action of Calls/Steps.
use bu3li_comms.Prelude.{
  ℕ, String, false, ◌||◌, if◌then◌else◌, ◌≡◌, inl, inr, Option, none, some, List, [], ◌∷◌, get,
  Bool-cases, Option-cases, arith,
}
use bu3li_comms.Calls.{
  CallManager, Task, starting, accepting, offering, answering, start, accept, leave, started,
  accepted, or_else, is_truthy, is_call, set_self_user_id, decline, toggle_mute, toggle_deafen,
  call_leave, emit, offer, answer, PeerOp, remote_answer, add_candidate,
}
use bu3li_comms.Calls.Handlers.{
  handle_call_created, handle_call_ended, handle_call_joined, handle_call_left, handle_offer,
  handle_answer, handle_ice_candidate, on_ice_candidate, on_track, resume_stream, resume_sdp,
  got_stream, open_peer_connection, join_loop, has_peer, is_self, offers_to, ask_peer,
}
use bu3li_comms.Calls.Steps.{
  Action, sets_self, start_call, accepts, declines, leaves, toggles_mute, toggles_deafen, created,
  ended, joined, left, offered, answered, candidate, found_candidate, got_track, answers_stream,
  answers_sdp, act, act_all,
}
use bu3li_comms.Calls.Peers.{NoLeak, open-NoLeak, close-NoLeak, teardown-NoLeak}

-- `w'` has the connections of `w`.
abbrev SamePeers : CallManager → CallManager → Type 0
SamePeers w w' = (w'.peers ≡ w.peers) × (w'.closed ≡ w.closed) × (w'.next_peer ≡ w.next_peer)

same-NoLeak : (w w' : CallManager) → SamePeers w w' → NoLeak w → NoLeak w'
same-NoLeak w w' (p, c, n) v = rw (p, c, n) v

start-SamePeers : (c : String) (w : CallManager) → SamePeers w (start c w)
unfolding start started
start-SamePeers c w = ground arith

accept-SamePeers : (w : CallManager) → SamePeers w (accept w)
unfolding accept accepted
accept-SamePeers w = ground arith

created-SamePeers : (c u : String) (w : CallManager) → SamePeers w (handle_call_created c u w)
unfolding handle_call_created
created-SamePeers c u w = ground arith

ask_peer-SamePeers :
    (c u : String) (op : PeerOp) (w : CallManager) → SamePeers w (ask_peer c u op w)
ask_peer-SamePeers c u op w = ground arith

found-SamePeers :
    (u : String) (o : Option String) (w : CallManager) → SamePeers w (on_ice_candidate u o w)
unfolding on_ice_candidate
found-SamePeers u none w = ground arith
found-SamePeers u (some body) w = ground arith

leave-NoLeak : (w : CallManager) → NoLeak w → NoLeak (leave w)
unfolding leave
leave-NoLeak w v = elim (Option-cases (or_else w.conversation_id w.store.conversation_id)) [
  | inl e ↦ rw (e, leave) (teardown-NoLeak w v)
  | inr (c, e) ↦ elim (Bool-cases (is_truthy c)) [
    | inl t ↦ rw (e, leave, t) (teardown-NoLeak (emit (call_leave c) w) v)
    | inr t ↦ rw (e, leave, t) (teardown-NoLeak w v)
  ]
]

ended-NoLeak : (c : String) (w : CallManager) → NoLeak w → NoLeak (handle_call_ended c w)
unfolding handle_call_ended
ended-NoLeak c w v = elim (Bool-cases (is_call c w)) [
  | inl e ↦ rw e (teardown-NoLeak w v)
  | inr e ↦ rw e v
]

left-NoLeak :
    (c u : String) (ps : List String) (w : CallManager)
    → NoLeak w
    → NoLeak (handle_call_left c u ps w)
unfolding handle_call_left
left-NoLeak c u ps w v = elim (Bool-cases (is_call c w)) [
  | inl e ↦ rw e (close-NoLeak u w v)
  | inr e ↦ rw e v
]

no_peer : (p : String) (w : CallManager) → has_peer p w ≡ false → get p w.peers ≡ none
no_peer p w e = ground arith

join_loop-NoLeak :
    (c : String) (ps : List String) (w : CallManager) → NoLeak w → NoLeak (join_loop c ps w)
unfolding join_loop
join_loop-NoLeak c [] w v = v
join_loop-NoLeak c (p ∷ ps) w v = elim (Bool-cases (is_self p w || has_peer p w)) [
  | inl e ↦ rw e (join_loop-NoLeak c ps w v)
  | inr e ↦
      let opened = open-NoLeak p w (no_peer p w (ground arith)) v in
      elim (Bool-cases (offers_to p w)) [
        | inl o ↦ rw (e, o) opened
        | inr o ↦ rw (e, o) (join_loop-NoLeak c ps (open_peer_connection p w) opened)
      ]
]

joined-NoLeak :
    (c : String) (ps : List String) (w : CallManager)
    → NoLeak w
    → NoLeak (handle_call_joined c ps w)
unfolding handle_call_joined
joined-NoLeak c ps w v = elim (Bool-cases (is_call c w)) [
  | inr e ↦ rw e v
  | inl e ↦ elim (Option-cases w.self_user_id) [
    | inl n ↦ rw (e, n) v
    | inr (u, n) ↦ elim (Bool-cases (is_truthy u)) [
      | inl t ↦ rw (e, n, t) (join_loop-NoLeak c ps _ v)
      | inr t ↦ rw (e, n, t) v
    ]
  ]
]

offered-NoLeak : (c u sdp : String) (w : CallManager) → NoLeak w → NoLeak (handle_offer c u sdp w)
unfolding handle_offer
offered-NoLeak c u sdp w v = elim (Bool-cases (is_call c w)) [
  | inr e ↦ rw e v
  | inl e ↦ elim (Option-cases (get u w.peers)) [
    | inl n ↦ rw (e, n) (open-NoLeak u w n v)
    | inr (pc, n) ↦ rw (e, n) v
  ]
]

resume_stream-NoLeak :
    (task : Task) (stream : ℕ) (w : CallManager) → NoLeak w → NoLeak (resume_stream task stream w)
unfolding resume_stream started accepted got_stream
resume_stream-NoLeak (starting c) stream w v = v
resume_stream-NoLeak (accepting c) stream w v = v
resume_stream-NoLeak (offering c p rest) stream w v = v
resume_stream-NoLeak (answering c u) stream w v = v

resume_sdp-NoLeak :
    (task : Task) (sdp : String) (w : CallManager) → NoLeak w → NoLeak (resume_sdp task sdp w)
unfolding resume_sdp
resume_sdp-NoLeak (starting c) sdp w v = v
resume_sdp-NoLeak (accepting c) sdp w v = v
resume_sdp-NoLeak (offering c p rest) sdp w v =
    let w' = if is_truthy sdp then emit (offer c p sdp) w else w in
    join_loop-NoLeak c rest w' (same-NoLeak w w' (ground arith) v)
resume_sdp-NoLeak (answering c u) sdp w v =
    same-NoLeak w (if is_truthy sdp then emit (answer c u sdp) w else w) (ground arith) v

act-NoLeak : (a : Action) (w : CallManager) → NoLeak w → NoLeak (act a w)
unfolding act set_self_user_id decline toggle_mute toggle_deafen handle_answer handle_ice_candidate
    on_track
act-NoLeak (sets_self u) w v = v
act-NoLeak (start_call c) w v = same-NoLeak w (start c w) (start-SamePeers c w) v
act-NoLeak accepts w v = same-NoLeak w (accept w) (accept-SamePeers w) v
act-NoLeak declines w v = v
act-NoLeak leaves w v = leave-NoLeak w v
act-NoLeak toggles_mute w v = v
act-NoLeak toggles_deafen w v = v
act-NoLeak (created c u) w v = same-NoLeak w (handle_call_created c u w) (created-SamePeers c u w) v
act-NoLeak (ended c) w v = ended-NoLeak c w v
act-NoLeak (joined c ps) w v = joined-NoLeak c ps w v
act-NoLeak (left c u ps) w v = left-NoLeak c u ps w v
act-NoLeak (offered c u sdp) w v = offered-NoLeak c u sdp w v
act-NoLeak (answered c u sdp) w v =
    same-NoLeak w (ask_peer c u (remote_answer sdp) w)
      (ask_peer-SamePeers c u (remote_answer sdp) w) v
act-NoLeak (candidate c u body) w v =
    same-NoLeak w (ask_peer c u (add_candidate body) w)
      (ask_peer-SamePeers c u (add_candidate body) w) v
act-NoLeak (found_candidate u o) w v =
    same-NoLeak w (on_ice_candidate u o w) (found-SamePeers u o w) v
act-NoLeak (got_track u none) w v = v
act-NoLeak (got_track u (some stream)) w v = v
act-NoLeak (answers_stream task stream) w v = resume_stream-NoLeak task stream w v
act-NoLeak (answers_sdp task sdp) w v = resume_sdp-NoLeak task sdp w v

-- Whatever happens in a call, and however the browser's answers fall, if before no participant has two
-- peer connections and every one created is held for a participant or closed, then so it is afterwards.
pub act_all-NoLeak :
    (actions : List Action) (w : CallManager) → NoLeak w → NoLeak (act_all actions w)
unfolding act_all
act_all-NoLeak [] w v = v
act_all-NoLeak (a ∷ rest) w v = act_all-NoLeak rest (act a w) (act-NoLeak a w v)
