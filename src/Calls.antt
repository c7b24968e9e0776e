-- ===== src/Calls.antt =====
-- frontend/src/stores/callStore.ts and frontend/src/calls/callManager.ts: one voice call over direct
-- connections to every other participant. Streams and peer connections are numbers that the browser
-- gives. An `await` suspends a method: what is left of it is an entry of `tasks`, and the browser's
-- answer resumes it, in any order and among other calls and events.
pub mod Handlers
pub mod Steps
pub mod Peers
pub mod Leaks
pub mod Offers
pub mod Leaving
pub mod Incoming
pub mod Tests
use bu3li_comms.Prelude.{
  ℕ, ◌+◌, String, Bool, true, false, not, ◌==◌, ◌&&◌, ◌||◌, if◌then◌else◌, Option, none, some, List,
  [], ◌∷◌, ◌++◌, map, Dict, get, put, del,
}
use bu3li_comms.Utf16.{str_lt}

pub data CallStatus : Type 0 where
  idle outgoing incoming active : CallStatus

pub record CallStore : Type 0 where
  pub status : CallStatus
  pub conversation_id : Option String
  pub caller_id : Option String
  pub participant_ids : List String
  pub remote_streams : Dict ℕ
  pub local_stream : Option ℕ
  pub is_muted : Bool
  pub is_deafened : Bool
  pub is_expanded : Bool

abbrev pub initial : CallStore
initial = record {
  status = idle;
  conversation_id = none;
  caller_id = none;
  participant_ids = [];
  remote_streams = [];
  local_stream = none;
  is_muted = false;
  is_deafened = false;
  is_expanded = false;
}

abbrev pub set_incoming : String → String → CallStore → CallStore
set_incoming conversation_id caller_id s = record s {
  status = incoming;
  conversation_id = some conversation_id;
  caller_id = some caller_id;
}

abbrev pub set_outgoing : String → CallStore → CallStore
set_outgoing conversation_id s = record s {
  status = outgoing;
  conversation_id = some conversation_id;
  caller_id = none;
}

abbrev pub set_participants : List String → CallStore → CallStore
set_participants participant_ids s = record s { status = active; participant_ids = participant_ids }

abbrev pub set_remote_stream : String → ℕ → CallStore → CallStore
set_remote_stream user_id stream s = record s {
  remote_streams = put user_id stream s.remote_streams;
}

abbrev pub remove_remote_stream : String → CallStore → CallStore
remove_remote_stream user_id s = record s { remote_streams = del user_id s.remote_streams }

-- calls/signaling.ts: the frames that the call sends
pub data Signal : Type 0 where
  call_join call_leave : (conversation_id : String) → Signal
  offer answer : (conversation_id target_user_id sdp : String) → Signal
  ice_candidate : (conversation_id target_user_id candidate : String) → Signal

-- What a suspended method waits for, and what it does then.
pub data Task : Type 0 where
  starting accepting : (conversation_id : String) → Task
  offering : (conversation_id participant_id : String) → (rest : List String) → Task
  answering : (conversation_id from_user_id : String) → Task

-- What is asked of a peer connection.
pub data PeerOp : Type 0 where
  remote_offer remote_answer add_candidate : String → PeerOp

pub record CallManager : Type 0 where
  pub store : CallStore
  pub self_user_id : Option String
  pub conversation_id : Option String
  pub local_stream : Option ℕ
  pub peers : Dict ℕ
  pub next_peer : ℕ
  pub closed : List ℕ
  pub stopped : List ℕ
  pub enabled : Bool
  pub sent : List Signal
  pub asked : List (ℕ × PeerOp)
  pub tasks : List Task

abbrev pub emit : Signal → CallManager → CallManager
emit signal w = record w { sent = w.sent ++ signal ∷ [] }

abbrev pub suspend : Task → CallManager → CallManager
suspend task w = record w { tasks = w.tasks ++ task ∷ [] }

abbrev pub in_store : (CallStore → CallStore) → CallManager → CallManager
in_store f w = record w { store = f w.store }

-- The call is that of the conversation.
abbrev pub is_call : String → CallManager → Bool
is_call conversation_id w = elim w.conversation_id [ none ↦ false | some c ↦ c == conversation_id ]

-- an empty text is falsy
abbrev pub is_truthy : String → Bool
is_truthy s = not (s == "")

unfoldable pub set_self_user_id : String → CallManager → CallManager
set_self_user_id user_id w = record w { self_user_id = some user_id }

-- the rest of `start` and of `accept`, once there is a stream
unfoldable pub started : String → CallManager → CallManager
started conversation_id w = emit (call_join conversation_id) (record w {
  conversation_id = some conversation_id;
  store = set_outgoing conversation_id w.store;
})

unfoldable pub accepted : String → CallManager → CallManager
accepted conversation_id w =
    emit (call_join conversation_id) (record w { conversation_id = some conversation_id })

-- `acquireLocalStream` returns at once if there is a stream, and else waits for the microphone
unfoldable pub start : String → CallManager → CallManager
start conversation_id w = elim w.local_stream [
  | some stream ↦ started conversation_id w
  | none ↦ suspend (starting conversation_id) w
]

unfoldable pub accept : CallManager → CallManager
accept w = elim w.store.conversation_id [
  | none ↦ w
  | some conversation_id ↦ if not (is_truthy conversation_id) then w else elim w.local_stream [
    | some stream ↦ accepted conversation_id w
    | none ↦ suspend (accepting conversation_id) w
  ]
]

unfoldable pub decline : CallManager → CallManager
decline w = record w { store = initial }

-- the tracks of a stream that is stopped
abbrev pub stop_stream : Option ℕ → List ℕ → List ℕ
stop_stream none stopped = stopped
stop_stream (some stream) stopped = stream ∷ stopped

unfoldable pub teardown : CallManager → CallManager
teardown w = record w {
  closed = map (λ p. p.1) w.peers ++ w.closed;
  peers = [];
  stopped = stop_stream w.local_stream w.stopped;
  local_stream = none;
  conversation_id = none;
  store = initial;
}

-- `this.conversationId ?? useCallStore.getState().conversationId`
abbrev pub or_else : Option String → Option String → Option String
or_else none o = o
or_else (some c) o = some c

unfoldable pub leave : CallManager → CallManager
leave w = elim (or_else w.conversation_id w.store.conversation_id) [
  | none ↦ teardown w
  | some conversation_id ↦
      if is_truthy conversation_id
      then teardown (emit (call_leave conversation_id) w)
      else teardown w
]

-- the audio tracks of the local stream are enabled or not, if there is a stream
unfoldable pub toggle_mute : CallManager → CallManager
toggle_mute w =
    let next_muted : Bool = not w.store.is_muted in
    record w {
      enabled = elim w.local_stream [ none ↦ w.enabled | some stream ↦ not next_muted ];
      store = record w.store { is_muted = next_muted };
    }

unfoldable pub toggle_deafen : CallManager → CallManager
toggle_deafen w = record w { store = record w.store { is_deafened = not w.store.is_deafened } }
