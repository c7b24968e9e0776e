-- ===== src/Composer.antt =====
-- frontend/src/hooks/useTypingIndicator.ts and frontend/src/hooks/useReadReceipts.ts: what an open
-- conversation hands to the connection for the server. A ref of a hook is a field; the host keeps the timeouts that have not run
-- (handle and time). `frames` holds what is handed to the connection's `send`, newest first;
-- `send` drops it while the connection is not open.
pub mod Indicator
pub mod Receipts
pub mod Tests
use bu3li_comms.Prelude.{
  ℕ, ◌+◌, leb, ltb, eqb, String, Bool, true, false, not, ◌&&◌, ◌==◌, if◌then◌else◌, Option, none,
  some, List, [], ◌∷◌, ◌++◌, filter,
}
use bu3li_comms.Message.{ChatMessage, MessageStatus, sent}

pub data Frame : Type 0 where
  typing_started typing_stopped : (conversation_id : String) → Frame
  message_read : (message_id : String) → Frame

pub record TypingIndicator : Type 0 where
  pub conversation_id : String
  pub is_typing : Bool
  pub timeout : Option ℕ
  pub timers : List (ℕ × ℕ)
  pub next_handle : ℕ
  pub frames : List Frame

abbrev pub stop_delay_ms : ℕ
stop_delay_ms = 1500

abbrev pub clear_ref : Option ℕ → List (ℕ × ℕ) → List (ℕ × ℕ)
clear_ref none timers = timers
clear_ref (some handle) timers = filter (λ t. not (eqb t.0 handle)) timers

unfoldable pub stop_typing : TypingIndicator → TypingIndicator
stop_typing s =
    let cleared : TypingIndicator = record s {
      timers = clear_ref s.timeout s.timers;
      timeout = none;
    } in
    if s.is_typing
    then record cleared { is_typing = false; frames = typing_stopped s.conversation_id ∷ s.frames }
    else cleared

unfoldable pub notify_typing : ℕ → TypingIndicator → TypingIndicator
notify_typing now s = record s {
  is_typing = true;
  frames = if s.is_typing then s.frames else typing_started s.conversation_id ∷ s.frames;
  timers = clear_ref s.timeout s.timers ++ (s.next_handle, now + stop_delay_ms) ∷ [];
  timeout = some s.next_handle;
  next_handle = s.next_handle + 1;
}

-- the host: each timeout that is due runs `stop_typing`
unfoldable pub run_stops : List (ℕ × ℕ) → TypingIndicator → TypingIndicator
run_stops [] s = s
run_stops (t ∷ ts) s = run_stops ts (stop_typing s)

unfoldable pub elapse_indicator : ℕ → TypingIndicator → TypingIndicator
elapse_indicator now s =
    run_stops (filter (λ t. leb t.1 now) s.timers)
      (record s { timers = filter (λ t. ltb now t.1) s.timers })

pub record ReadMarker : Type 0 where
  pub last_marked : Option String
  pub frames : List Frame

abbrev pub is_sent : MessageStatus → Bool
is_sent sent = true
is_sent _ = false

-- the loop: the last message of another user that the server has confirmed
unfoldable pub last_incoming : String → Option String → List ChatMessage → Option String
last_incoming user found [] = found
last_incoming user found (m ∷ ms) =
    last_incoming user (if not (m.sender_id == user) && is_sent m.status then some m.id else found)
      ms

abbrev pub is_marked : Option String → String → Bool
is_marked none id = false
is_marked (some last) id = last == id

-- `markLatestIncomingRead`
unfoldable pub mark_latest_incoming_read :
    String → Bool → List ChatMessage → ReadMarker → ReadMarker
mark_latest_incoming_read user is_visible messages s =
    if not is_visible then s else elim (last_incoming user none messages) [
      | none ↦ s
      | some id ↦
          if is_marked s.last_marked id
          then s
          else record { last_marked = some id; frames = message_read id ∷ s.frames }
    ]
