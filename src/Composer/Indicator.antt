-- ===== src/Composer/Indicator.antt =====
-- What `useTypingIndicator` of frontend/src/hooks/useTypingIndicator.ts hands to the connection's `send`, which
-- drops it while the connection is not open.
use bu3li_comms.Prelude.{
  ℕ, ◌+◌, leb, String, Bool, true, false, ◌≡◌, refl, Option, none, some, List, [], ◌∷◌, arith,
  Bool-cases, inl, inr,
}
use bu3li_comms.Typing.Spec.{unless_past, is_some}
use bu3li_comms.Composer.{
  Frame, typing_started, typing_stopped, message_read, TypingIndicator, stop_delay_ms, stop_typing,
  notify_typing, run_stops, elapse_indicator,
}

-- The user types, stops (or leaves the conversation), or the host runs what is due.
pub data Input : Type 0 where
  types stops ticks : Input

unfoldable pub after_input : TypingIndicator → ℕ × Input → TypingIndicator
after_input s (now, types) = notify_typing now s
after_input s (now, stops) = stop_typing s
after_input s (now, ticks) = elapse_indicator now s

unfoldable pub after_inputs : TypingIndicator → List (ℕ × Input) → TypingIndicator
after_inputs s [] = s
after_inputs s (i ∷ is) = after_inputs (after_input s i) is

abbrev pub quiet_indicator : String → TypingIndicator
quiet_indicator id = record {
  conversation_id = id;
  is_typing = false;
  timeout = none;
  timers = [];
  next_handle = 1;
  frames = [];
}

-- The frames are starts and stops of the conversation in turn, a start first; `is_typing` says whether the
-- newest is a start.
abbrev pub Alternates : String → Bool → List Frame → Type 0
Alternates id is_typing [] = is_typing ≡ false
Alternates id is_typing (typing_started c ∷ fs) =
    (is_typing ≡ true) × (c ≡ id) × Alternates id false fs
Alternates id is_typing (typing_stopped c ∷ fs) =
    (is_typing ≡ false) × (c ≡ id) × Alternates id true fs
Alternates id is_typing (message_read m ∷ fs) = ⊥

-- The deadline at which the indicator stops.
abbrev pub deadline_after : Option ℕ → ℕ × Input → Option ℕ
deadline_after d (now, types) = some (now + stop_delay_ms)
deadline_after d (now, stops) = none
deadline_after d (now, ticks) = unless_past now d

abbrev pub deadline_of : Option ℕ → List (ℕ × Input) → Option ℕ
deadline_of d [] = d
deadline_of d (i ∷ is) = deadline_of (deadline_after d i) is

-- The one timeout that waits is that of the deadline.
abbrev Timed : TypingIndicator → Option ℕ → Type 0
Timed s none = (s.timeout ≡ none) × (s.timers ≡ []) × (s.is_typing ≡ false)
Timed s (some d) =
    (handle : ℕ) × (s.timeout ≡ some handle) × (s.timers ≡ (handle, d) ∷ []) × (s.is_typing ≡ true)

-- What has been handed to `send` fits the state.
abbrev pub Told : String → TypingIndicator → Type 0
Told id s = (s.conversation_id ≡ id) × Alternates id s.is_typing s.frames

stop-Timed : (s : TypingIndicator) (d : Option ℕ) → Timed s d → Timed (stop_typing s) none
unfolding stop_typing
stop-Timed s none h = ground arith
stop-Timed s (some d) h = ground arith

notify-Timed :
    (now : ℕ) (s : TypingIndicator) (d : Option ℕ)
    → Timed s d
    → Timed (notify_typing now s) (some (now + stop_delay_ms))
unfolding notify_typing
notify-Timed now s none h = (s.next_handle, refl, ground arith, refl)
notify-Timed now s (some d) h = (s.next_handle, refl, ground arith, refl)

elapse-Timed :
    (now : ℕ) (s : TypingIndicator) (d : Option ℕ)
    → Timed s d
    → Timed (elapse_indicator now s) (unless_past now d)
unfolding elapse_indicator run_stops stop_typing
elapse-Timed now s none h = ground arith
elapse-Timed now s (some d) (handle, t, l, y) = elim (Bool-cases (leb d now)) [
  | inl e ↦ ground arith
  | inr e ↦ rw (l, e) (handle, t, ground arith, y)
]

pub stop-Told : (id : String) (s : TypingIndicator) → Told id s → Told id (stop_typing s)
unfolding stop_typing
stop-Told id s h = ground arith

pub notify-Told :
    (id : String) (now : ℕ) (s : TypingIndicator) → Told id s → Told id (notify_typing now s)
unfolding notify_typing
notify-Told id now s h = ground arith

pub run_stops-Told :
    (id : String) (ts : List (ℕ × ℕ)) (s : TypingIndicator) → Told id s → Told id (run_stops ts s)
unfolding run_stops
run_stops-Told id [] s h = h
run_stops-Told id (t ∷ ts) s h = run_stops-Told id ts (stop_typing s) (stop-Told id s h)

Timed-is_typing : (s : TypingIndicator) (d : Option ℕ) → Timed s d → s.is_typing ≡ is_some d
Timed-is_typing s none (t, l, y) = y
Timed-is_typing s (some d) (handle, t, l, y) = y

run-Timed :
    (inputs : List (ℕ × Input)) (s : TypingIndicator) (d : Option ℕ)
    → Timed s d
    → Timed (after_inputs s inputs) (deadline_of d inputs)
unfolding after_inputs after_input
run-Timed [] s d h = h
run-Timed ((now, types) ∷ is) s d h = run-Timed is _ _ (notify-Timed now s d h)
run-Timed ((now, stops) ∷ is) s d h = run-Timed is _ _ (stop-Timed s d h)
run-Timed ((now, ticks) ∷ is) s d h = run-Timed is _ _ (elapse-Timed now s d h)

run-Told :
    (id : String) (inputs : List (ℕ × Input)) (s : TypingIndicator)
    → Told id s
    → Told id (after_inputs s inputs)
unfolding after_inputs after_input elapse_indicator
run-Told id [] s h = h
run-Told id ((now, types) ∷ is) s h = run-Told id is _ (notify-Told id now s h)
run-Told id ((now, stops) ∷ is) s h = run-Told id is _ (stop-Told id s h)
run-Told id ((now, ticks) ∷ is) s h = run-Told id is _ (run_stops-Told id _ _ h)

-- After any sequence of inputs the user counts as typing exactly while there is a deadline, a second and a
-- half after the last key, that neither a stop nor a host turn has ended.
pub is_typing-after_inputs :
    (id : String) (inputs : List (ℕ × Input))
    → (after_inputs (quiet_indicator id) inputs).is_typing ≡ is_some (deadline_of none inputs)
is_typing-after_inputs id inputs =
    Timed-is_typing (after_inputs (quiet_indicator id) inputs) _
      (run-Timed inputs (quiet_indicator id) none (refl, refl, refl))

-- After any sequence of inputs what has been handed to `send` is starts and stops in turn, a start first, all
-- of the conversation, and the newest is a start exactly if the user counts as typing.
pub frames-Alternates :
    (id : String) (inputs : List (ℕ × Input))
    → let s = after_inputs (quiet_indicator id) inputs in Alternates id s.is_typing s.frames
frames-Alternates id inputs = (run-Told id inputs (quiet_indicator id) (refl, refl)).1
