-- ===== src/Typing/Spec.antt =====
-- The specification of frontend/src/stores/typingStore.ts: each pair has at most one deadline, five
-- seconds after its last start, and is to be shown as typing while it has one.
use bu3li_comms.Prelude.{
  ℕ, ◌+◌, leb, ltb, String, Bool, true, false, not, ◌&&◌, ◌==◌, if◌then◌else◌, Option, none, some,
  List, [], ◌∷◌,
}
use bu3li_comms.Typing.{TypingStore, set_typing, elapse, typing_expiry_ms}
use bu3li_comms.Typing.Keys.{NoColon}

-- `typing.started` and `typing.stopped` for a pair, and the host at the time of the event.
pub data Event : Type 0 where
  signal : (conversation_id user_id : String) → (is_typing : Bool) → Event
  tick : Event

unfoldable pub step : TypingStore → ℕ × Event → TypingStore
step s (now, signal c u is_typing) = set_typing now c u is_typing s
step s (now, tick) = elapse now s

unfoldable pub run : TypingStore → List (ℕ × Event) → TypingStore
run s [] = s
run s (e ∷ es) = run (step s e) es

abbrev pub Deadlines : Type 0
Deadlines = String → String → Option ℕ

abbrev pub no_deadlines : Deadlines
no_deadlines c u = none

abbrev pub with_deadline : String → String → Option ℕ → Deadlines → Deadlines
with_deadline c u d deadlines c' u' = if c == c' && u == u' then d else deadlines c' u'

abbrev pub unless_past : ℕ → Option ℕ → Option ℕ
unless_past now none = none
unless_past now (some d) = if leb d now then none else some d

abbrev pub spec_step : Deadlines → ℕ × Event → Deadlines
spec_step deadlines (now, signal c u true) =
    with_deadline c u (some (now + typing_expiry_ms)) deadlines
spec_step deadlines (now, signal c u false) = with_deadline c u none deadlines
spec_step deadlines (now, tick) = λ c u. unless_past now (deadlines c u)

abbrev pub spec_run : Deadlines → List (ℕ × Event) → Deadlines
spec_run deadlines [] = deadlines
spec_run deadlines (e ∷ es) = spec_run (spec_step deadlines e) es

abbrev pub is_some : Option ℕ → Bool
is_some none = false
is_some (some d) = true

-- The conversations' ids hold no colon (the server's are UUIDs).
abbrev pub HasPlainIds : List (ℕ × Event) → Type 0
HasPlainIds [] = Unit
HasPlainIds ((now, signal c u b) ∷ es) = NoColon c × HasPlainIds es
HasPlainIds ((now, tick) ∷ es) = HasPlainIds es

-- The events hold no signal of the pair.
abbrev pub is_quiet : String → String → List (ℕ × Event) → Bool
is_quiet c u [] = true
is_quiet c u ((now, signal c' u' b) ∷ es) = not (c' == c && u' == u) && is_quiet c u es
is_quiet c u ((now, tick) ∷ es) = is_quiet c u es

-- The host has not reached the time `d` in the events.
abbrev pub all_before : ℕ → List (ℕ × Event) → Bool
all_before d [] = true
all_before d ((now, signal c u b) ∷ es) = all_before d es
all_before d ((now, tick) ∷ es) = ltb now d && all_before d es
