-- ===== src/Media/Writing.antt =====
-- Writing a message in frontend/src/components/messages/MessageComposer.tsx.
use bu3li_comms.Prelude.{
  ℕ, String, Bool, true, false, not, ◌&&◌, ◌==◌, ◌≡◌, sym, ◌∙◌, filter, leb, ltb, List, [], ◌∷◌,
  All, arith, Bool-cases, inl, inr,
}
use bu3li_comms.Composer.{
  Frame, typing_started, typing_stopped, message_read, TypingIndicator, stop_typing,
  elapse_indicator, run_stops,
}
use bu3li_comms.Composer.Indicator.{Told, Alternates, stop-Told, notify-Told, run_stops-Told}
use bu3li_comms.Media.{MessageComposer, is_blank, handle_change, submit, handle_key_down}

-- What happens to the text: it is changed, a key is pressed, the send button is clicked, or time passes.
pub data WritingEvent : Type 0 where
  changes : (now : ℕ) → (next : String) → WritingEvent
  presses : (key : String) → (has_shift : Bool) → WritingEvent
  clicks_send : WritingEvent
  elapses : (now : ℕ) → WritingEvent

stop_typing-stopped : (t : TypingIndicator) → (stop_typing t).is_typing ≡ false
unfolding stop_typing
stop_typing-stopped t = ground arith

run_stops-quiet :
    (ts : List (ℕ × ℕ)) (t : TypingIndicator)
    → t.is_typing ≡ false
    → (run_stops ts t).is_typing ≡ false
unfolding run_stops
run_stops-quiet [] t h = h
run_stops-quiet (x ∷ ts) t h = run_stops-quiet ts (stop_typing t) (stop_typing-stopped t)

elapse-still :
    (now : ℕ) (t : TypingIndicator)
    → t.is_typing ≡ false
    → (elapse_indicator now t).is_typing ≡ false
unfolding elapse_indicator
elapse-still now t h =
    run_stops-quiet (filter (λ x. leb x.1 now) t.timers)
      (record t { timers = filter (λ x. ltb now x.1) t.timers }) h

-- The newest frame is a start.
abbrev pub is_started : List Frame → Bool
is_started (typing_started c ∷ fs) = true
is_started _ = false

Told-is_started :
    (id : String) (t : TypingIndicator) → Told id t → is_started t.frames ≡ t.is_typing
Told-is_started id t h = newest t.frames h.1
  where
    newest : (fs : List Frame) → Alternates id t.is_typing fs → is_started fs ≡ t.is_typing
    newest [] a = sym a
    newest (typing_started c ∷ fs) (a, b, k) = sym a
    newest (typing_stopped c ∷ fs) (a, b, k) = sym a
    newest (message_read m ∷ fs) a = elim a [ ]

stop-quiet :
    (id : String) (t : TypingIndicator) → Told id t → is_started (stop_typing t).frames ≡ false
unfolding stop_typing
stop-quiet id t h = Told-is_started id (stop_typing t) (stop-Told id t h) ∙ stop_typing-stopped t

elapse-Told :
    (id : String) (now : ℕ) (t : TypingIndicator) → Told id t → Told id (elapse_indicator now t)
unfolding elapse_indicator
elapse-Told id now t h =
    run_stops-Told id (filter (λ x. leb x.1 now) t.timers)
      (record t { timers = filter (λ x. ltb now x.1) t.timers }) h

module _ (trim : String → String) where
  abbrev pub handle_writing : WritingEvent → MessageComposer → MessageComposer
  handle_writing (changes now next) s = handle_change trim now next s
  handle_writing (presses key has_shift) s = handle_key_down trim key has_shift s
  handle_writing clicks_send s = submit trim s
  handle_writing (elapses now) s = record s { typing = elapse_indicator now s.typing }

  abbrev pub write : List WritingEvent → MessageComposer → MessageComposer
  write [] s = s
  write (e ∷ es) s = write es (handle_writing e s)

  -- What the composer and its indicator have handed on: starts and stops of typing in turn, the newest no start
  -- while the field is blank, and texts that are trimmed and not empty.
  pub record IsComposed (id : String) (s : MessageComposer) : Type 0 where
    pub told : Told id s.typing
    pub quiet : is_blank trim s.value ≡ true → is_started s.typing.frames ≡ false
    pub worded : All (λ text. (trim text ≡ text) × ((text == "") ≡ false)) s.sent

  -- what the code relies on of `String.trim`
  pub record IsTrim : Type 0 where
    pub trim_twice : (text : String) → trim (trim text) ≡ trim text

  submit-IsComposed :
      IsTrim → (id : String) (s : MessageComposer) → IsComposed id s → IsComposed id (submit trim s)
  unfolding submit
  submit-IsComposed t id s h = elim (Bool-cases (is_blank trim s.value)) [
    | inl e ↦ rw (e, submit) h
    | inr e ↦
        let cleared : MessageComposer = record s {
          sent = trim s.value ∷ s.sent;
          value = "";
          typing = stop_typing s.typing;
        } in
        let after : submit trim s ≡ cleared = ground arith in
        rw (after) (record {
          told = stop-Told id s.typing h.told;
          quiet = λ b. stop-quiet id s.typing h.told;
          worded = ((t.trim_twice s.value, e), h.worded);
        })
  ]

  change-IsComposed :
      (now : ℕ) (next id : String) (s : MessageComposer)
      → IsComposed id s
      → IsComposed id (handle_change trim now next s)
  unfolding handle_change
  change-IsComposed now next id s h = elim (Bool-cases (is_blank trim next)) [
    | inl e ↦
        rw (e, handle_change)
          (record {
            told = stop-Told id s.typing h.told;
            quiet = λ b. stop-quiet id s.typing h.told;
            worded = h.worded;
          })
    | inr e ↦
        rw (e, handle_change)
          (record {
            told = notify-Told id now s.typing h.told;
            quiet = λ b. absurd (ground (arith, b, e));
            worded = h.worded;
          })
  ]

  elapse-quiet :
      (id : String) (now : ℕ) (t : TypingIndicator)
      → Told id t
      → is_started t.frames ≡ false
      → is_started (elapse_indicator now t).frames ≡ false
  elapse-quiet id now t h q =
      Told-is_started id (elapse_indicator now t) (elapse-Told id now t h)
      ∙ elapse-still now t (sym (Told-is_started id t h) ∙ q)

  handle_writing-IsComposed :
      IsTrim
      → (e : WritingEvent) (id : String) (s : MessageComposer) → IsComposed id s
      → IsComposed id (handle_writing e s)
  unfolding handle_key_down
  handle_writing-IsComposed t (changes now next) id s h = change-IsComposed now next id s h
  handle_writing-IsComposed t (presses key has_shift) id s h =
      elim (Bool-cases (key == "Enter" && not has_shift)) [
        | inl e ↦ rw (e, handle_key_down) (submit-IsComposed t id s h)
        | inr e ↦ rw (e, handle_key_down) h
      ]
  handle_writing-IsComposed t clicks_send id s h = submit-IsComposed t id s h
  handle_writing-IsComposed t (elapses now) id s h = record {
    told = elapse-Told id now s.typing h.told;
    quiet = λ b. elapse-quiet id now s.typing h.told (h.quiet b);
    worded = h.worded;
  }

  -- If trimming twice is trimming once, then in every sequence of changes, keys, clicks and timeouts what is
  -- handed to the connection's `send` is starts and stops of typing in turn, of which the newest is no start
  -- while the field is blank, and each text that is sent as a message is trimmed and not empty, if these hold
  -- at first.
  pub write-IsComposed :
      IsTrim
      → (es : List WritingEvent) (id : String) (s : MessageComposer) → IsComposed id s
      → IsComposed id (write es s)
  write-IsComposed t [] id s h = h
  write-IsComposed t (e ∷ es) id s h =
      write-IsComposed t es id (handle_writing e s) (handle_writing-IsComposed t e id s h)
