-- ===== src/Typing/Refinement.antt =====
-- The runs of frontend/src/stores/typingStore.ts, and those of its specification.
use bu3li_comms.Prelude.{
  ℕ, ◌+◌, leb, String, Bool, true, false, if◌then◌else◌, ◌≡◌, refl, sym, subst, ap₂, ◌∙◌, inl, inr,
  none, some, List, [], ◌∷◌, In-filter, In-of_any, any_of_In, any, filter, get, Option-cases,
  Bool-cases, arith,
}
use bu3li_comms.Typing.{Timer, TypingStore, set_typing, elapse, initial, typing_expiry_ms}
use bu3li_comms.Typing.Keys.{NoColon}
use bu3li_comms.Typing.View.{is_typing, is_for, is_typing-set_typing, is_typing-elapse}
use bu3li_comms.Typing.Expiry.{IsArmed, some-eq, set_typing-IsArmed, elapse-IsArmed}
use bu3li_comms.Typing.Spec.{
  Event, signal, tick, step, run, Deadlines, no_deadlines, with_deadline, unless_past, spec_run,
  is_some, HasPlainIds, is_quiet, all_before,
}

record Refines (s : TypingStore) (D : Deadlines) : Type 0 where
  armed : IsArmed s D
  view : (c u : String) → is_typing c u s ≡ is_some (D c u)

initial-Refines : Refines initial no_deadlines
unfolding get
initial-Refines = record {
  armed = record {
    plain = λ t i. elim i [ ];
    registered = λ t i. elim i [ ];
    dated = λ t i. elim i [ ];
    fresh = λ t i. elim i [ ];
    owned = λ k h e. absurd (cc);
    live = λ c u d e. absurd (cc);
    unique = λ t t' i i' e. elim i [ ];
  };
  view = λ c u. refl;
}

set_typing-Refines :
    (now : ℕ) (c u : String) (b : Bool) (s : TypingStore) (D : Deadlines)
    → NoColon c
    → Refines s D
    → Refines
        (set_typing now c u b s)
        (with_deadline c u (if b then some (now + typing_expiry_ms) else none) D)
set_typing-Refines now c u b s D p r = record {
  armed = set_typing-IsArmed now c u b s D p r.armed;
  view = λ c' u'. ground (arith, is_typing-set_typing now c u b c' u' s, r.view c' u');
}

is_for-pair :
    (c u : String) (t : Timer) → is_for c u t ≡ true → (t.conversation_id ≡ c) × (t.user_id ≡ u)
is_for-pair c u t e = ground arith

any-due :
    (now : ℕ) (c u : String) (d : ℕ) (s : TypingStore) (D : Deadlines)
    → IsArmed s D
    → D c u ≡ some d
    → any (is_for c u) (filter (λ t. leb t.due now) s.timers) ≡ leb d now
any-due now c u d s D a e =
    elim (Bool-cases (any (is_for c u) (filter (λ t. leb t.due now) s.timers))) [
      | inl q ↦
          let (t, i, f) = In-of_any (is_for c u) (filter (λ t. leb t.due now) s.timers) q in
          let (j, l) = (In-filter (λ t. leb t.due now) t s.timers).0 i in
          let (ec, eu) = is_for-pair c u t f in
          let same : t.due ≡ d = some-eq t.due d (sym (a.dated t j) ∙ ap₂ D ec eu ∙ e) in
          q ∙ sym (subst (λ k. leb k now ≡ true) same l)
      | inr q ↦
          let (t, i, ec, eu) = a.live c u d e in
          let same : t.due ≡ d = some-eq t.due d (sym (a.dated t i) ∙ ap₂ D ec eu ∙ e) in
          elim (Bool-cases (leb d now)) [
            | inr l ↦ q ∙ sym l
            | inl l ↦
                let in_due =
                  (In-filter (λ t. leb t.due now) t s.timers).1
                    (i, subst (λ k. leb k now ≡ true) (sym same) l) in
                ground
                  (arith, any_of_In (is_for c u) t (filter (λ t. leb t.due now) s.timers) in_due)
          ]
    ]

elapse-Refines :
    (now : ℕ) (s : TypingStore) (D : Deadlines)
    → Refines s D
    → Refines (elapse now s) (λ c u. unless_past now (D c u))
elapse-Refines now s D r = record {
  armed = elapse-IsArmed now s D r.armed;
  view = λ c u. elim (Option-cases (D c u)) [
    | inl e ↦ ground (arith, is_typing-elapse now c u s, r.view c u)
    | inr (d, e) ↦
        ground (arith, is_typing-elapse now c u s, r.view c u, any-due now c u d s D r.armed e)
  ];
}

run-Refines :
    (es : List (ℕ × Event)) (s : TypingStore) (D : Deadlines)
    → HasPlainIds es
    → Refines s D
    → Refines (run s es) (spec_run D es)
unfolding run step
run-Refines [] s D p r = r
run-Refines ((now, signal c u true) ∷ es) s D (n, p) r =
    run-Refines es _ _ p (set_typing-Refines now c u true s D n r)
run-Refines ((now, signal c u false) ∷ es) s D (n, p) r =
    run-Refines es _ _ p (set_typing-Refines now c u false s D n r)
run-Refines ((now, tick) ∷ es) s D p r = run-Refines es _ _ p (elapse-Refines now s D r)

-- After any sequence of signals and of host turns, in conversations whose ids hold no colon, a pair is
-- shown as typing exactly when it has a deadline: its last start was not followed by a stop, nor by
-- a host turn five seconds or more after it.
pub is_typing-run :
    (es : List (ℕ × Event)) (c u : String)
    → HasPlainIds es
    → is_typing c u (run initial es) ≡ is_some (spec_run no_deadlines es c u)
is_typing-run es c u p = (run-Refines es initial no_deadlines p initial-Refines).view c u

spec_run_quiet_none :
    (es : List (ℕ × Event)) (c u : String) (D : Deadlines)
    → is_quiet c u es ≡ true
    → D c u ≡ none
    → spec_run D es c u ≡ none
spec_run_quiet_none [] c u D q e = e
spec_run_quiet_none ((now, signal c' u' true) ∷ es) c u D q e =
    spec_run_quiet_none es c u _ (ground arith) (ground arith)
spec_run_quiet_none ((now, signal c' u' false) ∷ es) c u D q e =
    spec_run_quiet_none es c u _ (ground arith) (ground arith)
spec_run_quiet_none ((now, tick) ∷ es) c u D q e = spec_run_quiet_none es c u _ q (rw e)

spec_run_quiet :
    (es : List (ℕ × Event)) (c u : String) (d : ℕ) (D : Deadlines)
    → is_quiet c u es ≡ true
    → D c u ≡ some d
    → is_some (spec_run D es c u) ≡ all_before d es
spec_run_quiet [] c u d D q e = rw e
spec_run_quiet ((now, signal c' u' true) ∷ es) c u d D q e =
    spec_run_quiet es c u d _ (ground arith) (ground arith)
spec_run_quiet ((now, signal c' u' false) ∷ es) c u d D q e =
    spec_run_quiet es c u d _ (ground arith) (ground arith)
spec_run_quiet ((now, tick) ∷ es) c u d D q e = elim (Bool-cases (leb d now)) [
  | inl l ↦
      ground (arith, spec_run_quiet_none es c u (λ c u. unless_past now (D c u)) q (rw (e, l)))
  | inr l ↦ ground (arith, spec_run_quiet es c u d (λ c u. unless_past now (D c u)) q (rw (e, l)))
]

-- From a start on, and until the next signal of its pair, a pair is shown until a host turn at least
-- five seconds later, however often it was shown before; ids hold no colon.
pub shown_until_expiry :
    (es qs : List (ℕ × Event)) (now : ℕ) (c u : String)
    → HasPlainIds es
    → HasPlainIds qs
    → NoColon c
    → is_quiet c u qs ≡ true
    → is_typing c u (run (set_typing now c u true (run initial es)) qs)
      ≡ all_before (now + typing_expiry_ms) qs
shown_until_expiry es qs now c u p p' n q =
    let before = run-Refines es initial no_deadlines p initial-Refines in
    let after = run-Refines qs _ _ p' (set_typing-Refines now c u true _ _ n before) in
    after.view c u ∙ spec_run_quiet qs c u (now + typing_expiry_ms) _ q (ground arith)
