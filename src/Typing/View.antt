-- ===== src/Typing/View.antt =====
-- Which pairs the store of frontend/src/stores/typingStore.ts shows as typing, after each operation.
use bu3li_comms.Prelude.{
  ℕ, leb, ltb, String, Bool, true, false, not, ◌&&◌, ◌==◌, if◌then◌else◌, ◌≡◌, refl, ap, ◌∙◌, List,
  [], ◌∷◌, any, filter, includes, set_add, set_delete, get-put, includes-set_add,
  includes-set_delete, arith,
}
use bu3li_comms.Typing.{
  Timer, TypingStore, apply_removal, clear_existing, add_typing, start_timer, set_typing, timer_key,
  typing_in, on_expiry, run_callbacks, elapse,
}

abbrev pub is_typing : String → String → TypingStore → Bool
is_typing c u s = includes u (typing_in c s)

is_typing-apply_removal :
    (c u c' u' : String) (s : TypingStore)
    → is_typing c' u' (apply_removal c u s) ≡ (not (c == c' && u == u') && is_typing c' u' s)
unfolding apply_removal
is_typing-apply_removal c u c' u' s = ground (
  arith,
  get-put c' c (set_delete u (typing_in c s)) s.typing_by_conversation,
  includes-set_delete u u' (typing_in c s),
)

is_typing-add_typing :
    (c u c' u' : String) (s : TypingStore)
    → is_typing c' u' (add_typing c u s) ≡ (if c == c' && u == u' then true else is_typing c' u' s)
unfolding add_typing
is_typing-add_typing c u c' u' s = ground (
  arith,
  get-put c' c (set_add u (typing_in c s)) s.typing_by_conversation,
  includes-set_add u u' (typing_in c s),
)

is_typing-clear_existing :
    (k c u : String) (s : TypingStore) → is_typing c u (clear_existing k s) ≡ is_typing c u s
unfolding clear_existing
is_typing-clear_existing k c u s = ground arith

is_typing-start_timer :
    (now : ℕ) (c u c' u' : String) (s : TypingStore)
    → is_typing c' u' (start_timer now c u s) ≡ is_typing c' u' s
unfolding start_timer
is_typing-start_timer now c u c' u' s = refl

-- A signal decides whether its pair is shown, and changes no other pair.
pub is_typing-set_typing :
    (now : ℕ) (c u : String) (b : Bool) (c' u' : String) (s : TypingStore)
    → is_typing c' u' (set_typing now c u b s)
      ≡ (if c == c' && u == u' then b else is_typing c' u' s)
unfolding set_typing
is_typing-set_typing now c u true c' u' s =
    is_typing-start_timer now c u c' u' _
    ∙ is_typing-add_typing c u c' u' _
    ∙ ap (λ r. if c == c' && u == u' then true else r)
        (is_typing-clear_existing (timer_key c u) c' u' s)
is_typing-set_typing now c u false c' u' s = ground (
  arith,
  is_typing-apply_removal c u c' u' (clear_existing (timer_key c u) s),
  is_typing-clear_existing (timer_key c u) c' u' s,
)

abbrev pub is_for : String → String → Timer → Bool
is_for c u t = t.conversation_id == c && t.user_id == u

is_typing-on_expiry :
    (t : Timer) (c u : String) (s : TypingStore)
    → is_typing c u (on_expiry t s) ≡ (not (is_for c u t) && is_typing c u s)
unfolding on_expiry
is_typing-on_expiry t c u s = is_typing-apply_removal t.conversation_id t.user_id c u _

is_typing-run_callbacks :
    (ts : List Timer) (c u : String) (s : TypingStore)
    → is_typing c u (run_callbacks ts s) ≡ (not (any (is_for c u) ts) && is_typing c u s)
unfolding run_callbacks
is_typing-run_callbacks [] c u s = ground arith
is_typing-run_callbacks (t ∷ ts) c u s =
    ground (arith, is_typing-run_callbacks ts c u (on_expiry t s), is_typing-on_expiry t c u s)

-- When time has passed, the pairs shown are those shown before that have no timeout due.
pub is_typing-elapse :
    (now : ℕ) (c u : String) (s : TypingStore)
    → is_typing c u (elapse now s)
      ≡ (not (any (is_for c u) (filter (λ t. leb t.due now) s.timers)) && is_typing c u s)
unfolding elapse
is_typing-elapse now c u s =
    is_typing-run_callbacks _ c u (record s { timers = filter (λ t. ltb now t.due) s.timers })
