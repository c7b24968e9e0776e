-- ===== src/Typing/Expiry.antt =====
-- Clearing and running the timeouts of frontend/src/stores/typingStore.ts, and the deadlines of `Spec`.
use bu3li_comms.Prelude.{
  ℕ, ◌+◌, leb, ltb, String, Bool, true, false, ◌==◌, if◌then◌else◌, ◌≡◌, refl, sym, ap₂, ◌∙◌, inl,
  inr, Option, none, some, List, [], ◌∷◌, In, In-filter, In-of_any, any_of_In, Dict, get, del,
  get-del, Option-cases, Bool-cases, arith, fun_ext, subst, any, filter,
}
use bu3li_comms.Typing.{
  Timer, TypingStore, timer_key, clear_existing, start_timer, typing_expiry_ms, apply_removal,
  add_typing, set_typing, on_expiry, run_callbacks, elapse,
}
use bu3li_comms.Typing.Keys.{NoColon, timer_key_injective}
use bu3li_comms.Typing.Armed.{Armed, key_of, unchanged-Armed, cleared-Armed}
use bu3li_comms.Typing.Started.{started-Armed}
use bu3li_comms.Typing.Spec.{Deadlines, with_deadline, unless_past}

abbrev pub IsArmed : TypingStore → Deadlines → Type 0
IsArmed s D = Armed s.timers s.expiry_timers s.next_handle D

Armed-ext :
    {ts : List Timer} {ex : Dict ℕ} {n : ℕ} {D D' : Deadlines}
    → Armed ts ex n D
    → ((c u : String) → D c u ≡ D' c u)
    → Armed ts ex n D'
Armed-ext {ts} {ex} {n} a h = subst (Armed ts ex n) (fun_ext λ c. fun_ext λ u. h c u) a

clear_existing-IsArmed :
    (s : TypingStore) (D : Deadlines) (c u : String)
    → NoColon c
    → IsArmed s D
    → IsArmed (clear_existing (timer_key c u) s) (with_deadline c u none D)
unfolding clear_existing
clear_existing-IsArmed s D c u p a = elim (Option-cases (get (timer_key c u) s.expiry_timers)) [
  | inl g ↦ rw (g, clear_existing) (unchanged-Armed a c u p g)
  | inr (h, g) ↦ rw (g, clear_existing) (cleared-Armed a c u p h g)
]

module _ (c u : String) (s : TypingStore) where
  apply_removal-timers : (apply_removal c u s).timers ≡ s.timers
  unfolding apply_removal
  apply_removal-timers = ground arith

  apply_removal-expiry : (apply_removal c u s).expiry_timers ≡ s.expiry_timers
  unfolding apply_removal
  apply_removal-expiry = ground arith

  apply_removal-next : (apply_removal c u s).next_handle ≡ s.next_handle
  unfolding apply_removal
  apply_removal-next = ground arith

  apply_removal-IsArmed : (D : Deadlines) → IsArmed s D → IsArmed (apply_removal c u s) D
  apply_removal-IsArmed D a = rw (apply_removal-timers, apply_removal-expiry, apply_removal-next) a

  add_typing-IsArmed : (D : Deadlines) → IsArmed s D → IsArmed (add_typing c u s) D
  unfolding add_typing
  add_typing-IsArmed D a = a

pub set_typing-IsArmed :
    (now : ℕ) (c u : String) (b : Bool) (s : TypingStore) (D : Deadlines)
    → NoColon c
    → IsArmed s D
    → IsArmed
        (set_typing now c u b s)
        (with_deadline c u (if b then some (now + typing_expiry_ms) else none) D)
unfolding set_typing start_timer
set_typing-IsArmed now c u true s D p a =
    let cleared = clear_existing (timer_key c u) s in
    let added = add_typing c u cleared in
    started-Armed now added.next_handle c u added.timers added.expiry_timers D p
      (add_typing-IsArmed c u cleared _ (clear_existing-IsArmed s D c u p a))
set_typing-IsArmed now c u false s D p a =
    apply_removal-IsArmed c u _ _ (clear_existing-IsArmed s D c u p a)

-- What the callbacks leave of the timeouts' state.
abbrev del_keys : List Timer → Dict ℕ → Dict ℕ
del_keys [] ex = ex
del_keys (t ∷ ts) ex = del_keys ts (del (key_of t) ex)

get-del_keys :
    (k : String) (ts : List Timer) (ex : Dict ℕ)
    → get k (del_keys ts ex) ≡ (if any (λ t. key_of t == k) ts then none else get k ex)
get-del_keys k [] ex = refl
get-del_keys k (t ∷ ts) ex =
    ground (arith, get-del_keys k ts (del (key_of t) ex), get-del k (key_of t) ex)

run_callbacks-IsArmed :
    (ts : List Timer) (s : TypingStore) (D : Deadlines)
    → Armed s.timers (del_keys ts s.expiry_timers) s.next_handle D
    → IsArmed (run_callbacks ts s) D
unfolding run_callbacks on_expiry
run_callbacks-IsArmed [] s D a = a
run_callbacks-IsArmed (t ∷ ts) s D a =
    let popped : TypingStore = record s { expiry_timers = del (key_of t) s.expiry_timers } in
    run_callbacks-IsArmed ts (apply_removal t.conversation_id t.user_id popped) D (
      rw
        (
          apply_removal-timers t.conversation_id t.user_id popped,
          apply_removal-expiry t.conversation_id t.user_id popped,
          apply_removal-next t.conversation_id t.user_id popped,
        )
        a)

unless_past-eq-some :
    (now : ℕ) (o : Option ℕ) (d : ℕ)
    → unless_past now o ≡ some d
    → (o ≡ some d) × (ltb now d ≡ true)
unless_past-eq-some now none d e = cc
unless_past-eq-some now (some x) d e = ground arith

pub some-eq : (m n : ℕ) → some m ≡ some n → m ≡ n
some-eq m n e = cc

module _ (now n : ℕ) (ts : List Timer) (ex : Dict ℕ) (D : Deadlines) (a : Armed ts ex n D) where
  abbrev due : List Timer
  due = filter (λ t. leb t.due now) ts

  abbrev later : List Timer
  later = filter (λ t. ltb now t.due) ts

  later-In : (t : Timer) → In t later → In t ts × (ltb now t.due ≡ true)
  later-In t i = (In-filter (λ t. ltb now t.due) t ts).0 i

  In-later : (t : Timer) → In t ts → ltb now t.due ≡ true → In t later
  In-later t i e = (In-filter (λ t. ltb now t.due) t ts).1 (i, e)

  same_due : (t t' : Timer) → In t ts → In t' ts → key_of t' ≡ key_of t → t.due ≡ t'.due
  same_due t t' i i' e =
      let (ec, eu) =
        timer_key_injective t'.conversation_id t.conversation_id t'.user_id t.user_id
          (a.plain t' i') (a.plain t i) e in
      ground (arith, a.dated t i, a.dated t' i', ap₂ D ec eu)

  not_due : (t : Timer) → In t later → any (λ t'. key_of t' == key_of t) due ≡ false
  not_due t i = elim (Bool-cases (any (λ t'. key_of t' == key_of t) due)) [
    | inr e ↦ e
    | inl e ↦
        let (t', i', k) = In-of_any (λ t'. key_of t' == key_of t) due e in
        let (j', d') = (In-filter (λ t. leb t.due now) t' ts).0 i' in
        let (j, d) = later-In t i in
        let q : t.due ≡ t'.due = same_due t t' j j' (ground arith) in absurd (ground arith)
  ]

  later-owned :
      (k : String) (h : ℕ)
      → get k (del_keys due ex) ≡ some h
      → (t : Timer) × In t later × (t.handle ≡ h) × (key_of t ≡ k)
  later-owned k h e =
      let (t, i, eh, ek) = a.owned k h (ground (arith, get-del_keys k due ex)) in
      (
        t,
        In-later t i (
            ground (
              arith,
              get-del_keys k due ex,
              λ (d : leb t.due now ≡ true).
                  any_of_In (λ t'. key_of t' == k) t due
                    ((In-filter (λ t. leb t.due now) t ts).1 (i, d)),
            )),
        eh,
        ek,
      )

  later-live :
      (c u : String) (d : ℕ)
      → unless_past now (D c u) ≡ some d
      → (t : Timer) × In t later × (t.conversation_id ≡ c) × (t.user_id ≡ u)
  later-live c u d e =
      let (e', l) = unless_past-eq-some now (D c u) d e in
      let (t, i, ec, eu) = a.live c u d e' in
      let q : t.due ≡ d = some-eq t.due d (sym (a.dated t i) ∙ ap₂ D ec eu ∙ e') in
      (t, In-later t i (rw q l), ec, eu)

  later-Armed : Armed later (del_keys due ex) n (λ c u. unless_past now (D c u))
  later-Armed = record {
    plain = λ t i. a.plain t (later-In t i).0;
    registered = λ t i.
        ground
          (arith, get-del_keys (key_of t) due ex, not_due t i, a.registered t (later-In t i).0);
    dated = λ t i. ground (arith, a.dated t (later-In t i).0, (later-In t i).1);
    fresh = λ t i. a.fresh t (later-In t i).0;
    owned = later-owned;
    live = later-live;
    unique = λ t t' i i'. a.unique t t' (later-In t i).0 (later-In t' i').0;
  }

pub elapse-IsArmed :
    (now : ℕ) (s : TypingStore) (D : Deadlines)
    → IsArmed s D
    → IsArmed (elapse now s) (λ c u. unless_past now (D c u))
unfolding elapse
elapse-IsArmed now s D a =
    run_callbacks-IsArmed _ _ _ (later-Armed now s.next_handle s.timers s.expiry_timers D a)
