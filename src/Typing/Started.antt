-- ===== src/Typing/Started.antt =====
-- `expiryTimers.set(key, setTimeout(…))` of frontend/src/stores/typingStore.ts, and the deadlines.
use bu3li_comms.Prelude.{
  ℕ, ◌+◌, String, ◌==◌, ◌&&◌, ◌≡◌, sym, ◌∙◌, ◌≢◌, ◌⊎◌, inl, inr, none, some, List, [], ◌∷◌, ◌++◌,
  In, In-append, Dict, get, put, get-put, Bool-cases, String-discrete, arith,
}
use bu3li_comms.Typing.{Timer, timer_key, typing_expiry_ms}
use bu3li_comms.Typing.Keys.{NoColon}
use bu3li_comms.Typing.Armed.{Armed, key_of, pair_of_key}
use bu3li_comms.Typing.Spec.{Deadlines, with_deadline}

module _ (now n : ℕ) (c u : String) (ts : List Timer) where
  abbrev new_timer : Timer
  new_timer = record { handle = n; due = now + typing_expiry_ms; conversation_id = c; user_id = u }

  cases : (t : Timer) → In t (ts ++ new_timer ∷ []) → In t ts ⊎ (t ≡ new_timer)
  cases t i = ground (arith, In-append t ts (new_timer ∷ []))

  old_In : (t : Timer) → In t ts → In t (ts ++ new_timer ∷ [])
  old_In t i = ground (arith, In-append t ts (new_timer ∷ []))

  new_In : In new_timer (ts ++ new_timer ∷ [])
  new_In = ground (arith, In-append new_timer ts (new_timer ∷ []))

  module _ (ex : Dict ℕ) (D : Deadlines) (p : NoColon c)
      (a : Armed ts ex n (with_deadline c u none D)) where
    apart : (t : Timer) → In t ts → key_of t ≢ timer_key c u
    apart t i e = ground (arith, pair_of_key a c u p t i e, a.dated t i)

    started-registered :
        (t : Timer)
        → In t (ts ++ new_timer ∷ [])
        → get (key_of t) (put (timer_key c u) n ex) ≡ some t.handle
    started-registered t i = elim (cases t i) [
      | inl j ↦ ground (arith, get-put (key_of t) (timer_key c u) n ex, apart t j, a.registered t j)
      | inr e ↦ rw e (ground (arith, get-put (timer_key c u) (timer_key c u) n ex))
    ]

    started-dated :
        (t : Timer)
        → In t (ts ++ new_timer ∷ [])
        → with_deadline c u (some (now + typing_expiry_ms)) D t.conversation_id t.user_id
          ≡ some t.due
    started-dated t i = elim (cases t i) [
      | inl j ↦ ground (arith, a.dated t j)
      | inr e ↦ rw e (ground arith)
    ]

    started_unique :
        (t t' : Timer)
        → In t (ts ++ new_timer ∷ [])
        → In t' (ts ++ new_timer ∷ [])
        → t.handle ≡ t'.handle
        → t ≡ t'
    started_unique t t' i i' e = elim (cases t i) [
      | inl j ↦ elim (cases t' i') [
        | inl j' ↦ a.unique t t' j j' e
        | inr e' ↦ ground (arith, a.fresh t j)
      ]
      | inr q ↦ elim (cases t' i') [ inl j' ↦ ground (arith, a.fresh t' j') | inr e' ↦ q ∙ sym e' ]
    ]

    started-owned :
        (k : String) (h : ℕ)
        → get k (put (timer_key c u) n ex) ≡ some h
        → (t : Timer) × In t (ts ++ new_timer ∷ []) × (t.handle ≡ h) × (key_of t ≡ k)
    started-owned k h e = elim (String-discrete (timer_key c u) k) [
      | yes q ↦ (new_timer, new_In, ground (arith, get-put k (timer_key c u) n ex), q)
      | no q ↦
          let (t, i, eh, ek) = a.owned k h (ground (arith, get-put k (timer_key c u) n ex)) in
          (t, old_In t i, eh, ek)
    ]

    started-live :
        (c' u' : String) (d : ℕ)
        → with_deadline c u (some (now + typing_expiry_ms)) D c' u' ≡ some d
        → (t : Timer) × In t (ts ++ new_timer ∷ []) × (t.conversation_id ≡ c') × (t.user_id ≡ u')
    started-live c' u' d e = elim (Bool-cases (c == c' && u == u')) [
      | inl q ↦ (new_timer, new_In, ground arith, ground arith)
      | inr q ↦ let (t, i, ec, eu) = a.live c' u' d (rw q (rw q at e)) in (t, old_In t i, ec, eu)
    ]

    pub started-Armed :
        Armed
          (ts ++ new_timer ∷ [])
          (put (timer_key c u) n ex)
          (n + 1)
          (with_deadline c u (some (now + typing_expiry_ms)) D)
    started-Armed = record {
      plain = λ t i. elim (cases t i) [ inl j ↦ a.plain t j | inr e ↦ rw e p ];
      registered = started-registered;
      dated = started-dated;
      fresh = λ t i. elim (cases t i) [
        | inl j ↦ omega (arith, a.fresh t j)
        | inr e ↦ rw e (omega arith)
      ];
      owned = started-owned;
      live = started-live;
      unique = started_unique;
    }
