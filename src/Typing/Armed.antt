-- ===== src/Typing/Armed.antt =====
-- How the timeouts of frontend/src/stores/typingStore.ts stand for the deadlines of `Spec`.
use bu3li_comms.Prelude.{
  ℕ, ◌<◌, String, not, eqb, ◌≡◌, sym, ap, ap₂, ◌∙◌, ◌≢◌, none, some, List, In, In-filter, Dict, get,
  del, get-del, arith,
}
use bu3li_comms.Typing.{Timer, timer_key, clear_timeout}
use bu3li_comms.Typing.Keys.{NoColon, timer_key_injective}
use bu3li_comms.Typing.Spec.{Deadlines, with_deadline}

abbrev pub key_of : Timer → String
key_of t = timer_key t.conversation_id t.user_id

pub record Armed (timers : List Timer) (expiry : Dict ℕ) (next : ℕ) (deadlines : Deadlines)
    : Type 0 where
  pub plain : (t : Timer) → In t timers → NoColon t.conversation_id
  pub registered : (t : Timer) → In t timers → get (key_of t) expiry ≡ some t.handle
  pub dated : (t : Timer) → In t timers → deadlines t.conversation_id t.user_id ≡ some t.due
  pub fresh : (t : Timer) → In t timers → t.handle < next
  pub owned :
      (k : String) (h : ℕ)
      → get k expiry ≡ some h
      → (t : Timer) × In t timers × (t.handle ≡ h) × (key_of t ≡ k)
  pub live :
      (c u : String) (d : ℕ)
      → deadlines c u ≡ some d
      → (t : Timer) × In t timers × (t.conversation_id ≡ c) × (t.user_id ≡ u)
  pub unique : (t t' : Timer) → In t timers → In t' timers → t.handle ≡ t'.handle → t ≡ t'

module _ {ts : List Timer} {ex : Dict ℕ} {n : ℕ} {D : Deadlines} (a : Armed ts ex n D)
    (c u : String) (p : NoColon c) where
  no_timer : get (timer_key c u) ex ≡ none → (t : Timer) → In t ts → key_of t ≢ timer_key c u
  no_timer g t i e = ground (arith, a.registered t i, ap (λ k. get k ex) e)

  module _ (h : ℕ) (g : get (timer_key c u) ex ≡ some h) where
    other_key : (t : Timer) → In t ts → t.handle ≢ h → key_of t ≢ timer_key c u
    other_key t i n e = ground (arith, a.registered t i, ap (λ k. get k ex) e)

    other_handle : (t : Timer) → In t ts → key_of t ≢ timer_key c u → t.handle ≢ h
    other_handle t i n e =
        let (t', i', e', k) = a.owned (timer_key c u) h g in
        n (ap key_of (a.unique t t' i i' (e ∙ sym e')) ∙ k)

    In-clear_timeout : (t : Timer) → In t (clear_timeout h ts) → In t ts × (t.handle ≢ h)
    In-clear_timeout t i = ground (arith, In-filter (λ t. not (eqb t.handle h)) t ts)

    clear_timeout-In : (t : Timer) → In t ts → t.handle ≢ h → In t (clear_timeout h ts)
    clear_timeout-In t i n = ground (arith, In-filter (λ t. not (eqb t.handle h)) t ts)

  dated_other :
      (t : Timer)
      → In t ts
      → key_of t ≢ timer_key c u
      → with_deadline c u none D t.conversation_id t.user_id ≡ some t.due
  dated_other t i n = ground (
    arith,
    a.dated t i,
    λ (e : c ≡ t.conversation_id) (e' : u ≡ t.user_id). n (ap₂ timer_key (sym e) (sym e')),
  )

  pub pair_of_key :
      (t : Timer) → In t ts → key_of t ≡ timer_key c u → (t.conversation_id ≡ c) × (t.user_id ≡ u)
  pair_of_key t i e = timer_key_injective t.conversation_id c t.user_id u (a.plain t i) p e

  live_other :
      (c' u' : String) (d : ℕ)
      → with_deadline c u none D c' u' ≡ some d
      → (t : Timer) × In t ts
        × (t.conversation_id ≡ c')
        × (t.user_id ≡ u')
        × (key_of t ≢ timer_key c u)
  live_other c' u' d e =
      let (t, i, ec, eu) = a.live c' u' d (ground arith) in
      (t, i, ec, eu, λ k. ground (arith, pair_of_key t i k))

  pub unchanged-Armed : get (timer_key c u) ex ≡ none → Armed ts ex n (with_deadline c u none D)
  unchanged-Armed g = record {
    plain = a.plain;
    registered = a.registered;
    dated = λ t i. dated_other t i (no_timer g t i);
    fresh = a.fresh;
    owned = a.owned;
    live = λ c' u' d e. let (t, i, ec, eu, k) = live_other c' u' d e in (t, i, ec, eu);
    unique = a.unique;
  }

  owned_after :
      (h : ℕ) (g : get (timer_key c u) ex ≡ some h) (k : String) (h' : ℕ)
      → get k (del (timer_key c u) ex) ≡ some h'
      → (t : Timer) × In t (clear_timeout h ts) × (t.handle ≡ h') × (key_of t ≡ k)
  owned_after h g k h' e =
      let (t, i, eh, ek) = a.owned k h' (ground (arith, get-del k (timer_key c u) ex)) in
      (
        t,
        clear_timeout-In h g t i
            (other_handle h g t i (λ q. ground (arith, get-del k (timer_key c u) ex))),
        eh,
        ek,
      )

  pub cleared-Armed :
      (h : ℕ) (g : get (timer_key c u) ex ≡ some h)
      → Armed (clear_timeout h ts) (del (timer_key c u) ex) n (with_deadline c u none D)
  cleared-Armed h g = record {
    plain = λ t i. a.plain t (In-clear_timeout h g t i).0;
    registered = λ t i.
        let (j, m) = In-clear_timeout h g t i in
        ground
          (arith, get-del (key_of t) (timer_key c u) ex, a.registered t j, other_key h g t j m);
    dated = λ t i. let (j, m) = In-clear_timeout h g t i in dated_other t j (other_key h g t j m);
    fresh = λ t i. a.fresh t (In-clear_timeout h g t i).0;
    owned = owned_after h g;
    live = λ c' u' d e.
        let (t, i, ec, eu, k) = live_other c' u' d e in
        (t, clear_timeout-In h g t i (other_handle h g t i k), ec, eu);
    unique = λ t t' i i'. a.unique t t' (In-clear_timeout h g t i).0 (In-clear_timeout h g t' i').0;
  }
