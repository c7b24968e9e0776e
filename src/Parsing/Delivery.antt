-- ===== src/Parsing/Delivery.antt =====
-- Which listeners frontend/src/realtime/socket.ts calls with an event.
use bu3li_comms.Prelude.{
  ℕ, String, Bool, false, not, ◌&&◌, ◌||◌, ◌≡◌, refl, ◌∙◌, ap, Option, some, List, [], ◌∷◌, map,
  any, eqb, any-append, arith, Bool-cases, inl, inr,
}
use bu3li_comms.RealtimeEvent.{RealtimeEvent}
use bu3li_comms.Parsing.{
  EventSchemas, event, parse_realtime_event, is_listening, on_event, off_event, on_message,
}

pub data Subscription : Type 0 where
  adds removes : (listener : ℕ) → Subscription

abbrev pub subscribe : List Subscription → List ℕ → List ℕ
subscribe [] listeners = listeners
subscribe (adds l ∷ ss) listeners = subscribe ss (on_event l listeners)
subscribe (removes l ∷ ss) listeners = subscribe ss (off_event l listeners)

-- Whether the listener was added and not removed since.
abbrev pub is_subscribed : ℕ → List Subscription → Bool → Bool
is_subscribed k [] before = before
is_subscribed k (adds l ∷ ss) before = is_subscribed k ss (eqb l k || before)
is_subscribed k (removes l ∷ ss) before = is_subscribed k ss (not (eqb l k) && before)

is_listening-on_event :
    (k l : ℕ) (ls : List ℕ) → is_listening k (on_event l ls) ≡ (eqb l k || is_listening k ls)
unfolding on_event
is_listening-on_event k l ls = elim (Bool-cases (is_listening l ls)) [
  | inl e ↦ rw (e) (elim (Bool-cases (eqb l k)) [
    | inl same ↦ ground (arith, e, same)
    | inr other ↦ rw (other) refl
  ])
  | inr e ↦ rw (e) (ground (arith, any-append (λ x. eqb x k) ls (l ∷ [])))
]

is_listening-off_event :
    (k l : ℕ) (ls : List ℕ) → is_listening k (off_event l ls) ≡ (not (eqb l k) && is_listening k ls)
unfolding off_event
is_listening-off_event k l [] = ground arith
is_listening-off_event k l (x ∷ ls) = ground (arith, is_listening-off_event k l ls)

is_listening-subscribe :
    (k : ℕ) (ss : List Subscription) (ls : List ℕ)
    → is_listening k (subscribe ss ls) ≡ is_subscribed k ss (is_listening k ls)
is_listening-subscribe k [] ls = refl
is_listening-subscribe k (adds l ∷ ss) ls =
    is_listening-subscribe k ss (on_event l ls)
    ∙ ap (is_subscribed k ss) (is_listening-on_event k l ls)
is_listening-subscribe k (removes l ∷ ss) ls =
    is_listening-subscribe k ss (off_event l ls)
    ∙ ap (is_subscribed k ss) (is_listening-off_event k l ls)

-- Whether a listener is called.
abbrev pub is_called : ℕ → List (ℕ × RealtimeEvent) → Bool
is_called k calls = any (λ c. eqb c.0 k) calls

is_called-map :
    (k : ℕ) (e : RealtimeEvent) (ls : List ℕ)
    → is_called k (map (λ l. (l, e)) ls) ≡ is_listening k ls
is_called-map k e [] = refl
is_called-map k e (l ∷ ls) = ap (λ b. eqb l k || b) (is_called-map k e ls)

module _ {Json : Type 0} (schemas : EventSchemas Json) (is_inherited : String → Bool)
    (parse_json : String → Option Json) where
  -- If a message is JSON that is parsed to an event, then it is handed to the listeners that have been added
  -- and not removed since, and to no others.
  pub is_called-on_message :
      (raw : String) (json : Json) (e : RealtimeEvent) (ss : List Subscription) (k : ℕ)
      → parse_json raw ≡ some json
      → parse_realtime_event schemas is_inherited json ≡ event e
      → is_called k (on_message schemas is_inherited parse_json raw (subscribe ss []))
        ≡ is_subscribed k ss false
  unfolding on_message
  is_called-on_message raw json e ss k p h =
      rw (p, h, on_message) (is_called-map k e (subscribe ss []) ∙ is_listening-subscribe k ss [])
