-- ===== src/Calls/Offers.antt =====
-- Who sends the offer, and whom a call connects to: `handleCallJoined` of
-- frontend/src/calls/callManager.ts.
use bu3li_comms.Prelude.{
  String, Bool, true, false, not, ◌==◌, ◌||◌, ◌≡◌, refl, sym, ◌≢◌, ◌⊎◌, inl, inr, some, List, [],
  ◌∷◌, ◌++◌, any, In, get, get-put, Bool-cases, arith,
}
use bu3li_comms.Utf16.{str_lt-total}
use bu3li_comms.Calls.{
  CallManager, Task, starting, accepting, offering, answering, is_call, is_truthy,
}
use bu3li_comms.Calls.Handlers.{
  open_peer_connection, join_loop, has_peer, is_self, offers_to, handle_call_joined,
}

-- The manager has a connection to the participant, or is the participant.
abbrev pub Covered : CallManager → String → Type 0
Covered w p = (is_self p w || has_peer p w) ≡ true

abbrev pub is_offering : String → Task → Bool
is_offering p (offering c q rest) = q == p
is_offering p (starting c) = false
is_offering p (accepting c) = false
is_offering p (answering c u) = false

open-Covered :
    (q p : String) (w : CallManager) → (q ≡ p) ⊎ Covered w p → Covered (open_peer_connection q w) p
unfolding open_peer_connection
open-Covered q p w h = ground (arith, get-put p q w.next_peer w.peers)

join_loop-Covered :
    (c p : String) (ps : List String) (w : CallManager) → Covered w p → Covered (join_loop c ps w) p
unfolding join_loop
join_loop-Covered c p [] w h = h
join_loop-Covered c p (q ∷ ps) w h = elim (Bool-cases (is_self q w || has_peer q w)) [
  | inl e ↦ rw e (join_loop-Covered c p ps w h)
  | inr e ↦ elim (Bool-cases (offers_to q w)) [
    | inl o ↦ rw (e, o) (open-Covered q p w (inr h))
    | inr o ↦
        rw (e, o) (join_loop-Covered c p ps (open_peer_connection q w) (open-Covered q p w (inr h)))
  ]
]

-- A suspended method will go on with the participant.
abbrev pub WillGoOn : String → String → List Task → List Task → Type 0
WillGoOn c p before after =
    (q : String) × (rest : List String) × (after ≡ before ++ offering c q rest ∷ []) × In p rest

-- When the loop stops, every participant has a connection or is the manager's user, but for those that
-- the suspended method will go on with.
pub join_loop-covers :
    (c p : String) (ps : List String) (w : CallManager)
    → In p ps
    → Covered (join_loop c ps w) p ⊎ WillGoOn c p w.tasks (join_loop c ps w).tasks
unfolding join_loop open_peer_connection
join_loop-covers c p [] w i = elim i [ ]
join_loop-covers c p (q ∷ ps) w i = elim (Bool-cases (is_self q w || has_peer q w)) [
  | inl e ↦ rw e (elim i [
    | inl same ↦ inl (join_loop-Covered c p ps w (rw same e))
    | inr later ↦ join_loop-covers c p ps w later
  ])
  | inr e ↦ elim (Bool-cases (offers_to q w)) [
    | inl o ↦
        rw (e, o)
          (elim i [
            | inl same ↦ inl (open-Covered q p w (inl (sym same)))
            | inr later ↦ inr (q, ps, refl, later)
          ])
    | inr o ↦
        rw (e, o)
          (elim i [
            | inl same ↦ inl (
                join_loop-Covered c p ps (open_peer_connection q w)
                  (open-Covered q p w (inl (sym same))))
            | inr later ↦ join_loop-covers c p ps (open_peer_connection q w) later
          ])
  ]
]

-- Two managers that hold no connections learn that their users are in the call: exactly one of them sends
-- the offer.
pub one_offers :
    (c a b : String) (v w : CallManager)
    → a ≢ b
    → is_truthy a ≡ true
    → is_truthy b ≡ true
    → v.self_user_id ≡ some a
    → w.self_user_id ≡ some b
    → is_call c v ≡ true
    → is_call c w ≡ true
    → v.peers ≡ []
    → w.peers ≡ []
    → v.tasks ≡ []
    → w.tasks ≡ []
    → any (is_offering b) (handle_call_joined c (a ∷ b ∷ []) v).tasks
      ≡ not (any (is_offering a) (handle_call_joined c (a ∷ b ∷ []) w).tasks)
unfolding handle_call_joined join_loop open_peer_connection get
one_offers c a b v w n ta tb sv sw cv cw pv pw kv kw = ground (arith, str_lt-total a b n)
