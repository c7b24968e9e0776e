-- ===== src/Calls/Peers.antt =====
-- The peer connections that frontend/src/calls/callManager.ts holds and closes.
use bu3li_comms.Prelude.{
  ℕ, ◌<◌, String, ◌≡◌, refl, ◌⊎◌, inl, inr, none, some, List, [], ◌∷◌, map, In, In-append, Dict,
  get, put, del, get-put, get-del, Option-cases, arith,
}
use bu3li_comms.Calls.{CallManager, teardown}
use bu3li_comms.Calls.Handlers.{open_peer_connection, close_peer}

abbrev pub values : Dict ℕ → List ℕ
values = map (λ p. p.1)

-- No two entries have one key.
abbrev pub DistinctKeys : Dict ℕ → Type 0
DistinctKeys [] = Unit
DistinctKeys ((k, v) ∷ d) = (get k d ≡ none) × DistinctKeys d

-- Every connection that was created is held for a participant, or has been closed.
pub record Kept (peers : Dict ℕ) (closed : List ℕ) (next : ℕ) : Type 0 where
  pub keys : DistinctKeys peers
  pub kept : (n : ℕ) → n < next → In n (values peers) ⊎ In n closed

abbrev pub NoLeak : CallManager → Type 0
NoLeak w = Kept w.peers w.closed w.next_peer

put-DistinctKeys : (k : String) (v : ℕ) (d : Dict ℕ) → DistinctKeys d → DistinctKeys (put k v d)
unfolding put get
put-DistinctKeys k v [] h = (refl, tt)
put-DistinctKeys k v ((j, w) ∷ d) (n, h) = ground (arith, put-DistinctKeys k v d h, get-put j k v d)

In-put :
    (n : ℕ) (k : String) (v : ℕ) (d : Dict ℕ)
    → get k d ≡ none
    → (n ≡ v) ⊎ In n (values d)
    → In n (values (put k v d))
unfolding put get
In-put n k v [] e h = h
In-put n k v ((j, w) ∷ d) e h = ground (arith, In-put n k v d)

del-DistinctKeys : (k : String) (d : Dict ℕ) → DistinctKeys d → DistinctKeys (del k d)
unfolding del get
del-DistinctKeys k [] h = tt
del-DistinctKeys k ((j, w) ∷ d) (n, h) = ground (arith, del-DistinctKeys k d h, get-del j k d)

del_absent : (k : String) (d : Dict ℕ) → get k d ≡ none → del k d ≡ d
unfolding del get
del_absent k [] e = refl
del_absent k ((j, w) ∷ d) e = ground (arith, del_absent k d)

In-del :
    (n pc : ℕ) (k : String) (d : Dict ℕ)
    → DistinctKeys d
    → get k d ≡ some pc
    → In n (values d)
    → (n ≡ pc) ⊎ In n (values (del k d))
unfolding del get
In-del n pc k [] h e i = cc
In-del n pc k ((j, w) ∷ d) (m, h) e i = ground (arith, In-del n pc k d h, del_absent k d)

pub open-NoLeak :
    (p : String) (w : CallManager)
    → get p w.peers ≡ none
    → NoLeak w
    → NoLeak (open_peer_connection p w)
unfolding open_peer_connection
open-NoLeak p w e v = record {
  keys = put-DistinctKeys p w.next_peer w.peers v.keys;
  kept = λ n l. ground (arith, v.kept n, In-put n p w.next_peer w.peers);
}

pub close-NoLeak : (p : String) (w : CallManager) → NoLeak w → NoLeak (close_peer p w)
unfolding close_peer
close-NoLeak p w v = elim (Option-cases (get p w.peers)) [
  | inl e ↦ rw (e, close_peer, del_absent p w.peers e) v
  | inr (pc, e) ↦
      rw (e, close_peer)
        (record {
          keys = del-DistinctKeys p w.peers v.keys;
          kept = λ n l. ground (arith, v.kept n, In-del n pc p w.peers v.keys);
        })
]

pub teardown-NoLeak : (w : CallManager) → NoLeak w → NoLeak (teardown w)
unfolding teardown
teardown-NoLeak w v = record {
  keys = tt;
  kept = λ n l. ground (arith, v.kept n l, In-append n (values w.peers) w.closed);
}
