-- ===== src/MessageCache/Versions.antt =====
-- `replaceIfNewer` of frontend/src/api/messageCache.ts: edits that arrive in any order.
use mathlib.Core.List.{foldl}
use bu3li_comms.Prelude.{
  ◌≤◌, ◌≡◌, refl, ◌≢◌, ◌⊎◌, inl, inr, ◌∙◌, List, [], ◌∷◌, map, All, In, arith,
}
use bu3li_comms.Message.{Message, ChatMessage, to_sent_message}
use bu3li_comms.MessageCache.{newer_of, replace_if_newer}

newer_of_comm :
    (a b : Message) (m : ChatMessage)
    → (a.id ≢ b.id) ⊎ (a.version ≢ b.version)
    → newer_of b (newer_of a m) ≡ newer_of a (newer_of b m)
newer_of_comm a b m h = ground arith

-- Two edits that differ in the message or in the version may arrive in either order: the cache is
-- the same afterwards.
pub replace_if_newer_comm :
    (ms : List ChatMessage) (a b : Message)
    → (a.id ≢ b.id) ⊎ (a.version ≢ b.version)
    → replace_if_newer (replace_if_newer ms a) b ≡ replace_if_newer (replace_if_newer ms b) a
unfolding replace_if_newer
replace_if_newer_comm [] a b h = refl
replace_if_newer_comm (m ∷ ms) a b h = cc (newer_of_comm a b m h, replace_if_newer_comm ms a b h)

-- What became of the cached message `m` after the edits `us`.
pub record IsLatest (us : List Message) (m y : ChatMessage) : Type 0 where
  pub same_id : y.id ≡ m.id
  pub not_older : m.version ≤ y.version
  pub newest : All (λ u. u.id ≡ y.id → u.version ≤ y.version) us
  pub origin : (y ≡ m) ⊎ ((u : Message) × In u us × (y ≡ to_sent_message u))

newer_of-cases :
    (u : Message) (m : ChatMessage)
    → (m.version ≤ (newer_of u m).version)
      × ((newer_of u m).id ≡ m.id)
      × (u.id ≡ m.id → u.version ≤ (newer_of u m).version)
      × ((newer_of u m ≡ m) ⊎ (newer_of u m ≡ to_sent_message u))
unfolding to_sent_message
newer_of-cases u m = ground arith

IsLatest-cons :
    (u : Message) (us : List Message) (m y : ChatMessage)
    → IsLatest us (newer_of u m) y
    → IsLatest (u ∷ us) m y
IsLatest-cons u us m y h = record {
  same_id = ground (arith, newer_of-cases u m);
  not_older = ground (arith, newer_of-cases u m);
  newest = (λ e. ground (arith, newer_of-cases u m), h.newest);
  origin = elim h.origin [
    | inl e ↦ elim (newer_of-cases u m).3 [
      | inl old ↦ inl (e ∙ old)
      | inr new ↦ inr (u, inl refl, e ∙ new)
    ]
    | inr (v, i, e) ↦ inr (v, inr i, e)
  ];
}

In-map :
    (f : ChatMessage → ChatMessage) (y : ChatMessage) (ms : List ChatMessage)
    → In y (map f ms)
    → (m : ChatMessage) × In m ms × (y ≡ f m)
In-map f y [] i = elim i [ ]
In-map f y (m ∷ ms) (inl e) = (m, inl refl, e)
In-map f y (m ∷ ms) (inr i) = let (x, j, e) = In-map f y ms i in (x, inr j, e)

-- After any sequence of edits every cached message comes from one that was cached before: it has
-- the same id, a version at least as great as before and as that of each edit of this id, and it is
-- the old message or one of the edits.
pub replace_if_newer-IsLatest :
    (us : List Message) (ms : List ChatMessage) (y : ChatMessage)
    → In y (foldl replace_if_newer ms us)
    → (m : ChatMessage) × In m ms × IsLatest us m y
unfolding replace_if_newer
replace_if_newer-IsLatest [] ms y i =
    (y, i, record { same_id = refl; not_older = omega arith; newest = tt; origin = inl refl })
replace_if_newer-IsLatest (u ∷ us) ms y i =
    let (x, j, h) = replace_if_newer-IsLatest us (replace_if_newer ms u) y i in
    let (m, k, e) = In-map (newer_of u) x ms j in (m, k, IsLatest-cons u us m y (rw e at h))
