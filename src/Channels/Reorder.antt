-- ===== src/Channels/Reorder.antt =====
-- The order that `useReorderChannels` of frontend/src/hooks/useServerMutations.ts shows.
use bu3li_comms.Prelude.{
  ℕ, ◌+◌, String, Bool, true, false, ◌==◌, ◌||◌, ◌≡◌, refl, ap₂, Option, none, some, List, [], ◌∷◌,
  map, any, All, Dict, get, put, get-put, Option-cases, inl, inr, arith,
}
use bu3li_comms.Server.{ServerChannel}
use bu3li_comms.Channels.{index_channels, place, reorder}

-- Each channel stands under its id.
abbrev Keyed : Dict ServerChannel → Type 0
Keyed d = (k : String) (c : ServerChannel) → get k d ≡ some c → c.id ≡ k

put-Keyed : (c : ServerChannel) (d : Dict ServerChannel) → Keyed d → Keyed (put c.id c d)
put-Keyed c d h k x e = ground (arith, get-put k c.id c d, h k x)

index-Keyed :
    (cs : List ServerChannel) (d : Dict ServerChannel) → Keyed d → Keyed (index_channels d cs)
unfolding index_channels
index-Keyed [] d h = h
index-Keyed (c ∷ cs) d h = index-Keyed cs (put c.id c d) (put-Keyed c d h)

abbrev is_there : Option ServerChannel → Bool
is_there none = false
is_there (some c) = true

is_there-index :
    (k : String) (cs : List ServerChannel) (d : Dict ServerChannel)
    → is_there (get k (index_channels d cs)) ≡ (is_there (get k d) || any (λ c. c.id == k) cs)
unfolding index_channels
is_there-index k [] d = ground arith
is_there-index k (c ∷ cs) d = ground (arith, is_there-index k cs (put c.id c d), get-put k c.id c d)

abbrev pub count_from : ℕ → List String → List ℕ
count_from n [] = []
count_from n (id ∷ ids) = n ∷ count_from (n + 1) ids

abbrev pub has_channel : List ServerChannel → String → Bool
has_channel channels id = any (λ c. c.id == id) channels

place_lem :
    (d : Dict ServerChannel) (n : ℕ) (ids : List String)
    → Keyed d
    → All (λ id. is_there (get id d) ≡ true) ids
    → (map (λ c. c.id) (place d n ids) ≡ ids)
      × (map (λ c. c.position) (place d n ids) ≡ count_from n ids)
unfolding place
place_lem d n [] k h = (refl, refl)
place_lem d n (id ∷ ids) k (p, h) = elim (Option-cases (get id d)) [
  | inl e ↦ absurd (ground arith)
  | inr (c, e) ↦
      let (a, b) = place_lem d (n + 1) ids k h in
      rw (e, place) (ap₂ ◌∷◌ (k id c e) a, ap₂ ◌∷◌ refl b)
]

All-there :
    (channels : List ServerChannel) (ids : List String)
    → All (λ id. has_channel channels id ≡ true) ids
    → All (λ id. is_there (get id (index_channels [] channels)) ≡ true) ids
unfolding get
All-there channels [] h = tt
All-there channels (id ∷ ids) (p, h) =
    (ground (arith, is_there-index id channels []), All-there channels ids h)

-- If every id that is given is that of a channel, then the channels are shown in the order of the ids,
-- and their positions count from 0.
pub reorder_lem :
    (ids : List String) (channels : List ServerChannel)
    → All (λ id. has_channel channels id ≡ true) ids
    → (map (λ c. c.id) (reorder ids channels) ≡ ids)
      × (map (λ c. c.position) (reorder ids channels) ≡ count_from 0 ids)
unfolding reorder get
reorder_lem ids channels h =
    place_lem (index_channels [] channels) 0 ids
      (index-Keyed channels [] (λ k c e. absurd (ground arith))) (All-there channels ids h)
