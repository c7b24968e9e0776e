-- ===== src/MessageCache/Reconcile.antt =====
-- `insertOrReconcileMessage` of frontend/src/api/messageCache.ts: what the cache holds after a
-- message has arrived.
use Prim.Native.Nat.{Ordering}
use bu3li_comms.Prelude.{
  String, Bool, true, false, not, ◌<◌, ◌≡◌, refl, sym, ◌∙◌, ◌≢◌, ◌↔◌, ◌⊎◌, inl, List, [], ◌∷◌, All,
  In, In-All, In-filter, All-filter, All-filter_self, filter, filter-All, arith, ◌==◌,
  if◌then◌else◌,
}
use bu3li_comms.Message.{Message, ChatMessage, to_sent_message}
use bu3li_comms.MessageCache.{is_placeholder, replace_or_append, insert_or_reconcile_message}
use bu3li_comms.MessageCache.Order.{
  DistinctIds, IsSorted, IsCollation, All-sort, In-sort, sort-DistinctIds, sort-IsSorted,
  sort_of_IsSorted,
}

replace_or_append-cons :
    (c m : ChatMessage) (ms : List ChatMessage)
    → replace_or_append c (m ∷ ms) ≡ (if m.id == c.id then c ∷ ms else m ∷ replace_or_append c ms)
unfolding replace_or_append
replace_or_append-cons c m ms = ground arith

All-replace_or_append {κ} :
    (P : ChatMessage → Type κ) (c : ChatMessage) (ms : List ChatMessage)
    → P c
    → All P ms
    → All P (replace_or_append c ms)
unfolding replace_or_append
All-replace_or_append P c [] p h = (p, tt)
All-replace_or_append P c (m ∷ ms) p (q, h) =
    rw replace_or_append-cons (ground (arith, All-replace_or_append P c ms p h))

All-ne_of_eq :
    (c m : ChatMessage) (ms : List ChatMessage)
    → m.id ≡ c.id
    → All (λ x. x.id ≢ m.id) ms
    → All (λ x. x.id ≢ c.id) ms
All-ne_of_eq c m [] e h = tt
All-ne_of_eq c m (x ∷ xs) e (n, h) = (λ p. n (p ∙ sym e), All-ne_of_eq c m xs e h)

replace_or_append-DistinctIds :
    (c : ChatMessage) (ms : List ChatMessage)
    → DistinctIds ms
    → DistinctIds (replace_or_append c ms)
unfolding replace_or_append
replace_or_append-DistinctIds c [] d = (tt, tt)
replace_or_append-DistinctIds c (m ∷ ms) (f, d) = rw replace_or_append-cons (
    ground (
      arith,
      All-ne_of_eq c m ms,
      replace_or_append-DistinctIds c ms d,
      All-replace_or_append (λ x. x.id ≢ m.id) c ms,
    ))

In-ne :
    (c y : ChatMessage) (ms : List ChatMessage) → All (λ x. x.id ≢ c.id) ms → In y ms → y.id ≢ c.id
In-ne c y ms f i = In-All (λ x. x.id ≢ c.id) y ms f i

In-replace_or_append :
    (c y : ChatMessage) (ms : List ChatMessage)
    → DistinctIds ms
    → In y (replace_or_append c ms) ↔ ((y ≡ c) ⊎ (In y ms × (y.id ≢ c.id)))
unfolding replace_or_append
In-replace_or_append c y [] d = ground arith
In-replace_or_append c y (m ∷ ms) (f, d) =
    rw replace_or_append-cons (ground (arith, In-replace_or_append c y ms d, In-ne m y ms f))

replace_or_append_of_In :
    (c : ChatMessage) (ms : List ChatMessage)
    → DistinctIds ms
    → In c ms
    → replace_or_append c ms ≡ ms
replace_or_append_of_In c [] d i = elim i [ ]
replace_or_append_of_In c (m ∷ ms) (f, d) i =
    rw replace_or_append-cons (ground (arith, replace_or_append_of_In c ms d, In-ne m c ms f))

filter-DistinctIds :
    (p : ChatMessage → Bool) (ms : List ChatMessage) → DistinctIds ms → DistinctIds (filter p ms)
filter-DistinctIds p [] d = tt
filter-DistinctIds p (m ∷ ms) (f, d) =
    ground (arith, filter-DistinctIds p ms d, All-filter (λ x. x.id ≢ m.id) p ms f)

abbrev survivors : List ChatMessage → Message → List ChatMessage
survivors ms a = filter (λ m. not (is_placeholder a m)) ms

pub reconcile_of_settled :
    (compare : String → String → Ordering) (ms : List ChatMessage) (a : Message)
    → All (λ m. not (is_placeholder a m) ≡ true) ms
    → DistinctIds ms
    → In (to_sent_message a) ms
    → IsSorted compare ms
    → insert_or_reconcile_message compare ms a ≡ ms
unfolding insert_or_reconcile_message
reconcile_of_settled compare ms a n d i s =
    rw
      (
        filter-All (λ m. not (is_placeholder a m)) ms n,
        replace_or_append_of_In (to_sent_message a) ms d i,
      )
      (sort_of_IsSorted compare ms s)

module _ (compare : String → String → Ordering) (ms : List ChatMessage) (a : Message) where
  -- The ids in a conversation's cache stay distinct.
  pub reconcile-DistinctIds :
      DistinctIds ms → DistinctIds (insert_or_reconcile_message compare ms a)
  unfolding insert_or_reconcile_message
  reconcile-DistinctIds d =
      sort-DistinctIds compare _ (replace_or_append-DistinctIds _ _ (filter-DistinctIds _ ms d))

  -- If `localeCompare` orders the texts, then the cache is in order of creation afterwards, whatever
  -- it was before.
  pub reconcile-IsSorted :
      IsCollation compare → IsSorted compare (insert_or_reconcile_message compare ms a)
  unfolding insert_or_reconcile_message
  reconcile-IsSorted c =
      sort-IsSorted compare c (replace_or_append (to_sent_message a) (survivors ms a))

  -- With distinct ids before, the cache holds afterwards exactly the message that arrived, and the
  -- old messages with another id that are not its placeholder.
  pub In-reconcile :
      (y : ChatMessage)
      → DistinctIds ms
      → In y (insert_or_reconcile_message compare ms a)
        ↔ ((y ≡ to_sent_message a) ⊎ (In y ms × (is_placeholder a y ≡ false) × (y.id ≢ a.id)))
  unfolding insert_or_reconcile_message
  In-reconcile y d = ground (
    arith,
    In-sort compare y (replace_or_append (to_sent_message a) (survivors ms a)),
    In-replace_or_append (to_sent_message a) y (survivors ms a) (filter-DistinctIds _ ms d),
    In-filter (λ m. not (is_placeholder a m)) y ms,
  )

  no_placeholder :
      All (λ m. not (is_placeholder a m) ≡ true) (insert_or_reconcile_message compare ms a)
  unfolding insert_or_reconcile_message
  no_placeholder = All-sort compare _ _ (
      All-replace_or_append _ (to_sent_message a) _ refl
        (All-filter_self (λ m. not (is_placeholder a m)) ms))

  -- A message that arrives once by the socket and once as the response changes nothing the second time.
  pub reconcile_twice :
      IsCollation compare
      → DistinctIds ms
      → insert_or_reconcile_message compare (insert_or_reconcile_message compare ms a) a
        ≡ insert_or_reconcile_message compare ms a
  reconcile_twice c d =
      reconcile_of_settled compare _ a no_placeholder (reconcile-DistinctIds d)
        ((In-reconcile (to_sent_message a) d).1 (inl refl)) (reconcile-IsSorted c)

  -- The version is not looked at: with distinct ids before, a message that arrives replaces a cached
  -- one of the same id also where the cached one has a greater version.
  pub reconcile_regresses :
      (m : ChatMessage)
      → DistinctIds ms
      → In m ms
      → m.id ≡ a.id
      → a.version < m.version
      → In (to_sent_message a) (insert_or_reconcile_message compare ms a)
        × ¬ In m (insert_or_reconcile_message compare ms a)
  unfolding to_sent_message
  reconcile_regresses m d i e v =
      ((In-reconcile (to_sent_message a) d).1 (inl refl), ground (arith, In-reconcile m d))
