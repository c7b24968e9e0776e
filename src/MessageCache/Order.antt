-- ===== src/MessageCache/Order.antt =====
-- The order of a conversation: `sortByCreatedAt` of frontend/src/api/messageCache.ts.
use Prim.Native.Nat.{Ordering}
use bu3li_comms.Prelude.{
  String, true, false, ◌≡◌, refl, sym, ◌≢◌, ◌↔◌, ◌⊎◌, List, [], ◌∷◌, All, In, arith, Bool-cases,
  inl, inr,
}
use bu3li_comms.Message.{ChatMessage}
use bu3li_comms.MessageCache.{is_not_gt, not_after, insert_sorted, sort_by_created_at}

-- What `localeCompare` promises: it orders the texts.
pub record IsCollation (compare : String → String → Ordering) : Type 0 where
  pub total : (a b : String) → (is_not_gt (compare a b) ≡ true) ⊎ (is_not_gt (compare b a) ≡ true)
  pub trans :
      (a b c : String)
      → is_not_gt (compare a b) ≡ true
      → is_not_gt (compare b c) ≡ true
      → is_not_gt (compare a c) ≡ true

-- No two messages share an id.
abbrev pub DistinctIds : List ChatMessage → Type 0
DistinctIds [] = Unit
DistinctIds (m ∷ ms) = All (λ x. x.id ≢ m.id) ms × DistinctIds ms

module _ (compare : String → String → Ordering) where
  abbrev pub Before : ChatMessage → ChatMessage → Type 0
  Before a b = not_after compare a b ≡ true

  abbrev pub IsSorted : List ChatMessage → Type 0
  IsSorted [] = Unit
  IsSorted (m ∷ ms) = All (Before m) ms × IsSorted ms

  pub All-insert_sorted {κ} :
      (P : ChatMessage → Type κ) (m : ChatMessage) (ms : List ChatMessage)
      → P m
      → All P ms
      → All P (insert_sorted compare m ms)
  unfolding insert_sorted
  All-insert_sorted P m [] p h = (p, tt)
  All-insert_sorted P m (x ∷ xs) p (q, h) = ground (arith, All-insert_sorted P m xs p h)

  pub All-sort {κ} :
      (P : ChatMessage → Type κ) (ms : List ChatMessage)
      → All P ms
      → All P (sort_by_created_at compare ms)
  unfolding sort_by_created_at
  All-sort P [] h = tt
  All-sort P (m ∷ ms) (p, h) = All-insert_sorted P m _ p (All-sort P ms h)

  In-insert_sorted :
      (y m : ChatMessage) (ms : List ChatMessage)
      → In y (insert_sorted compare m ms) ↔ ((y ≡ m) ⊎ In y ms)
  unfolding insert_sorted
  In-insert_sorted y m [] = ground arith
  In-insert_sorted y m (x ∷ xs) = ground (arith, In-insert_sorted y m xs)

  pub In-sort :
      (y : ChatMessage) (ms : List ChatMessage) → In y (sort_by_created_at compare ms) ↔ In y ms
  unfolding sort_by_created_at
  In-sort y [] = ground arith
  In-sort y (m ∷ ms) =
      ground (arith, In-insert_sorted y m (sort_by_created_at compare ms), In-sort y ms)

  insert_sorted-DistinctIds :
      (m : ChatMessage) (ms : List ChatMessage)
      → All (λ x. x.id ≢ m.id) ms
      → DistinctIds ms
      → DistinctIds (insert_sorted compare m ms)
  unfolding insert_sorted
  insert_sorted-DistinctIds m [] f d = (tt, tt)
  insert_sorted-DistinctIds m (x ∷ xs) (n, f) (g, d) = ground (
    arith,
    insert_sorted-DistinctIds m xs f d,
    All-insert_sorted (λ y. y.id ≢ x.id) m xs (λ e. n (sym e)) g,
  )

  pub sort-DistinctIds :
      (ms : List ChatMessage) → DistinctIds ms → DistinctIds (sort_by_created_at compare ms)
  unfolding sort_by_created_at
  sort-DistinctIds [] d = tt
  sort-DistinctIds (m ∷ ms) (f, d) =
      insert_sorted-DistinctIds m _ (All-sort (λ x. x.id ≢ m.id) ms f) (sort-DistinctIds ms d)

  module _ (c : IsCollation compare) where
    Before-All :
        (m x : ChatMessage) (xs : List ChatMessage)
        → Before m x
        → All (Before x) xs
        → All (Before m) xs
    Before-All m x [] b h = tt
    Before-All m x (y ∷ ys) b (p, h) =
        (c.trans m.created_at x.created_at y.created_at b p, Before-All m x ys b h)

    x_first : (m x : ChatMessage) → not_after compare m x ≡ false → Before x m
    x_first m x n = ground (arith, c.total m.created_at x.created_at)

    insert_sorted-IsSorted :
        (m : ChatMessage) (ms : List ChatMessage)
        → IsSorted ms
        → IsSorted (insert_sorted compare m ms)
    unfolding insert_sorted
    insert_sorted-IsSorted m [] s = (tt, tt)
    insert_sorted-IsSorted m (x ∷ xs) (h, s) = elim (Bool-cases (not_after compare m x)) [
      | inl b ↦ rw b ((b, Before-All m x xs b h), (h, s))
      | inr n ↦
          rw n (All-insert_sorted (Before x) m xs (x_first m x n) h, insert_sorted-IsSorted m xs s)
    ]

    pub sort-IsSorted : (ms : List ChatMessage) → IsSorted (sort_by_created_at compare ms)
    unfolding sort_by_created_at
    sort-IsSorted [] = tt
    sort-IsSorted (m ∷ ms) = insert_sorted-IsSorted m _ (sort-IsSorted ms)

  insert_sorted_of_first :
      (m : ChatMessage) (ms : List ChatMessage)
      → All (Before m) ms
      → insert_sorted compare m ms ≡ m ∷ ms
  unfolding insert_sorted
  insert_sorted_of_first m [] h = refl
  insert_sorted_of_first m (x ∷ xs) (b, h) = ground arith

  -- Sorting leaves a sorted list as it is.
  pub sort_of_IsSorted : (ms : List ChatMessage) → IsSorted ms → sort_by_created_at compare ms ≡ ms
  unfolding sort_by_created_at
  sort_of_IsSorted [] s = refl
  sort_of_IsSorted (m ∷ ms) (h, s) = rw (sort_of_IsSorted ms s) (insert_sorted_of_first m ms h)
