-- ===== src/MessageCache/Status.antt =====
-- The life of an optimistic message: `markFailed`, `markRetrying` and `insertOrReconcileMessage` of
-- frontend/src/api/messageCache.ts together.
use Prim.Native.Nat.{Ordering}
use bu3li_comms.Prelude.{
  String, ◌≡◌, refl, ◌≢◌, ◌⊎◌, inl, inr, sym, ◌∙◌, List, [], ◌∷◌, map, All, In, arith,
}
use bu3li_comms.Message.{Message, ChatMessage, pending, failed, to_sent_message}
use bu3li_comms.MessageCache.{
  insert_or_reconcile_message, mark_failed, mark_retrying, fail_one, retry_one,
}
use bu3li_comms.MessageCache.Order.{DistinctIds}
use bu3li_comms.MessageCache.Reconcile.{In-reconcile}

-- Every message that was sent under the client id is still on its way.
abbrev pub AllPending : String → List ChatMessage → Type 0
AllPending c ms = All (λ m. m.client_message_id ≡ c → m.status ≡ pending) ms

retry_one-fail_one :
    (m : ChatMessage) (c : String)
    → (m.client_message_id ≡ c → m.status ≡ pending)
    → retry_one c (fail_one c m) ≡ m
retry_one-fail_one m c p = ground arith

-- If every message with the client id is pending, a failure and a retry give the cache back.
pub mark_retrying-mark_failed :
    (ms : List ChatMessage) (c : String) → AllPending c ms → mark_retrying (mark_failed ms c) c ≡ ms
unfolding mark_retrying mark_failed
mark_retrying-mark_failed [] c h = refl
mark_retrying-mark_failed (m ∷ ms) c (p, h) =
    cc (retry_one-fail_one m c p, mark_retrying-mark_failed ms c h)

In-mark_retrying :
    (m : ChatMessage) (ms : List ChatMessage) (c : String)
    → In m ms
    → In (retry_one c m) (mark_retrying ms c)
unfolding mark_retrying
In-mark_retrying m [] c i = elim i [ ]
In-mark_retrying m (x ∷ xs) c i = ground (arith, In-mark_retrying m xs c)

In-mark_retrying_cases :
    (y : ChatMessage) (ms : List ChatMessage) (c : String)
    → In y (mark_retrying ms c)
    → (In y ms × (y.client_message_id ≢ c)) ⊎ ((y.client_message_id ≡ c) × (y.status ≡ pending))
unfolding mark_retrying
In-mark_retrying_cases y [] c i = elim i [ ]
In-mark_retrying_cases y (x ∷ xs) c (inl e) = ground arith
In-mark_retrying_cases y (x ∷ xs) c (inr i) = ground (arith, In-mark_retrying_cases y xs c i)

retry_one_self : (m : ChatMessage) → retry_one m.client_message_id m ≡ record m { status = pending }
retry_one_self m = ground arith

-- A retry puts every message with the client id back to pending, also one that the server has
-- confirmed.
pub mark_retrying_any_status :
    (ms : List ChatMessage) (m : ChatMessage)
    → In m ms
    → In (record m { status = pending }) (mark_retrying ms m.client_message_id)
mark_retrying_any_status ms m i =
    rw (← retry_one_self m) (In-mark_retrying m ms m.client_message_id i)

retry_one-id : (m : ChatMessage) (c : String) → (retry_one c m).id ≡ m.id
retry_one-id m c = ground arith

All-retry :
    (c j k : String) (ms : List ChatMessage)
    → j ≡ k
    → All (λ x. x.id ≢ k) ms
    → All (λ x. x.id ≢ j) (map (retry_one c) ms)
All-retry c j k [] e h = tt
All-retry c j k (m ∷ ms) e (n, h) =
    (λ p. n (sym (retry_one-id m c) ∙ p ∙ e), All-retry c j k ms e h)

mark_retrying-DistinctIds :
    (ms : List ChatMessage) (c : String) → DistinctIds ms → DistinctIds (mark_retrying ms c)
unfolding mark_retrying
mark_retrying-DistinctIds [] c d = tt
mark_retrying-DistinctIds (m ∷ ms) c (f, d) =
    (All-retry c (retry_one c m).id m.id ms (retry_one-id m c) f, mark_retrying-DistinctIds ms c d)

module _ (compare : String → String → Ordering) (ms : List ChatMessage) (a : Message) where
  -- With distinct ids, a failed placeholder survives the arrival of its message under another id:
  -- the conversation then shows both.
  pub late_arrival_duplicates :
      (m : ChatMessage)
      → DistinctIds ms
      → In m ms
      → m.status ≡ failed
      → m.client_message_id ≡ a.client_message_id
      → m.id ≢ a.id
      → In m (insert_or_reconcile_message compare ms a)
        × In (to_sent_message a) (insert_or_reconcile_message compare ms a)
  unfolding to_sent_message
  late_arrival_duplicates m d i s e n = (
    (In-reconcile compare ms a m d).1 (inr (i, ground arith, n)),
    (In-reconcile compare ms a (to_sent_message a) d).1 (inl refl),
  )

  -- With distinct ids, once a retry has been answered the cache holds one message of the client id,
  -- the answer, whatever had piled up under it before.
  pub retry_leaves_one :
      (y : ChatMessage)
      → DistinctIds ms
      → In y (insert_or_reconcile_message compare (mark_retrying ms a.client_message_id) a)
      → (y ≡ to_sent_message a) ⊎ (In y ms × (y.client_message_id ≢ a.client_message_id))
  retry_leaves_one y d i = ground (
    arith,
    In-reconcile compare (mark_retrying ms a.client_message_id) a y
        (mark_retrying-DistinctIds ms a.client_message_id d),
    In-mark_retrying_cases y ms a.client_message_id,
  )
