-- ===== src/Http/Loading.antt =====
-- The messages that frontend/src/hooks/useMessages.ts loads, and the cache of frontend/src/api/messageCache.ts.
use Prim.Native.Nat.{Ordering}
use bu3li_comms.Prelude.{
  String, true, not, ◌≡◌, refl, ap, ◌∙◌, none, List, [], ◌∷◌, map, All, In, arith,
}
use bu3li_comms.Message.{Message, ChatMessage, to_sent_message}
use bu3li_comms.MessageCache.{
  sort_by_created_at, insert_sorted, insert_or_reconcile_message, is_placeholder,
}
use bu3li_comms.MessageCache.Order.{IsCollation, IsSorted, DistinctIds, sort-IsSorted, All-sort}
use bu3li_comms.MessageCache.Reconcile.{reconcile_of_settled}
use bu3li_comms.Http.{RequestInit, Fetched, done, api_fetch, get, concat}
use bu3li_comms.Http.Outcomes.{then_read-done}
use bu3li_comms.Http.Endpoints.{
  Schemas, insert_message, sort_messages, list_messages, query_messages,
}

module _ (compare : String → String → Ordering) where
  map-insert_message :
      (m : Message) (ms : List Message)
      → map to_sent_message (insert_message compare m ms)
        ≡ insert_sorted compare (to_sent_message m) (map to_sent_message ms)
  unfolding insert_message insert_sorted to_sent_message
  map-insert_message m [] = refl
  map-insert_message m (x ∷ xs) = ground (arith, map-insert_message m xs)

  -- Sorting the messages that the server sends is the cache's sorting of what is cached for them.
  pub map-sort_messages :
      (ms : List Message)
      → map to_sent_message (sort_messages compare ms)
        ≡ sort_by_created_at compare (map to_sent_message ms)
  unfolding sort_messages sort_by_created_at
  map-sort_messages [] = refl
  map-sort_messages (m ∷ ms) =
      map-insert_message m (sort_messages compare ms)
      ∙ ap (insert_sorted compare (to_sent_message m)) (map-sort_messages ms)

  sent_settled :
      (m : Message) (ms : List Message)
      → All (λ x. not (is_placeholder m x) ≡ true) (map to_sent_message ms)
  unfolding to_sent_message
  sent_settled m [] = tt
  sent_settled m (x ∷ ms) = (refl, sent_settled m ms)

module _ {Json : Type 0} (api_url : String) (fetch : String → RequestInit → Fetched Json)
    (schemas : Schemas Json) (compare : String → String → Ordering) where
  query_messages-cases :
      (id : String) (cached : List ChatMessage)
      → query_messages api_url fetch schemas compare id ≡ done cached
      → (ms : List Message) × (cached ≡ sort_by_created_at compare (map to_sent_message ms))
  unfolding query_messages list_messages
  query_messages-cases id cached h =
      let (sorted, e, f) =
        then_read-done (list_messages api_url fetch schemas compare id)
          (λ ms. done (map to_sent_message ms)) cached h in
      let (ms, k, g) =
        then_read-done
          (api_fetch api_url fetch (concat ("/conversations/" ∷ id ∷ "/messages" ∷ []))
            schemas.message_list get none)
          (λ ms. done (sort_messages compare ms)) sorted e in
      (ms, ground (arith, f, g, map-sort_messages compare ms))

  -- If `localeCompare` orders the texts, then a conversation that has been loaded is in order of creation,
  -- and a message of it whose event arrives afterwards changes nothing, if the ids are distinct.
  pub reconcile-query_messages :
      (id : String) (cached : List ChatMessage) (m : Message)
      → IsCollation compare
      → query_messages api_url fetch schemas compare id ≡ done cached
      → DistinctIds cached
      → In (to_sent_message m) cached
      → IsSorted compare cached × (insert_or_reconcile_message compare cached m ≡ cached)
  reconcile-query_messages id cached m c h d i =
      let (ms, e) = query_messages-cases id cached h in
      let sorted : IsSorted compare cached =
        rw e (sort-IsSorted compare c (map to_sent_message ms)) in
      let settled : All (λ x. not (is_placeholder m x) ≡ true) cached = rw e (
        All-sort compare (λ x. not (is_placeholder m x) ≡ true) (map to_sent_message ms)
          (sent_settled compare m ms)) in
      (sorted, reconcile_of_settled compare cached m settled d i sorted)
