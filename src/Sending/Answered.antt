-- ===== src/Sending/Answered.antt =====
-- A message of frontend/src/hooks/useSendMessage.ts from `send` to the server's answer.
use Prim.Native.Nat.{Ordering}
use bu3li_comms.Prelude.{
  String, true, not, ◌≡◌, refl, ap, ◌∙◌, ◌≢◌, some, List, [], ◌∷◌, ◌++◌, filter, All, arith,
  Option-cases, inl, inr,
}
use bu3li_comms.Message.{Message, ChatMessage, pending}
use bu3li_comms.MessageCache.{
  insert_or_reconcile_message, is_placeholder, mark_failed, mark_retrying,
}
use bu3li_comms.Stores.{or_empty}
use bu3li_comms.Sending.{Conversation, pending_message, send_text, retry, on_sent, on_send_error}

-- the messages that no arrival of the answer drops
abbrev survivors : Message → List ChatMessage → List ChatMessage
survivors a ms = filter (λ m. not (is_placeholder a m)) ms

survivors-append_pending :
    (a : Message) (p : ChatMessage) (ms : List ChatMessage)
    → is_placeholder a p ≡ true
    → survivors a (ms ++ p ∷ []) ≡ survivors a ms
survivors-append_pending a p [] e = ground arith
survivors-append_pending a p (m ∷ ms) e = ground (arith, survivors-append_pending a p ms e)

reconcile_of_survivors :
    (compare : String → String → Ordering) (a : Message) (ms ns : List ChatMessage)
    → survivors a ms ≡ survivors a ns
    → insert_or_reconcile_message compare ms a ≡ insert_or_reconcile_message compare ns a
unfolding insert_or_reconcile_message
reconcile_of_survivors compare a ms ns e = cc

-- The answer to a message that was sent leaves the cache as if only the answer had arrived: its
-- placeholder is gone, and nothing else is lost.
pub on_sent-send_text :
    (compare : String → String → Ordering) (now content : String) (a : Message) (c : Conversation)
    → (on_sent compare a (send_text a.client_message_id now content c)).cached
      ≡ (on_sent compare a c).cached
unfolding on_sent send_text
on_sent-send_text compare now content a c = elim (Option-cases c.me) [
  | inl e ↦ rw e refl
  | inr (user, e) ↦ rw e (
      ap some (
        reconcile_of_survivors compare a _ _ (
          survivors-append_pending a (pending_message c.id user a.client_message_id now content)
            (or_empty c.cached) (ground arith))))
]

-- the cache of a message that has failed and is tried again
retried_append :
    (k : String) (p : ChatMessage) (ms : List ChatMessage)
    → p.client_message_id ≡ k
    → p.status ≡ pending
    → All (λ m. m.client_message_id ≢ k) ms
    → mark_retrying (mark_failed (ms ++ p ∷ []) k) k ≡ ms ++ p ∷ []
unfolding mark_retrying mark_failed
retried_append k p [] e s h = ground arith
retried_append k p (m ∷ ms) e s (n, h) = ground (arith, retried_append k p ms e s h)

untouched :
    (k : String) (ms : List ChatMessage)
    → All (λ m. m.client_message_id ≢ k) ms
    → mark_retrying (mark_failed ms k) k ≡ ms
unfolding mark_retrying mark_failed
untouched k [] h = refl
untouched k (m ∷ ms) (n, h) = ground (arith, untouched k ms h)

-- A message whose request fails and is retried with success leaves the cache as if only the answer had
-- arrived, if no cached message has the new client id.
pub on_sent-retry :
    (compare : String → String → Ordering) (now content : String) (a : Message) (m : ChatMessage)
    (c : Conversation)
    → m.client_message_id ≡ a.client_message_id
    → All (λ x. x.client_message_id ≢ a.client_message_id) (or_empty c.cached)
    → let sent = send_text a.client_message_id now content c in
      let tried = retry m (on_send_error a.client_message_id sent) in
      (on_sent compare a tried).cached ≡ (on_sent compare a c).cached
unfolding on_sent send_text retry on_send_error
on_sent-retry compare now content a m c e h = elim (Option-cases c.me) [
  | inl k ↦
      rw (e, k)
        (ap some (
          reconcile_of_survivors compare a _ _
            (ap (survivors a) (untouched a.client_message_id (or_empty c.cached) h))))
  | inr (user, k) ↦
      let p = pending_message c.id user a.client_message_id now content in
      rw (e, k)
        (ap some (
          reconcile_of_survivors compare a _ _ (
            ap (survivors a) (retried_append a.client_message_id p (or_empty c.cached) refl refl h)
            ∙ survivors-append_pending a p (or_empty c.cached) (ground arith))))
]
