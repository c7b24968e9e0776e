-- ===== src/NewConversation/Starting.antt =====
-- The outcome of `useStartConversation` of frontend/src/hooks/useConversationMutations.ts.
use bu3li_comms.Prelude.{
  String, true, if◌then◌else◌, ◌≡◌, refl, ap, sym, subst, Option, none, some, List, [], ◌∷◌, All,
  arith, ◌↔◌, Bool-cases, inl, inr,
}
use bu3li_comms.Conversations.{ConversationType}
use bu3li_comms.Http.{RequestInit, Fetched, Outcome, done, failed}
use bu3li_comms.Http.Endpoints.{Schemas, Conversation, create_conversation, add_conversation_member}
use bu3li_comms.NewConversation.{is_done, add_members, start_conversation}

module _ {Json : Type 0} (api_url : String) (fetch : String → RequestInit → Fetched Json)
    (schemas : Schemas Json) where
  abbrev pub IsAdded : String → String → Type 0
  IsAdded conversation_id user_id =
      is_done (add_conversation_member api_url fetch schemas conversation_id user_id) ≡ true

  add_members-All :
      (c : String) (ids : List String)
      → (add_members api_url fetch schemas c ids ≡ true) ↔ All (IsAdded c) ids
  unfolding add_members
  add_members-All c [] = (λ h. tt, λ h. refl)
  add_members-All c (u ∷ us) = ground (arith, add_members-All c us)

  started_of :
      (ids : List String) (c : Conversation) (o : Outcome Conversation)
      → ((elim o [
        | failed failure ↦ none
        | done d ↦ if add_members api_url fetch schemas d.id ids then some d else none
      ])
          ≡ some c)
        ↔ ((o ≡ done c) × All (IsAdded c.id) ids)
  started_of ids c (failed failure) = (λ h. absurd (ground arith), λ (e, a). absurd (ground arith))
  started_of ids c (done d) = (λ h. forward h, λ (e, a). backward e a)
    where
      answer : Option Conversation
      answer = if add_members api_url fetch schemas d.id ids then some d else none

      forward :
          answer ≡ some c
          → (◌≡◌ {A = Outcome Conversation} (done d) (done c)) × All (IsAdded c.id) ids
      forward h = elim (Bool-cases (add_members api_url fetch schemas d.id ids)) [
        | inr n ↦ absurd (ground arith)
        | inl y ↦
            let same : d ≡ c = ground arith in
            subst (λ x. (◌≡◌ {A = Outcome Conversation} (done d) (done x)) × All (IsAdded x.id) ids)
              same (refl, (add_members-All d.id ids).0 y)
      ]

      backward :
          ◌≡◌ {A = Outcome Conversation} (done d) (done c)
          → All (IsAdded c.id) ids
          → answer ≡ some c
      backward e a =
          let same : d ≡ c = cc in
          let y = (add_members-All d.id ids).1 (subst (λ x. All (IsAdded x.id) ids) (sym same) a) in
          rw (y) (ap some same)

  -- A conversation is started exactly if the server creates it and adds every one of the members.
  pub start_conversation_lem :
      (t : ConversationType) (ids : List String) (c : Conversation)
      → (start_conversation api_url fetch schemas t ids ≡ some c)
        ↔ ((create_conversation api_url fetch schemas t ≡ done c) × All (IsAdded c.id) ids)
  unfolding start_conversation
  start_conversation_lem t ids c = started_of ids c (create_conversation api_url fetch schemas t)
