-- ===== src/MessageCache.antt =====
-- frontend/src/api/messageCache.ts: the pure functions that keep the cached list of a conversation's
-- messages. `localeCompare` belongs to the JavaScript engine and is a parameter, `compare`;
-- `Array.prototype.sort` is a stable sort, written as an insertion sort.
pub mod Order
pub mod Reconcile
pub mod Versions
pub mod Status
pub mod Reactions
pub mod Tests
use Prim.Native.Nat.{Ordering}
use bu3li_comms.Prelude.{
  String, Bool, true, false, not, ◌&&◌, ◌==◌, ltb, if◌then◌else◌, List, [], ◌∷◌, ◌++◌, map, filter,
  includes, some, none, set, find_index,
}
use bu3li_comms.Message.{
  Message, ChatMessage, ReactionSummary, MessageStatus, sent, pending, failed, to_sent_message,
}

abbrev pub is_pending : MessageStatus → Bool
is_pending pending = true
is_pending _ = false

abbrev pub is_not_gt : Ordering → Bool
is_not_gt Ordering.gt = false
is_not_gt _ = true

module _ (compare : String → String → Ordering) where
  -- `a` may stand before `b`: `a.created_at.localeCompare(b.created_at) <= 0`
  abbrev pub not_after : ChatMessage → ChatMessage → Bool
  not_after a b = is_not_gt (compare a.created_at b.created_at)

  unfoldable pub insert_sorted : ChatMessage → List ChatMessage → List ChatMessage
  insert_sorted m [] = m ∷ []
  insert_sorted m (x ∷ xs) = if not_after m x then m ∷ x ∷ xs else x ∷ insert_sorted m xs

  unfoldable pub sort_by_created_at : List ChatMessage → List ChatMessage
  sort_by_created_at [] = []
  sort_by_created_at (x ∷ xs) = insert_sorted x (sort_by_created_at xs)

-- the optimistic placeholder of the message that arrives
abbrev pub is_placeholder : Message → ChatMessage → Bool
is_placeholder incoming m =
    is_pending m.status && (m.client_message_id == incoming.client_message_id)

-- the message replaces the first one with its id, or is added at the end
unfoldable pub replace_or_append : ChatMessage → List ChatMessage → List ChatMessage
replace_or_append confirmed messages = elim (find_index (λ m. m.id == confirmed.id) messages) [
  | some existing_index ↦ set messages existing_index confirmed
  | none ↦ messages ++ confirmed ∷ []
]

unfoldable pub insert_or_reconcile_message :
    (String → String → Ordering) → List ChatMessage → Message → List ChatMessage
unfolding to_sent_message replace_or_append insert_sorted sort_by_created_at
insert_or_reconcile_message compare messages incoming =
    let without_optimistic = filter (λ m. not (is_placeholder incoming m)) messages in
    sort_by_created_at compare (replace_or_append (to_sent_message incoming) without_optimistic)

abbrev pub newer_of : Message → ChatMessage → ChatMessage
newer_of incoming m =
    if not (m.id == incoming.id)
    then m
    else if ltb incoming.version m.version
    then m
    else record { message = incoming; status = sent }

unfoldable pub replace_if_newer : List ChatMessage → Message → List ChatMessage
replace_if_newer messages incoming = map (newer_of incoming) messages

unfoldable pub remove_by_id : List ChatMessage → String → List ChatMessage
remove_by_id messages message_id = filter (λ m. not (m.id == message_id)) messages

abbrev pub fail_one : String → ChatMessage → ChatMessage
fail_one client_message_id m =
    if is_pending m.status && (m.client_message_id == client_message_id)
    then record m { status = failed }
    else m

unfoldable pub mark_failed : List ChatMessage → String → List ChatMessage
mark_failed messages client_message_id = map (fail_one client_message_id) messages

abbrev pub retry_one : String → ChatMessage → ChatMessage
retry_one client_message_id m =
    if m.client_message_id == client_message_id then record m { status = pending } else m

unfoldable pub mark_retrying : List ChatMessage → String → List ChatMessage
mark_retrying messages client_message_id = map (retry_one client_message_id) messages

-- the copy of a message's reactions, after its `find` and `push`
unfoldable pub add_to_reactions : String → String → List ReactionSummary → List ReactionSummary
add_to_reactions user_id emoji [] = record { emoji = emoji; user_ids = user_id ∷ [] } ∷ []
add_to_reactions user_id emoji (r ∷ rs) =
    if r.emoji == emoji
    then (if includes user_id r.user_ids
        then r
        else record r { user_ids = r.user_ids ++ user_id ∷ [] })
      ∷ rs
    else r ∷ add_to_reactions user_id emoji rs

abbrev pub with_reactions : ChatMessage → List ReactionSummary → ChatMessage
with_reactions m reactions = record m { message = record m.message { reactions = reactions } }

unfoldable pub add_reaction_local : List ChatMessage → String → String → String → List ChatMessage
unfolding add_to_reactions
add_reaction_local messages message_id user_id emoji =
    map
      (λ m.
        if not (m.id == message_id)
        then m
        else with_reactions m (add_to_reactions user_id emoji m.reactions))
      messages

abbrev pub without_user : String → String → ReactionSummary → ReactionSummary
without_user user_id emoji r =
    if r.emoji == emoji
    then record r { user_ids = filter (λ id. not (id == user_id)) r.user_ids }
    else r

abbrev pub is_empty : List String → Bool
is_empty [] = true
is_empty (_ ∷ _) = false

unfoldable pub remove_from_reactions : String → String → List ReactionSummary → List ReactionSummary
remove_from_reactions user_id emoji rs =
    filter (λ r. not (is_empty r.user_ids)) (map (without_user user_id emoji) rs)

unfoldable pub remove_reaction_local :
    List ChatMessage → String → String → String → List ChatMessage
unfolding remove_from_reactions
remove_reaction_local messages message_id user_id emoji =
    map
      (λ m.
        if not (m.id == message_id)
        then m
        else with_reactions m (remove_from_reactions user_id emoji m.reactions))
      messages
