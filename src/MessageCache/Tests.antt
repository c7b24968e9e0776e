-- ===== src/MessageCache/Tests.antt =====
-- The functions of frontend/src/api/messageCache.ts on concrete conversations.
use Prim.Native.Nat.{Ordering}
use bu3li_comms.Prelude.{
  ℕ, ◌<◌, String, true, false, not, String-discrete, ne_of_test, if◌then◌else◌, ◌≡◌, refl, subst,
  ◌≢◌, ◌↔◌, ◌⊎◌, inl, inr, List, [], ◌∷◌, In, arith, none, Bool-cases,
}
use bu3li_comms.Utf16.{str_lt, str_lt-total, str_lt_trans, str_lt_irrefl}
use bu3li_comms.Message.{Message, ChatMessage, pending, failed, to_sent_message}
use bu3li_comms.MessageCache.{
  is_not_gt, is_placeholder, insert_or_reconcile_message, replace_if_newer, mark_retrying,
  add_reaction_local, remove_reaction_local,
}
use bu3li_comms.MessageCache.Order.{IsCollation, DistinctIds, IsSorted}
use mathlib.Core.List.{foldl}
use bu3li_comms.MessageCache.Versions.{replace_if_newer-IsLatest, IsLatest}
use bu3li_comms.MessageCache.Reactions.{has_reaction}
use bu3li_comms.MessageCache.Reconcile.{reconcile-DistinctIds, reconcile-IsSorted, In-reconcile}

-- the order of the texts' code units
abbrev pub by_units : String → String → Ordering
by_units a b = if str_lt b a then Ordering.gt else if str_lt a b then Ordering.lt else Ordering.eq

not_gt : (a b : String) → is_not_gt (by_units a b) ≡ not (str_lt b a)
not_gt a b = ground arith

asym : (a b : String) → str_lt a b ≡ true → str_lt b a ≡ false
asym a b h = elim (Bool-cases (str_lt b a)) [
  | inr e ↦ e
  | inl e ↦ absurd (ground (arith, str_lt_trans a b a h e, str_lt_irrefl a))
]

le_trans : (a b c : String) → str_lt b a ≡ false → str_lt c b ≡ false → str_lt c a ≡ false
le_trans a b c h k = elim (Bool-cases (str_lt c a)) [
  | inr e ↦ e
  | inl e ↦ elim (String-discrete a b) [
    | yes same ↦ absurd (ground (arith, subst (λ x. str_lt c x ≡ true) same e))
    | no other ↦ absurd (ground (arith, str_lt-total a b other, str_lt_trans c a b e))
  ]
]

pub by_units-IsCollation : IsCollation by_units
by_units-IsCollation = record {
  total = λ a b. ground (arith, not_gt a b, not_gt b a, asym a b);
  trans = λ a b c h k. ground (arith, not_gt a b, not_gt b c, not_gt a c, le_trans a b c);
}

abbrev pub message_of : String → String → ℕ → String → Message
message_of id client version created_at = record {
  id = id;
  conversation_id = "general";
  sender_id = "ann";
  client_message_id = client;
  content = "hello";
  version = version;
  created_at = created_at;
  updated_at = created_at;
  has_attachment = false;
  attachment_kind = none;
  attachment_duration_ms = 0;
  attachment_width_px = 0;
  attachment_height_px = 0;
  reactions = [];
}

abbrev pub first : Message
first = message_of "m1" "c1" 1 "2026-01-01"

abbrev pub second : Message
second = message_of "m2" "c2" 1 "2026-01-02"

abbrev edited : Message
edited = message_of "m1" "c1" 3 "2026-01-01"

-- the optimistic copy of the second message
abbrev pub placeholder : ChatMessage
placeholder = record { message = message_of "c2" "c2" 1 "2026-01-03"; status = pending }

abbrev pub conversation : List ChatMessage
conversation = placeholder ∷ to_sent_message first ∷ []

pub conversation-DistinctIds : DistinctIds conversation
unfolding to_sent_message String-discrete
conversation-DistinctIds = ((ne_of_test "m1" "c2" refl, tt), (tt, tt))

reconcile_test :
    insert_or_reconcile_message by_units conversation second
    ≡ to_sent_message first ∷ to_sent_message second ∷ []
unfolding insert_or_reconcile_message str_lt String-discrete
reconcile_test = refl

reconcile-DistinctIds_example :
    DistinctIds (insert_or_reconcile_message by_units conversation second)
reconcile-DistinctIds_example =
    reconcile-DistinctIds by_units conversation second conversation-DistinctIds

reconcile-IsSorted_example :
    IsSorted by_units (insert_or_reconcile_message by_units conversation second)
reconcile-IsSorted_example = reconcile-IsSorted by_units conversation second by_units-IsCollation

In-reconcile_example : In placeholder (insert_or_reconcile_message by_units conversation second) ↔ (
    (placeholder ≡ to_sent_message second)
    ⊎ (In placeholder conversation
        × (is_placeholder second placeholder ≡ false)
        × (placeholder.id ≢ second.id)))
In-reconcile_example =
    In-reconcile by_units conversation second placeholder conversation-DistinctIds

abbrev newer : List ChatMessage
newer = to_sent_message edited ∷ []

edited_id : (to_sent_message edited).id ≡ first.id
unfolding to_sent_message
edited_id = refl

edited_version : first.version < (to_sent_message edited).version
unfolding to_sent_message
edited_version = omega arith

edited-In : In (to_sent_message edited) (foldl replace_if_newer conversation (edited ∷ first ∷ []))
unfolding replace_if_newer to_sent_message String-discrete
edited-In = inr (inl refl)

replace_if_newer-IsLatest_example :
    (m : ChatMessage) × In m conversation
    × IsLatest (edited ∷ first ∷ []) m (to_sent_message edited)
replace_if_newer-IsLatest_example =
    replace_if_newer-IsLatest (edited ∷ first ∷ []) conversation (to_sent_message edited) edited-In

abbrev given_up : ChatMessage
given_up = record placeholder { status = failed }

c2_m2 : given_up.id ≢ second.id
unfolding String-discrete
c2_m2 = ne_of_test "c2" "m2" refl

retried :
    In
      (to_sent_message second)
      (insert_or_reconcile_message by_units (mark_retrying conversation "c2") second)
unfolding insert_or_reconcile_message mark_retrying to_sent_message str_lt String-discrete
retried = inr (inl refl)

reaction_test :
    has_reaction
      (remove_reaction_local (add_reaction_local conversation "m1" "bob" "+1") "m1" "bob" "+1")
      "m1"
      "+1"
      "bob"
    ≡ false
unfolding remove_reaction_local add_reaction_local to_sent_message String-discrete
reaction_test = refl
