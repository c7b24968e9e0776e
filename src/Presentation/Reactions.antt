-- ===== src/Presentation/Reactions.antt =====
-- frontend/src/components/messages/ReactionBar.tsx: the reactions of a message and the picker of one.
use bu3li_comms.Prelude.{
  ℕ, String, Bool, false, ◌==◌, ◌≡◌, refl, ap, subst, none, some, List, [], ◌∷◌, map, All, find,
  includes, length, arith, Bool-cases, inl, inr,
}
use bu3li_comms.Message.{ReactionSummary}
use bu3li_comms.MessageCache.Reactions.{reacted}

pub record ReactionButton : Type 0 where
  pub emoji : String
  pub is_active : Bool
  pub count : ℕ

-- A click on a button calls `onToggle` with its emoji and whether it is active.
unfoldable pub reaction_buttons : String → List ReactionSummary → List ReactionButton
reaction_buttons current_user_id reactions =
    map
      (λ r. record {
        emoji = r.emoji;
        is_active = includes current_user_id r.user_ids;
        count = length r.user_ids;
      })
      reactions

abbrev pub reaction_emojis : List String
reaction_emojis = "👍" ∷ "❤\u{fe0f}" ∷ "😂" ∷ "😮" ∷ "😢" ∷ "🎉" ∷ []

unfoldable pub is_picked : String → List ReactionSummary → String → Bool
is_picked current_user_id reactions emoji = elim (find (λ r. r.emoji == emoji) reactions) [
  | none ↦ false
  | some r ↦ includes current_user_id r.user_ids
]

-- what a click in the picker calls `onToggle` with, and whether the picker is open afterwards
unfoldable pub pick : String → List ReactionSummary → String → (String × Bool) × Bool
unfolding is_picked
pick current_user_id reactions emoji = ((emoji, is_picked current_user_id reactions emoji), false)

abbrev pub HasNo : String → List ReactionSummary → Type 0
HasNo emoji rs = All (λ r. (r.emoji == emoji) ≡ false) rs

-- Each emoji stands once.
abbrev pub AreDistinctEmojis : List ReactionSummary → Type 0
AreDistinctEmojis [] = Unit
AreDistinctEmojis (r ∷ rs) = HasNo r.emoji rs × AreDistinctEmojis rs

reacted-HasNo :
    (emoji user : String) (rs : List ReactionSummary)
    → HasNo emoji rs
    → reacted rs emoji user ≡ false
reacted-HasNo emoji user [] h = refl
reacted-HasNo emoji user (r ∷ rs) (e, h) = ground (arith, e, reacted-HasNo emoji user rs h)

is_picked-reacted :
    (user emoji : String) (rs : List ReactionSummary)
    → AreDistinctEmojis rs
    → is_picked user rs emoji ≡ reacted rs emoji user
unfolding is_picked
is_picked-reacted user emoji [] h = refl
is_picked-reacted user emoji (r ∷ rs) (d, h) = elim (Bool-cases (r.emoji == emoji)) [
  | inl e ↦
      let same : r.emoji ≡ emoji = ground (arith, e) in
      let none_left : reacted rs emoji user ≡ false =
        reacted-HasNo emoji user rs (subst (λ x. HasNo x rs) same d) in
      ground (arith, e, none_left)
  | inr e ↦ ground (arith, e, is_picked-reacted user emoji rs h)
]

-- If each emoji stands once among a message's reactions, then a click in the picker asks to change the
-- user's reaction from what it is, and closes the picker.
pub pick_lem :
    (user emoji : String) (rs : List ReactionSummary)
    → AreDistinctEmojis rs
    → pick user rs emoji ≡ ((emoji, reacted rs emoji user), false)
unfolding pick
pick_lem user emoji rs h = ap (λ b. ((emoji, b), false)) (is_picked-reacted user emoji rs h)
