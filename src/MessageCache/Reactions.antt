-- ===== src/MessageCache/Reactions.antt =====
-- `addReactionLocal` and `removeReactionLocal` of frontend/src/api/messageCache.ts against the set
-- of triples (message, emoji, user) that they stand for.
use bu3li_comms.Prelude.{
  String, Bool, true, false, not, ◌&&◌, ◌||◌, ◌==◌, ◌≡◌, refl, ◌∙◌, List, [], ◌∷◌, map, any,
  includes, arith, filter, includes-append,
}
use bu3li_comms.Message.{ChatMessage, ReactionSummary}
use bu3li_comms.MessageCache.{
  is_empty, without_user, add_to_reactions, remove_from_reactions, add_reaction_local,
  remove_reaction_local,
}

abbrev pub reacted : List ReactionSummary → String → String → Bool
reacted rs emoji user = any (λ r. r.emoji == emoji && includes user r.user_ids) rs

abbrev pub has_reaction : List ChatMessage → String → String → String → Bool
has_reaction ms message emoji user = any (λ m. m.id == message && reacted m.reactions emoji user) ms

abbrev pub same_triple : String → String → String → String → String → String → Bool
same_triple m u e m' u' e' = m == m' && (e == e' && u == u')

reacted-add :
    (u e e' u' : String) (rs : List ReactionSummary)
    → reacted (add_to_reactions u e rs) e' u' ≡ ((e == e' && u == u') || reacted rs e' u')
unfolding add_to_reactions
reacted-add u e e' u' [] = ground arith
reacted-add u e e' u' (r ∷ rs) =
    ground (arith, reacted-add u e e' u' rs, includes-append u' r.user_ids (u ∷ []))

includes-filter_ne :
    (u u' : String) (us : List String)
    → includes u' (filter (λ id. not (id == u)) us) ≡ (not (u == u') && includes u' us)
includes-filter_ne u u' [] = ground arith
includes-filter_ne u u' (x ∷ us) = ground (arith, includes-filter_ne u u' us)

includes-empty : (u : String) (us : List String) → is_empty us ≡ true → includes u us ≡ false
includes-empty u [] h = refl
includes-empty u (x ∷ us) h = cc

reacted-filter_empty :
    (e u : String) (rs : List ReactionSummary)
    → reacted (filter (λ r. not (is_empty r.user_ids)) rs) e u ≡ reacted rs e u
reacted-filter_empty e u [] = refl
reacted-filter_empty e u (r ∷ rs) =
    ground (arith, reacted-filter_empty e u rs, includes-empty u r.user_ids)

reacted-map_without :
    (u e e' u' : String) (rs : List ReactionSummary)
    → reacted (map (without_user u e) rs) e' u' ≡ (not (e == e' && u == u') && reacted rs e' u')
reacted-map_without u e e' u' [] = ground arith
reacted-map_without u e e' u' (r ∷ rs) =
    ground (arith, reacted-map_without u e e' u' rs, includes-filter_ne u u' r.user_ids)

reacted-remove :
    (u e e' u' : String) (rs : List ReactionSummary)
    → reacted (remove_from_reactions u e rs) e' u' ≡ (not (e == e' && u == u') && reacted rs e' u')
unfolding remove_from_reactions
reacted-remove u e e' u' rs =
    reacted-filter_empty e' u' (map (without_user u e) rs) ∙ reacted-map_without u e e' u' rs

abbrev pub has_message : List ChatMessage → String → Bool
has_message ms message = any (λ m. m.id == message) ms

-- Adding a reaction adds exactly that triple, if the message is cached.
pub has_reaction-add :
    (ms : List ChatMessage) (m u e m' u' e' : String)
    → has_reaction (add_reaction_local ms m u e) m' e' u'
      ≡ ((has_message ms m && same_triple m u e m' u' e') || has_reaction ms m' e' u')
unfolding add_reaction_local
has_reaction-add [] m u e m' u' e' = ground arith
has_reaction-add (x ∷ ms) m u e m' u' e' =
    ground (arith, has_reaction-add ms m u e m' u' e', reacted-add u e e' u' x.reactions)

-- Removing a reaction removes exactly that triple.
pub has_reaction-remove :
    (ms : List ChatMessage) (m u e m' u' e' : String)
    → has_reaction (remove_reaction_local ms m u e) m' e' u'
      ≡ (not (same_triple m u e m' u' e') && has_reaction ms m' e' u')
unfolding remove_reaction_local
has_reaction-remove [] m u e m' u' e' = ground arith
has_reaction-remove (x ∷ ms) m u e m' u' e' =
    ground (arith, has_reaction-remove ms m u e m' u' e', reacted-remove u e e' u' x.reactions)
