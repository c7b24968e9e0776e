-- ===== src/Sending/Toggled.antt =====
-- `useToggleReaction` of frontend/src/hooks/useToggleReaction.ts.
use bu3li_comms.Prelude.{String, Bool, true, false, not, ◌≡◌, if◌then◌else◌, some, arith}
use bu3li_comms.MessageCache.Reactions.{
  has_reaction, has_message, same_triple, has_reaction-add, has_reaction-remove,
}
use bu3li_comms.Stores.{or_empty}
use bu3li_comms.Sending.{Conversation, toggle_reaction}

-- If the user is known, the message is cached and `is_active` is whether the user has reacted to it with
-- the emoji, then toggling changes whether they have, and no other reaction.
pub has_reaction-toggle_reaction :
    (m e u m' e' u' : String) (b : Bool) (c : Conversation)
    → c.me ≡ some u
    → has_message (or_empty c.cached) m ≡ true
    → b ≡ has_reaction (or_empty c.cached) m e u
    → has_reaction (or_empty (toggle_reaction m e b c).cached) m' e' u'
      ≡ (if same_triple m u e m' u' e' then not b else has_reaction (or_empty c.cached) m' e' u')
unfolding toggle_reaction
has_reaction-toggle_reaction m e u m' e' u' true c k h a =
    rw k (ground (arith, has_reaction-remove (or_empty c.cached) m u e m' u' e'))
has_reaction-toggle_reaction m e u m' e' u' false c k h a =
    rw k (ground (arith, has_reaction-add (or_empty c.cached) m u e m' u' e'))
