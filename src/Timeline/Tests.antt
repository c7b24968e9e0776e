-- ===== src/Timeline/Tests.antt =====
-- Messages of frontend/src/components/messages/MessageList.tsx and MessageContent.tsx on concrete inputs.
use bu3li_comms.Prelude.{
  ℕ, ◌≤◌, String, Bool, false, ◌≡◌, refl, some, List, [], ◌∷◌, Dict, arith, length,
}
use bu3li_comms.Message.{ChatMessage, to_sent_message}
use bu3li_comms.MessageCache.Tests.{first}
use bu3li_comms.Timeline.{find_highest_read_index, is_up_to}
use bu3li_comms.Timeline.Content.{
  text, bold, mention, render_content, nodes_of, match_token, match_between, span, after,
}
use bu3li_comms.Timeline.Lossless.{sources, sources-render_content, nodes_of-render_content}
use bu3li_comms.Timeline.ReadMarks.{is_read_by, find_highest_read_index_lem}

abbrev nobody : List ℕ → Bool
nobody name = false

-- "a**b**@c"
abbrev content : List ℕ
content = 97 ∷ 42 ∷ 42 ∷ 98 ∷ 42 ∷ 42 ∷ 64 ∷ 99 ∷ []

render_content_test :
    render_content nobody content ≡ text (97 ∷ []) ∷ bold (98 ∷ []) ∷ mention false (99 ∷ []) ∷ []
unfolding render_content nodes_of match_token match_between span after
render_content_test = refl

sources-render_content_example : sources (render_content nobody content) ≡ content
sources-render_content_example = sources-render_content nobody content

content_short : length content ≤ 20
content_short = omega arith

nodes_of-render_content_example : nodes_of nobody 20 [] content ≡ render_content nobody content
nodes_of-render_content_example = nodes_of-render_content nobody 20 content content_short

abbrev messages : List ChatMessage
messages = to_sent_message first ∷ []

abbrev last_read : Dict String
last_read = ("u2", first.id) ∷ []

find_highest_read_index_lem_example :
    is_up_to 0 (find_highest_read_index messages (some last_read) "u1")
    ≡ is_read_by messages "u1" 0 last_read
find_highest_read_index_lem_example = find_highest_read_index_lem messages last_read "u1" 0
