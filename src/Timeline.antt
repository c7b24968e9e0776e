-- ===== src/Timeline.antt =====
-- How a conversation's messages are shown: frontend/src/components/messages/MessageList.tsx and the grouping of
-- frontend/src/lib/format.ts. A date's day and its time in milliseconds are the parameters `day_of` and
-- `time_of`; -1 as an index is `none`.
pub mod Content
pub mod Lossless
pub mod ReadMarks
pub mod Bubble
pub mod Tests
use bu3li_comms.Prelude.{
  ℕ, ◌+◌, ◌-◌, ltb, leb, eqb, String, Bool, true, false, not, ◌&&◌, ◌||◌, ◌==◌, if◌then◌else◌,
  Option, none, some, List, [], ◌∷◌, find_index, Dict,
}
use bu3li_comms.Message.{ChatMessage}

-- `a > b`, for indices
abbrev pub is_greater : Option ℕ → Option ℕ → Bool
is_greater none b = false
is_greater (some a) none = true
is_greater (some a) (some b) = ltb b a

abbrev pub index_of : List ChatMessage → String → Option ℕ
index_of messages message_id = find_index (λ m. m.id == message_id) messages

-- the loop over the entries
unfoldable pub highest_of : List ChatMessage → String → Option ℕ → Dict String → Option ℕ
highest_of messages current_user_id highest [] = highest
highest_of messages current_user_id highest (entry ∷ entries) =
    highest_of messages current_user_id
      (if entry.0 == current_user_id
        then highest
        else if is_greater (index_of messages entry.1) highest
        then index_of messages entry.1
        else highest)
      entries

unfoldable pub find_highest_read_index : List ChatMessage → Option (Dict String) → String → Option ℕ
unfolding highest_of
find_highest_read_index messages none current_user_id = none
find_highest_read_index messages (some last_read_by_peer) current_user_id =
    highest_of messages current_user_id none last_read_by_peer

-- `index <= highest`
abbrev pub is_up_to : ℕ → Option ℕ → Bool
is_up_to index none = false
is_up_to index (some highest) = leb index highest

module _ {Day : Type 0} (same_day : Day → Day → Bool) (day_of : String → Day)
    (time_of : String → ℕ) where
  unfoldable pub is_same_day : String → String → Bool
  is_same_day a b = same_day (day_of a) (day_of b)

  unfoldable pub should_group_with_previous : ChatMessage → Option ChatMessage → Bool
  unfolding is_same_day
  should_group_with_previous current none = false
  should_group_with_previous current (some previous) =
      previous.sender_id == current.sender_id
      && (ltb (time_of current.created_at) (time_of previous.created_at + 300000)
          && is_same_day previous.created_at current.created_at)

  pub record Row : Type 0 where
    pub message : ChatMessage
    pub is_own : Bool
    pub show_divider : Bool
    pub show_meta : Bool
    pub is_read_by_peer : Bool

  abbrev pub shows_divider : ChatMessage → Option ChatMessage → Bool
  shows_divider current none = true
  shows_divider current (some previous) = not (is_same_day previous.created_at current.created_at)

  -- the rows from an index on, with the message before
  unfoldable pub rows_from :
      String → Option ℕ → ℕ → Option ChatMessage → List ChatMessage → List Row
  unfolding should_group_with_previous is_same_day
  rows_from current_user_id highest index previous [] = []
  rows_from current_user_id highest index previous (m ∷ ms) =
      record {
        message = m;
        is_own = m.sender_id == current_user_id;
        show_divider = shows_divider m previous;
        show_meta = not (should_group_with_previous m previous);
        is_read_by_peer = m.sender_id == current_user_id && is_up_to index highest;
      }
      ∷ rows_from current_user_id highest (index + 1) (some m) ms

  unfoldable pub rows : String → Option (Dict String) → List ChatMessage → List Row
  unfolding rows_from find_highest_read_index
  rows current_user_id last_read_by_peer messages =
      rows_from current_user_id (find_highest_read_index messages last_read_by_peer current_user_id)
        0 none messages
