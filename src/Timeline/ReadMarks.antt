-- ===== src/Timeline/ReadMarks.antt =====
-- The rows of frontend/src/components/messages/MessageList.tsx.
use bu3li_comms.Prelude.{
  ℕ, ◌+◌, String, Bool, true, not, ◌&&◌, ◌||◌, ◌==◌, if◌then◌else◌, ◌≡◌, refl, ap, ◌∙◌, Option,
  none, some, List, [], ◌∷◌, map, any, All, Dict, arith, Bool-cases, inl, inr,
}
use bu3li_comms.Message.{ChatMessage}
use bu3li_comms.Timeline.{
  is_greater, index_of, highest_of, find_highest_read_index, is_up_to, should_group_with_previous,
  shows_divider, Row, rows_from, rows,
}

up_to_greater :
    (i : ℕ) (a h : Option ℕ)
    → is_up_to i (if is_greater a h then a else h) ≡ (is_up_to i h || is_up_to i a)
up_to_greater i none none = refl
up_to_greater i none (some h) = ground arith
up_to_greater i (some a) none = refl
up_to_greater i (some a) (some h) = ground arith

-- Whether some other user has read up to a message at an index or after it.
abbrev pub is_read_by : List ChatMessage → String → ℕ → Dict String → Bool
is_read_by messages user i entries =
    any (λ e. not (e.0 == user) && is_up_to i (index_of messages e.1)) entries

or_assoc : (a b c : Bool) → ((a || b) || c) ≡ (a || (b || c))
or_assoc a b c = ground arith

up_to_highest :
    (ms : List ChatMessage) (user : String) (i : ℕ) (highest : Option ℕ) (entries : Dict String)
    → is_up_to i (highest_of ms user highest entries)
      ≡ (is_up_to i highest || is_read_by ms user i entries)
unfolding highest_of
up_to_highest ms user i highest [] = ground arith
up_to_highest ms user i highest (e ∷ entries) = elim (Bool-cases (e.0 == user)) [
  | inl k ↦ rw (k) (up_to_highest ms user i highest entries)
  | inr k ↦
      let h =
        up_to_highest ms user i
          (if is_greater (index_of ms e.1) highest then index_of ms e.1 else highest) entries in
      let g = up_to_greater i (index_of ms e.1) highest in
      rw (k) (
        h
        ∙ rw (g) (
            or_assoc (is_up_to i highest) (is_up_to i (index_of ms e.1))
              (is_read_by ms user i entries)))
]

-- A message is up to the index that is found exactly if another user's last read message is there or after.
pub find_highest_read_index_lem :
    (ms : List ChatMessage) (entries : Dict String) (user : String) (i : ℕ)
    → is_up_to i (find_highest_read_index ms (some entries) user) ≡ is_read_by ms user i entries
unfolding find_highest_read_index
find_highest_read_index_lem ms entries user i = up_to_highest ms user i none entries

module _ {Day : Type 0} (same_day : Day → Day → Bool) (day_of : String → Day)
    (time_of : String → ℕ) where
  meta_of_divider :
      (m : ChatMessage) (previous : Option ChatMessage)
      → shows_divider same_day day_of time_of m previous ≡ true
      → not (should_group_with_previous same_day day_of time_of m previous) ≡ true
  unfolding should_group_with_previous
  meta_of_divider m none h = refl
  meta_of_divider m (some previous) h = ground arith

  abbrev pub IsCoherent : Row same_day day_of time_of → Type 0
  IsCoherent r =
      (r.show_divider ≡ true → r.show_meta ≡ true) × (r.is_read_by_peer ≡ true → r.is_own ≡ true)

  rows_from-IsCoherent :
      (user : String) (highest : Option ℕ) (index : ℕ) (previous : Option ChatMessage)
      (ms : List ChatMessage)
      → (map (λ r. r.message) (rows_from same_day day_of time_of user highest index previous ms)
          ≡ ms)
        × All IsCoherent (rows_from same_day day_of time_of user highest index previous ms)
  unfolding rows_from
  rows_from-IsCoherent user highest index previous [] = (refl, tt)
  rows_from-IsCoherent user highest index previous (m ∷ ms) =
      let (a, b) = rows_from-IsCoherent user highest (index + 1) (some m) ms in
      (ap (λ xs. m ∷ xs) a, ((meta_of_divider m previous, λ r. ground arith), b))

  -- Each message has its row, in their order; below a divider the sender is always named, and only the
  -- user's own messages are marked as read.
  pub rows_lem :
      (user : String) (last_read : Option (Dict String)) (ms : List ChatMessage)
      → (map (λ r. r.message) (rows same_day day_of time_of user last_read ms) ≡ ms)
        × All IsCoherent (rows same_day day_of time_of user last_read ms)
  unfolding rows
  rows_lem user last_read ms =
      rows_from-IsCoherent user (find_highest_read_index ms last_read user) 0 none ms
