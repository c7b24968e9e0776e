-- ===== src/ChannelList.antt =====
-- frontend/src/components/servers/ServerChannelList.tsx: the list of a server's channels, which a user may
-- reorder by dragging, and the controls that it shows. An array is told from another by its identity
-- (`!==`), here a number.
pub mod Moves
pub mod Session
pub mod Controls
pub mod Tests
use bu3li_comms.Prelude.{
  ℕ, zero, suc, eqb, String, Bool, true, false, not, ◌&&◌, ◌||◌, ◌==◌, if◌then◌else◌, Option, none,
  some, List, [], ◌∷◌, ◌++◌, map, find_index,
}
use bu3li_comms.Server.{ChannelType, ServerChannel, ServerPermissions}

pub record ChannelArray : Type 0 where
  pub identity : ℕ
  pub items : List ServerChannel

-- the component's state
pub record ChannelList : Type 0 where
  pub ordered_channels : List ServerChannel
  pub synced_channels : ChannelArray
  pub dragged_id : Option String

abbrev pub mounted : ChannelArray → ChannelList
mounted channels = record {
  ordered_channels = channels.items;
  synced_channels = channels;
  dragged_id = none;
}

-- `Boolean(draggedId)`
abbrev pub is_dragging : Option String → Bool
is_dragging none = false
is_dragging (some id) = not (id == "")

-- the resync while rendering
unfoldable pub render : ChannelArray → ChannelList → ChannelList
render channels s =
    if not (eqb channels.identity s.synced_channels.identity) && not (is_dragging s.dragged_id)
    then record s { synced_channels = channels; ordered_channels = channels.items }
    else s

abbrev pub get_elem? {ℓ} : {A : Type ℓ} → List A → ℕ → Option A
get_elem? [] i = none
get_elem? (x ∷ xs) zero = some x
get_elem? (x ∷ xs) (suc i) = get_elem? xs i

-- `xs.splice(i, 1)`
unfoldable pub remove_at {ℓ} : {A : Type ℓ} → ℕ → List A → List A
remove_at i [] = []
remove_at zero (x ∷ xs) = xs
remove_at (suc i) (x ∷ xs) = x ∷ remove_at i xs

-- `xs.splice(i, 0, x)`
unfoldable pub insert_at {ℓ} : {A : Type ℓ} → ℕ → A → List A → List A
insert_at i x [] = x ∷ []
insert_at zero x (y ∷ ys) = x ∷ y ∷ ys
insert_at (suc i) x (y ∷ ys) = y ∷ insert_at i x ys

-- the two `splice` calls
unfoldable pub move {ℓ} : {A : Type ℓ} → ℕ → ℕ → List A → List A
unfolding remove_at insert_at
move from to current = elim (get_elem? current from) [
  | none ↦ current
  | some moved ↦ insert_at to moved (remove_at from current)
]

unfoldable pub move_channel : String → String → List ServerChannel → List ServerChannel
unfolding move
move_channel dragged_id target_id current = elim (find_index (λ c. c.id == dragged_id) current) [
  | none ↦ current
  | some from ↦ elim (find_index (λ c. c.id == target_id) current) [
    | none ↦ current
    | some to ↦ if eqb from to then current else move from to current
  ]
]

unfoldable pub drag_start : String → ChannelList → ChannelList
drag_start channel_id s = record s { dragged_id = some channel_id }

unfoldable pub drag_over : String → ChannelList → ChannelList
drag_over target_id s = elim s.dragged_id [
  | none ↦ s
  | some id ↦
      if id == "" || id == target_id
      then s
      else record s { ordered_channels = move_channel id target_id s.ordered_channels }
]

-- `handleDragEnd`, with the channel ids that it sends, if it sends them
unfoldable pub drag_end : ChannelList → Option (List String) × ChannelList
drag_end s =
    let ended : ChannelList = record s { dragged_id = none } in
    (if is_dragging s.dragged_id then some (map (λ c. c.id) s.ordered_channels) else none, ended)

-- What the header offers, from left to right.
pub data HeaderControl : Type 0 where
  settings_link invite delete_yes delete_cancel delete_server leave_yes leave_cancel leave_server :
      HeaderControl

unfoldable pub header_controls : ServerPermissions → Bool → List HeaderControl
header_controls permissions confirming_delete =
    (if permissions.manage_server then settings_link ∷ [] else [])
    ++ invite
      ∷ (if permissions.is_owner
          then (if confirming_delete then delete_yes ∷ delete_cancel ∷ [] else delete_server ∷ [])
          else if confirming_delete
          then leave_yes ∷ leave_cancel ∷ []
          else leave_server ∷ [])

-- What a channel's row offers: while its deletion is to be confirmed, only that.
pub data RowControl : Type 0 where
  confirm_yes confirm_no grip link delete_channel : RowControl
  in_voice : ℕ → RowControl

abbrev pub is_voice : ChannelType → Bool
is_voice ChannelType.text = false
is_voice ChannelType.voice = true

abbrev pub voice_badge : ChannelType → ℕ → List RowControl
voice_badge channel_type participants =
    if is_voice channel_type && not (eqb participants 0) then in_voice participants ∷ [] else []

unfoldable pub row_controls :
    ChannelType → ℕ → (can_delete can_reorder confirming : Bool) → List RowControl
row_controls channel_type participants can_delete can_reorder confirming =
    if confirming
    then confirm_yes ∷ confirm_no ∷ []
    else (if can_reorder then grip ∷ [] else [])
      ++ link
        ∷ (voice_badge channel_type participants
            ++ (if can_delete then delete_channel ∷ [] else []))
