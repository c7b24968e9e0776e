-- ===== src/ChannelList/Session.antt =====
-- A drag from its start to its end in frontend/src/components/servers/ServerChannelList.tsx, with what other
-- users do to the server meanwhile, and the order that frontend/src/hooks/useServerMutations.ts then shows.
use mathlib.Core.List.Perm
use mathlib.Core.List.{Perm}
use bu3li_comms.Prelude.{
  String, true, false, ◌||◌, ◌==◌, ◌≡◌, refl, sym, subst, none, some, List, [], ◌∷◌, map, All,
  arith, Bool-cases, Option-cases, inl, inr, ◌⊎◌,
}
use bu3li_comms.Server.{ServerChannel}
use bu3li_comms.Channels.{reorder}
use bu3li_comms.Channels.Reorder.{has_channel, count_from, reorder_lem}
use bu3li_comms.ChannelList.{
  ChannelArray, ChannelList, is_dragging, render, move_channel, drag_start, drag_over, drag_end,
}
use bu3li_comms.ChannelList.Moves.{move_channel-perm, All-move_channel}

-- What happens while a channel is dragged: it passes over a channel, or the list is rendered anew.
pub data DragEvent : Type 0 where
  over : String → DragEvent
  rendered : ChannelArray → DragEvent

abbrev pub drag : List DragEvent → ChannelList → ChannelList
drag [] s = s
drag (over target ∷ es) s = drag es (drag_over target s)
drag (rendered channels ∷ es) s = drag es (render channels s)

abbrev pub ids_of : List ServerChannel → List String
ids_of channels = map (λ c. c.id) channels

drag_over-dragged :
    (target : String) (s : ChannelList) → (drag_over target s).dragged_id ≡ s.dragged_id
unfolding drag_over
drag_over-dragged target s = ground arith

-- The channels stay as they are, or one is moved.
drag_over-cases :
    (target : String) (s : ChannelList)
    → ((drag_over target s).ordered_channels ≡ s.ordered_channels)
      ⊎ ((id : String) × ((drag_over target s).ordered_channels
            ≡ move_channel id target s.ordered_channels))
unfolding drag_over
drag_over-cases target s = elim (Option-cases s.dragged_id) [
  | inl e ↦ inl (ground arith)
  | inr (id, e) ↦ elim (Bool-cases (id == "" || id == target)) [
    | inl b ↦ inl (ground arith)
    | inr b ↦ inr (id, ground arith)
  ]
]

drag_over-perm :
    (target : String) (s : ChannelList)
    → Perm (drag_over target s).ordered_channels s.ordered_channels
drag_over-perm target s = elim (drag_over-cases target s) [
  | inl e ↦ rw (e) (Perm.refl s.ordered_channels)
  | inr (id, e) ↦ rw (e) (move_channel-perm id target s.ordered_channels)
]

All-drag_over :
    (P : ServerChannel → Type 0) (target : String) (s : ChannelList)
    → All P s.ordered_channels
    → All P (drag_over target s).ordered_channels
All-drag_over P target s h = elim (drag_over-cases target s) [
  | inl e ↦ rw (e) h
  | inr (id, e) ↦ rw (e) (All-move_channel P id target s.ordered_channels h)
]

-- While a channel is dragged, rendering changes nothing.
render-dragging :
    (channels : ChannelArray) (s : ChannelList)
    → is_dragging s.dragged_id ≡ true
    → render channels s ≡ s
unfolding render
render-dragging channels s h = ground arith

-- While a channel is dragged, whatever it passes over and however often the list is rendered with other
-- channels meanwhile, the list shows the channels that it showed before, in some order.
pub drag-perm :
    (es : List DragEvent) (s : ChannelList)
    → is_dragging s.dragged_id ≡ true
    → ((drag es s).dragged_id ≡ s.dragged_id) × Perm (drag es s).ordered_channels s.ordered_channels
drag-perm [] s h = (refl, Perm.refl s.ordered_channels)
drag-perm (over target ∷ es) s h =
    let d = drag_over-dragged target s in
    let (a, b) = drag-perm es (drag_over target s) (ground (arith, d)) in
    (ground (arith, a, d), Perm.trans b (drag_over-perm target s))
drag-perm (rendered channels ∷ es) s h =
    let same = render-dragging channels s h in
    subst
      (λ s'.
        ((drag es s').dragged_id ≡ s.dragged_id)
        × Perm (drag es s').ordered_channels s.ordered_channels)
      (sym same) (drag-perm es s h)

All-drag :
    (P : ServerChannel → Type 0) (es : List DragEvent) (s : ChannelList)
    → is_dragging s.dragged_id ≡ true
    → All P s.ordered_channels
    → All P (drag es s).ordered_channels
All-drag P [] s h a = a
All-drag P (over target ∷ es) s h a =
    All-drag P es (drag_over target s) (ground (arith, drag_over-dragged target s))
      (All-drag_over P target s a)
All-drag P (rendered channels ∷ es) s h a =
    subst (λ s'. All P (drag es s').ordered_channels) (sym (render-dragging channels s h))
      (All-drag P es s h a)

All-ids : (P : String → Type 0) (cs : List ServerChannel) → All (λ c. P c.id) cs → All P (ids_of cs)
All-ids P [] h = tt
All-ids P (c ∷ cs) (p, h) = (p, All-ids P cs h)

-- If a channel with an id that is not empty is dragged and dropped, and the channels that the list showed
-- are still among the cached ones, then the ids of a rearrangement of those channels are sent, the cached
-- channels are shown in the order of the ids with positions that count from 0, and the drag is over.
pub drag_end-drag :
    (id : String) (es : List DragEvent) (s : ChannelList) (cached : List ServerChannel)
    → (id == "") ≡ false
    → All (λ c. has_channel cached c.id ≡ true) s.ordered_channels
    → (shown : List ServerChannel) × Perm shown s.ordered_channels
      × (drag_end (drag es (drag_start id s))
          ≡ (some (ids_of shown), record (drag es (drag_start id s)) { dragged_id = none }))
      × (map (λ c. c.id) (reorder (ids_of shown) cached) ≡ ids_of shown)
      × (map (λ c. c.position) (reorder (ids_of shown) cached) ≡ count_from 0 (ids_of shown))
unfolding drag_start drag_end
drag_end-drag id es s cached h a =
    let started : ChannelList = record s { dragged_id = some id } in
    let dragging : is_dragging started.dragged_id ≡ true = rw (h) refl in
    let (d, p) = drag-perm es started dragging in
    let shown : List ServerChannel = (drag es started).ordered_channels in
    let kept = All-drag (λ c. has_channel cached c.id ≡ true) es started dragging a in
    let (i, n) =
      reorder_lem (ids_of shown) cached (All-ids (λ k. has_channel cached k ≡ true) shown kept) in
    (shown, p, rw (d, h) refl, i, n)
