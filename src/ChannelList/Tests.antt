-- ===== src/ChannelList/Tests.antt =====
-- frontend/src/components/servers/ServerChannelList.tsx on a concrete server.
use mathlib.Core.List.{Perm}
use bu3li_comms.Prelude.{
  true, false, String-discrete, ◌==◌, ◌≡◌, refl, none, some, List, [], ◌∷◌, map, All,
}
use bu3li_comms.Server.{ServerChannel}
use bu3li_comms.Channels.{reorder}
use bu3li_comms.Channels.Reorder.{has_channel, count_from}
use bu3li_comms.Channels.Tests.{channel_of}
use bu3li_comms.ChannelList.{
  ChannelArray, ChannelList, mounted, render, remove_at, insert_at, move, move_channel, drag_start,
  drag_over, drag_end,
}
use bu3li_comms.ChannelList.Session.{DragEvent, over, rendered, drag, ids_of, drag_end-drag}

abbrev three : ChannelArray
three = record { identity = 0; items = channel_of "a" 0 ∷ channel_of "b" 1 ∷ channel_of "c" 2 ∷ [] }

-- Another user deletes the channel "a" meanwhile.
abbrev others : ChannelArray
others = record { identity = 1; items = channel_of "b" 0 ∷ channel_of "c" 1 ∷ [] }

abbrev dragged_on : List DragEvent
dragged_on = over "b" ∷ rendered others ∷ over "a" ∷ []

abbrev list : ChannelList
list = mounted three

drag_test : (drag_end (drag dragged_on (drag_start "c" list))).0 ≡ some ("c" ∷ "a" ∷ "b" ∷ [])
unfolding drag_end drag_start drag_over render move_channel move remove_at insert_at String-discrete
drag_test = refl

three_known : All (λ c. has_channel three.items c.id ≡ true) list.ordered_channels
unfolding String-discrete
three_known = (refl, (refl, (refl, tt)))

dragged_id_given : ("c" == "") ≡ false
unfolding String-discrete
dragged_id_given = refl

drag_end-drag_example :
    (shown : List ServerChannel) × Perm shown list.ordered_channels
    × (drag_end (drag dragged_on (drag_start "c" list)) ≡ (
      some (ids_of shown),
      record (drag dragged_on (drag_start "c" list)) { dragged_id = none },
    ))
    × (map (λ c. c.id) (reorder (ids_of shown) three.items) ≡ ids_of shown)
    × (map (λ c. c.position) (reorder (ids_of shown) three.items) ≡ count_from 0 (ids_of shown))
drag_end-drag_example = drag_end-drag "c" dragged_on list three.items dragged_id_given three_known
