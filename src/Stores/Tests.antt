-- ===== src/Stores/Tests.antt =====
-- The stores of frontend/src/stores on concrete users, conversations and times.
use bu3li_comms.Prelude.{
  String, true, false, String-discrete, ne_of_test, ◌≡◌, refl, ◌≢◌, some, [], ◌∷◌, set_add,
  set_delete,
}
use bu3li_comms.Stores.{
  PresenceStore, set_online, is_online, ReadReceiptsStore, VoiceChannelStore, Toast, ToastStore,
  info,
}

abbrev present : PresenceStore
present = record { online = "ann" ∷ [] }

bob_is_named : ◌≢◌ {A = String} "bob" ""
unfolding String-discrete
bob_is_named = ne_of_test "bob" "" refl

presence_test :
    is_online (some "bob") (set_online "bob" false (set_online "bob" true present)) ≡ false
unfolding is_online set_online String-discrete set_delete set_add
presence_test = refl

abbrev receipts : ReadReceiptsStore
receipts = record { last_read_by_conversation = ("general", ("ann", "m1") ∷ []) ∷ [] }

abbrev voices : VoiceChannelStore
voices = record { participants_by_conversation = ("lobby", "ann" ∷ []) ∷ [] }

abbrev toast : Toast
toast = record { id = "t1"; text = "Saved."; tone = info }

abbrev shown : ToastStore
shown = record { toasts = toast ∷ []; timers = (5000, "t1") ∷ [] }

abbrev no_toasts : ToastStore
no_toasts = record { toasts = []; timers = [] }
