-- ===== src/Socket/Tests.antt =====
-- The connection of frontend/src/realtime/socket.ts in concrete histories.
use bu3li_comms.Prelude.{ℕ, ◌+◌, String, true, ◌≡◌, refl, ◌≢◌, some, [], ◌∷◌, In, arith}
use bu3li_comms.Socket.{
  RealtimeSocket, new, connect, disconnect, on_close, open_socket, has_live_socket, set_status,
  on_open, schedule_reconnect, backoff, opening, closed, connected, reconnecting, is_live,
  fires_open, fires_close, fires_timer,
}
use bu3li_comms.Socket.Steps.{opens, closes, host, connects, Reach, here, next, stays}
use bu3li_comms.Socket.Listeners.{AnyReach, AnyStep}
use bu3li_comms.Socket.Single.{Reach-Inv, single_connection}
use bu3li_comms.Socket.Reconnect.{IsQuiet, disconnect_stays, reconnects, connect_while_waiting}

abbrev blank : RealtimeSocket String
blank = new

abbrev dialled : RealtimeSocket String
dialled = connect blank

abbrev up : RealtimeSocket String
up = fires_open 0 dialled

abbrev dropped : RealtimeSocket String
dropped = fires_close 0 up

dialled_opening : dialled.ready_state 0 ≡ opening
unfolding connect has_live_socket open_socket set_status
dialled_opening = refl

up_not_closed : up.ready_state 0 ≢ closed
unfolding on_open set_status connect has_live_socket open_socket
up_not_closed = λ e. ground arith

to_up : Reach blank up
to_up = next (next here (connects refl)) (host (opens 0 dialled_opening))

to_dropped : Reach blank dropped
to_dropped = next to_up (host (closes 0 up_not_closed))

up_live : is_live (up.ready_state 0) ≡ true
unfolding on_open set_status connect has_live_socket open_socket
up_live = refl

up_socket : up.socket ≡ some 0
unfolding connect has_live_socket open_socket set_status on_open
up_socket = refl

dropped_timers : dropped.timers ≡ (1, 500) ∷ []
unfolding connect has_live_socket open_socket set_status on_open on_close schedule_reconnect backoff
dropped_timers = refl

single_connection_example : ◌≡◌ {A = ℕ} 0 0
single_connection_example = single_connection up 0 0 to_up up_live up_live

abbrev told_history : AnyReach blank up
told_history =
    AnyReach.next (AnyReach.next AnyReach.here AnyStep.connects)
      (AnyStep.host (opens 0 dialled_opening))

disconnect_stays_example : IsQuiet dropped.created (disconnect dropped)
disconnect_stays_example =
    disconnect_stays dropped (disconnect dropped) (Reach-Inv to_dropped) stays

reconnects_example :
    let t = fires_close 0 up in
    let u = fires_timer up.next_timer t in
    let w = fires_open up.created u in
    (t.timers ≡ (up.next_timer, backoff up.reconnect_attempts) ∷ [])
    × (t.status ≡ reconnecting)
    × (u.socket ≡ some up.created)
    × (u.ready_state up.created ≡ opening)
    × (u.timers ≡ [])
    × (w.status ≡ connected)
    × (w.reconnect_attempts ≡ 0)
reconnects_example = reconnects up 0 (Reach-Inv to_up) up_socket

connect_while_waiting_example :
    let t = fires_timer 1 (connect dropped) in
    In (1, 500) (connect dropped).timers
    × (is_live (t.ready_state dropped.created) ≡ true)
    × (is_live (t.ready_state (dropped.created + 1)) ≡ true)
    × (t.socket ≡ some (dropped.created + 1))
connect_while_waiting_example =
    connect_while_waiting dropped 1 500 (Reach-Inv to_dropped) dropped_timers
