-- ===== src/Socket/Steps.antt =====
-- Everything that can happen to the connection of frontend/src/realtime/socket.ts: a call of the
-- application, or an event of the browser.
use bu3li_comms.Prelude.{ℕ, ◌≡◌, ◌≢◌, none, In}
use bu3li_comms.Socket.{
  opening, closed, RealtimeSocket, connect, disconnect, send, on_error, fires_open, fires_close,
  fires_timer,
}

module _ {E : Type 0} where
  -- An event of the browser, or a frame that the application sends. A socket opens once, from
  -- `CONNECTING`, and closes once.
  pub data HostStep (s : RealtimeSocket E) : RealtimeSocket E → Type 0 where
    opens : (i : ℕ) → s.ready_state i ≡ opening → HostStep s (fires_open i s)
    closes : (i : ℕ) → s.ready_state i ≢ closed → HostStep s (fires_close i s)
    fails : (i : ℕ) → HostStep s (on_error i s)
    expires : (handle delay : ℕ) → In (handle, delay) s.timers → HostStep s (fires_timer handle s)
    sends : (event : E) → HostStep s (send event s)

  -- A step in which the application calls `connect` only while no reconnection is waiting.
  pub data Step (s : RealtimeSocket E) : RealtimeSocket E → Type 0 where
    host : {t : RealtimeSocket E} → HostStep s t → Step s t
    connects : s.reconnect_timer ≡ none → Step s (connect s)
    disconnects : Step s (disconnect s)

  pub data Reach (s : RealtimeSocket E) : RealtimeSocket E → Type 0 where
    here : Reach s s
    next : {t u : RealtimeSocket E} → Reach s t → Step t u → Reach s u

  pub data HostReach (s : RealtimeSocket E) : RealtimeSocket E → Type 0 where
    stays : HostReach s s
    moves : {t u : RealtimeSocket E} → HostReach s t → HostStep t u → HostReach s u
