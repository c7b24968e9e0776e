-- ===== src/Socket/Records.antt =====
-- The operations of frontend/src/realtime/socket.ts as records, with the status listeners' part named.
use bu3li_comms.Prelude.{
  ℕ, ◌+◌, ltb, if◌then◌else◌, ◌≡◌, true, Option, none, some, List, ◌∷◌, [], ◌++◌, arith,
}
use bu3li_comms.Socket.{
  ConnectionStatus, connecting, reconnecting, same_status, RealtimeSocket, set_status, open_socket,
  schedule_reconnect, set_ready, opening, backoff, send, disconnect, close_socket, ReadyState,
  closing, disconnected, is_opened, is_live, clear_timeout,
}

-- The status listeners are told a status only when it changes.
abbrev pub notify :
    ConnectionStatus → ConnectionStatus → List ConnectionStatus → List ConnectionStatus
notify old status log = if same_status old status then log else status ∷ log

abbrev pub close_ready : Option ℕ → (ℕ → ReadyState) → ℕ → ReadyState
close_ready none f = f
close_ready (some i) f = if is_live (f i) then set_ready i closing f else f

module _ {E : Type 0} (s : RealtimeSocket E) where
  pub set_status-record :
      (status : ConnectionStatus)
      → set_status status s
        ≡ record s { status = status; notified = notify s.status status s.notified }
  unfolding set_status
  set_status-record status = ground arith

  abbrev pub opening_status : ConnectionStatus
  opening_status = if ltb 0 s.reconnect_attempts then reconnecting else connecting

  pub open_socket-record : open_socket s ≡ record s {
    status = opening_status;
    notified = notify s.status opening_status s.notified;
    socket = some s.created;
    created = s.created + 1;
    ready_state = set_ready s.created opening s.ready_state;
  }
  unfolding open_socket
  open_socket-record = rw (set_status-record opening_status)

  pub schedule_reconnect-record : schedule_reconnect s ≡ record s {
    status = reconnecting;
    notified = notify s.status reconnecting s.notified;
    timers = s.timers ++ (s.next_timer, backoff s.reconnect_attempts) ∷ [];
    next_timer = s.next_timer + 1;
    reconnect_attempts = s.reconnect_attempts + 1;
    reconnect_timer = some s.next_timer;
  }
  unfolding schedule_reconnect
  schedule_reconnect-record = rw (set_status-record reconnecting)

  -- a frame is sent on the current socket, if that is open
  abbrev pub sent_frames : E → List (ℕ × E)
  sent_frames event = elim s.socket [
    | none ↦ s.frames
    | some i ↦ if is_opened (s.ready_state i) then (i, event) ∷ s.frames else s.frames
  ]

  pub send-record : (event : E) → send event s ≡ record s { frames = sent_frames event }
  unfolding send
  send-record event = ground arith

module _ {E : Type 0} where
  pub disconnect-record :
      (s : RealtimeSocket E)
      → disconnect s ≡ record s {
        intentional_close = true;
        timers = clear_timeout s.reconnect_timer s.timers;
        reconnect_timer = none;
        reconnect_attempts = 0;
        socket = none;
        ready_state = close_ready s.socket s.ready_state;
        status = disconnected;
        notified = notify s.status disconnected s.notified;
      }
  unfolding disconnect close_socket
  disconnect-record s = rw (set_status-record _ disconnected) (ground arith)
