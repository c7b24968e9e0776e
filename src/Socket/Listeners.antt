-- ===== src/Socket/Listeners.antt =====
-- What the status listeners of frontend/src/realtime/socket.ts are told.
use bu3li_comms.Prelude.{◌≡◌, refl, ◌≢◌, ℕ, List, [], ◌∷◌, arith, Bool-cases, inl, inr, false}
use bu3li_comms.Socket.{
  ConnectionStatus, connected, disconnected, RealtimeSocket, connect, disconnect, on_open, on_close,
  on_error, on_timer, close_socket, is_live, is_current, open_socket, has_live_socket, new,
}
use bu3li_comms.Socket.Records.{
  notify, set_status-record, open_socket-record, schedule_reconnect-record, send-record,
  disconnect-record,
}
use bu3li_comms.Socket.Steps.{HostStep, opens, closes, fails, expires, sends}

abbrev pub last_told : List ConnectionStatus → ConnectionStatus
last_told [] = disconnected
last_told (status ∷ log) = status

-- No status is told twice running; the first one is not the initial one.
abbrev pub NoRepeat : List ConnectionStatus → Type 0
NoRepeat [] = Unit
NoRepeat (status ∷ log) = (status ≢ last_told log) × NoRepeat log

abbrev pub Told : ConnectionStatus → List ConnectionStatus → Type 0
Told status log = (last_told log ≡ status) × NoRepeat log

notify-Told :
    (old status : ConnectionStatus) (log : List ConnectionStatus)
    → Told old log
    → Told status (notify old status log)
notify-Told old status log h = ground arith

module _ {E : Type 0} where
  -- A step of the connection, with no condition on when `connect` is called.
  pub data AnyStep (s : RealtimeSocket E) : RealtimeSocket E → Type 0 where
    host : {t : RealtimeSocket E} → HostStep s t → AnyStep s t
    connects : AnyStep s (connect s)
    disconnects : AnyStep s (disconnect s)

  pub data AnyReach (s : RealtimeSocket E) : RealtimeSocket E → Type 0 where
    here : AnyReach s s
    next : {t u : RealtimeSocket E} → AnyReach s t → AnyStep t u → AnyReach s u

  abbrev IsTold : RealtimeSocket E → Type 0
  IsTold s = Told s.status s.notified

  open_socket-IsTold : (s : RealtimeSocket E) → IsTold s → IsTold (open_socket s)
  open_socket-IsTold s h = rw (open_socket-record s) (notify-Told _ _ _ h)

  on_close-IsTold : (i : ℕ) (s : RealtimeSocket E) → IsTold s → IsTold (on_close i s)
  unfolding on_close
  on_close-IsTold i s h = elim (Bool-cases (is_current i s.socket)) [
    | inr e ↦ rw e h
    | inl e ↦ elim (Bool-cases s.intentional_close) [
      | inl c ↦ rw (e, c, set_status-record _ disconnected) (notify-Told _ _ _ h)
      | inr c ↦ rw (e, c, schedule_reconnect-record _) (notify-Told _ _ _ h)
    ]
  ]

  on_error-IsTold : (i : ℕ) (s : RealtimeSocket E) → IsTold s → IsTold (on_error i s)
  unfolding on_error close_socket
  on_error-IsTold i s h = elim (Bool-cases (is_live (s.ready_state i))) [
    | inl e ↦ rw e h
    | inr e ↦ rw e h
  ]

  connect-IsTold : (s : RealtimeSocket E) → IsTold s → IsTold (connect s)
  unfolding connect
  connect-IsTold s h =
      elim (Bool-cases (has_live_socket (record s { intentional_close = false }))) [
        | inl e ↦ rw e h
        | inr e ↦ rw e (open_socket-IsTold _ h)
      ]

  AnyStep-IsTold : {s t : RealtimeSocket E} → AnyStep s t → IsTold s → IsTold t
  unfolding on_open on_timer
  AnyStep-IsTold {s} (host (opens i e)) h = rw (set_status-record _ connected) (notify-Told _ _ _ h)
  AnyStep-IsTold {s} (host (closes i n)) h = on_close-IsTold i _ h
  AnyStep-IsTold {s} (host (fails i)) h = on_error-IsTold i s h
  AnyStep-IsTold {s} (host (expires handle delay i)) h = open_socket-IsTold _ h
  AnyStep-IsTold {s} (host (sends event)) h = rw (send-record s event) h
  AnyStep-IsTold {s} connects h = connect-IsTold s h
  AnyStep-IsTold {s} disconnects h = rw (disconnect-record s) (notify-Told _ _ _ h)

  -- Whatever happens to the connection, the listeners are told each change of the status once: the
  -- last status told is the present one, and no status is told twice running.
  pub announces_each_change : (t : RealtimeSocket E) → AnyReach new t → Told t.status t.notified
  announces_each_change t here = (refl, tt)
  announces_each_change t (next {t = s} r st) = AnyStep-IsTold st (announces_each_change s r)
