-- ===== src/Socket/Reconnect.antt =====
-- Leaving and coming back: `disconnect` and the reconnection of frontend/src/realtime/socket.ts.
use bu3li_comms.Prelude.{
  ℕ, ◌+◌, true, false, ◌≡◌, refl, none, some, ap, subst, ◌++◌, [], ◌∷◌, In, arith, inl, inr,
}
use bu3li_comms.Socket.{
  connected, reconnecting, disconnected, RealtimeSocket, opening, closed, is_live, set_ready,
  connect, disconnect, on_close, on_open, on_error, on_timer, close_socket, has_live_socket,
  is_current, fires_open, fires_close, fires_timer, backoff,
}
use bu3li_comms.Socket.Records.{
  close_ready, notify, opening_status, set_status-record, open_socket-record,
  schedule_reconnect-record, send-record, disconnect-record,
}
use bu3li_comms.Socket.Steps.{
  HostStep, opens, closes, fails, expires, sends, HostReach, stays, moves,
}
use bu3li_comms.Socket.Single.{Inv, Waiting, no_timer_beside, cleared}

module _ {E : Type 0} where
  -- The connection is left: nothing is open, nothing waits.
  pub record IsQuiet (created : ℕ) (s : RealtimeSocket E) : Type 0 where
    pub left : s.status ≡ disconnected
    pub no_socket : s.socket ≡ none
    pub no_timer : s.timers ≡ []
    pub none_live : (i : ℕ) → is_live (s.ready_state i) ≡ false
    pub none_created : s.created ≡ created

  left_live :
      (s : RealtimeSocket E) (i : ℕ)
      → Inv s
      → is_live (close_ready s.socket s.ready_state i) ≡ false
  left_live s i v = ground (arith, v.one_live i)

  disconnect-IsQuiet : (s : RealtimeSocket E) → Inv s → IsQuiet s.created (disconnect s)
  disconnect-IsQuiet s v = rw (disconnect-record s) (record {
    left = refl;
    no_socket = refl;
    no_timer = cleared s v.waiting;
    none_live = λ i. left_live s i v;
    none_created = refl;
  })

  HostStep-IsQuiet : {s t : RealtimeSocket E} (n : ℕ) → HostStep s t → IsQuiet n s → IsQuiet n t
  unfolding on_close on_error close_socket
  HostStep-IsQuiet {s} n (opens i e) q = absurd (ground (arith, q.none_live i))
  HostStep-IsQuiet {s} n (closes i ne) q = rw (ap (is_current i) q.no_socket) (record {
    left = q.left;
    no_socket = q.no_socket;
    no_timer = q.no_timer;
    none_live = λ j. ground (arith, q.none_live j);
    none_created = q.none_created;
  })
  HostStep-IsQuiet {s} n (fails i) q = rw (q.none_live i) q
  HostStep-IsQuiet {s} n (expires handle delay i) q =
      absurd (subst (In (handle, delay)) q.no_timer i)
  HostStep-IsQuiet {s} n (sends event) q = rw (send-record s event) (record {
    left = q.left;
    no_socket = q.no_socket;
    no_timer = q.no_timer;
    none_live = q.none_live;
    none_created = q.none_created;
  })

  -- In a state that the invariant admits, after `disconnect` no event of the browser brings a connection
  -- back: the status stays, no socket is created, none is live and no timeout waits.
  pub disconnect_stays :
      (s t : RealtimeSocket E) → Inv s → HostReach (disconnect s) t → IsQuiet s.created t
  disconnect_stays s t v stays = disconnect-IsQuiet s v
  disconnect_stays s t v (moves {t = u} r st) =
      HostStep-IsQuiet s.created st (disconnect_stays s u v r)

  closed-record :
      (s : RealtimeSocket E) (i : ℕ)
      → s.socket ≡ some i
      → s.intentional_close ≡ false
      → fires_close i s ≡ record s {
        socket = none;
        ready_state = set_ready i closed s.ready_state;
        status = reconnecting;
        notified = notify s.status reconnecting s.notified;
        timers = s.timers ++ (s.next_timer, backoff s.reconnect_attempts) ∷ [];
        next_timer = s.next_timer + 1;
        reconnect_attempts = s.reconnect_attempts + 1;
        reconnect_timer = some s.next_timer;
      }
  unfolding on_close
  closed-record s i e c = rw (ap (is_current i) e) (
      ground (
        arith,
        schedule_reconnect-record
            (record s { socket = none; ready_state = set_ready i closed s.ready_state }),
      ))

  -- In a state that the invariant admits, a current socket that closes is replaced: the status tells so and
  -- one timeout waits, with the delay of the attempts so far; it creates a new current socket and no
  -- timeout is left; when that socket opens, the status is connected and the attempts are none.
  pub reconnects :
      (s : RealtimeSocket E) (i : ℕ)
      → Inv s
      → s.socket ≡ some i
      → let t = fires_close i s in
        let u = fires_timer s.next_timer t in
        let w = fires_open s.created u in
        (t.timers ≡ (s.next_timer, backoff s.reconnect_attempts) ∷ [])
        × (t.status ≡ reconnecting)
        × (u.socket ≡ some s.created)
        × (u.ready_state s.created ≡ opening)
        × (u.timers ≡ [])
        × (w.status ≡ connected)
        × (w.reconnect_attempts ≡ 0)
  unfolding on_timer on_open
  reconnects s i v e =
      let kept : s.intentional_close ≡ false = ground (arith, v.left) in
      rw (closed-record s i e kept, open_socket-record _, set_status-record _ connected)
        (let l = (no_timer_beside s i v.waiting e).1 in ground arith)

  connect-record :
      (s : RealtimeSocket E)
      → s.socket ≡ none
      → connect s ≡ record s {
        intentional_close = false;
        status = opening_status s;
        notified = notify s.status (opening_status s) s.notified;
        socket = some s.created;
        created = s.created + 1;
        ready_state = set_ready s.created opening s.ready_state;
      }
  unfolding connect has_live_socket
  connect-record s n = ground (arith, open_socket-record (record s { intentional_close = false }))

  no_socket_beside :
      (s : RealtimeSocket E) (handle delay : ℕ)
      → Waiting s
      → s.timers ≡ (handle, delay) ∷ []
      → s.socket ≡ none
  no_socket_beside s handle delay (inl (t, l)) e = cc
  no_socket_beside s handle delay (inr (h, d, t, l, n, a, b)) e = n

  -- `connect` does not clear the timeout: called while a reconnection waits, it opens a socket, and the
  -- timeout then opens another beside it.
  pub connect_while_waiting :
      (s : RealtimeSocket E) (handle delay : ℕ)
      → Inv s
      → s.timers ≡ (handle, delay) ∷ []
      → let t = fires_timer handle (connect s) in
        In (handle, delay) (connect s).timers
        × (is_live (t.ready_state s.created) ≡ true)
        × (is_live (t.ready_state (s.created + 1)) ≡ true)
        × (t.socket ≡ some (s.created + 1))
  unfolding on_timer
  connect_while_waiting s handle delay v e =
      rw (connect-record s (no_socket_beside s handle delay v.waiting e), open_socket-record _)
        (ground arith)
