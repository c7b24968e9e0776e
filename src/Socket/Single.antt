-- ===== src/Socket/Single.antt =====
-- The invariant of `RealtimeSocket` in frontend/src/realtime/socket.ts, over the steps of Socket/Steps.
use bu3li_comms.Prelude.{
  ℕ, ◌≤◌, true, false, eqb, ◌≡◌, refl, ◌≢◌, ◌⊎◌, inl, inr, none, some, ◌∷◌, [], In, arith,
  Bool-cases, filter, not,
}
use bu3li_comms.Socket.{
  connected, reconnecting, disconnected, RealtimeSocket, open_socket, opening, opened, closed,
  is_live, on_open, on_close, on_error, on_timer, close_socket, connect, disconnect, send,
  has_live_socket, fires_open, fires_close, fires_timer, is_current, backoff, clear_timeout, new,
}
use bu3li_comms.Socket.Records.{
  set_status-record, open_socket-record, send-record, disconnect-record, schedule_reconnect-record,
}
use bu3li_comms.Socket.Steps.{
  HostStep, opens, closes, fails, expires, sends, Step, host, connects, disconnects, Reach, here,
  next,
}

module _ {E : Type 0} where
  -- No reconnection waits, or exactly one does and there is no socket.
  abbrev pub Waiting : RealtimeSocket E → Type 0
  Waiting s =
      ((s.reconnect_timer ≡ none) × (s.timers ≡ []))
      ⊎ ((handle delay : ℕ) × (s.reconnect_timer ≡ some handle)
          × (s.timers ≡ (handle, delay) ∷ [])
          × (s.socket ≡ none)
          × (s.status ≡ reconnecting)
          × (s.intentional_close ≡ false))

  pub record Inv (s : RealtimeSocket E) : Type 0 where
    pub one_live : (i : ℕ) → is_live (s.ready_state i) ≡ true → s.socket ≡ some i
    pub unborn : (i : ℕ) → s.created ≤ i → s.ready_state i ≡ closed
    pub alive : (i : ℕ) → s.socket ≡ some i → s.ready_state i ≢ closed
    pub waiting : Waiting s
    pub left : s.intentional_close ≡ true → (s.status ≡ disconnected) × (s.socket ≡ none)
    pub honest : (i : ℕ) → s.socket ≡ some i → s.ready_state i ≡ opened → s.status ≡ connected

  new-Inv : Inv new
  new-Inv = record {
    one_live = λ i e. cc;
    unborn = λ i h. refl;
    alive = λ i e. cc;
    waiting = inl (refl, refl);
    left = λ e. cc;
    honest = λ i e. cc;
  }

  no_timers : (s : RealtimeSocket E) → Waiting s → s.reconnect_timer ≡ none → s.timers ≡ []
  no_timers s (inl (t, e)) n = e
  no_timers s (inr (h, d, t, l, k, a, b)) n = absurd (cc)

  pub no_timer_beside :
      (s : RealtimeSocket E) (i : ℕ)
      → Waiting s
      → s.socket ≡ some i
      → (s.reconnect_timer ≡ none) × (s.timers ≡ [])
  no_timer_beside s i (inl w) e = w
  no_timer_beside s i (inr (h, d, t, l, n, a, b)) e = absurd (cc)

  open_socket-Inv :
      (s : RealtimeSocket E)
      → Inv s
      → has_live_socket s ≡ false
      → s.intentional_close ≡ false
      → s.reconnect_timer ≡ none
      → Inv (open_socket s)
  unfolding has_live_socket
  open_socket-Inv s v n c t = rw (open_socket-record s) (record {
    one_live = λ i e. ground (arith, v.one_live i);
    unborn = λ i h. ground (arith, v.unborn i);
    alive = λ i e. ground (arith, v.alive i);
    waiting = inl (t, no_timers s v.waiting t);
    left = λ e. cc;
    honest = λ i e. ground arith;
  })

  connect-Inv : (s : RealtimeSocket E) → Inv s → s.reconnect_timer ≡ none → Inv (connect s)
  unfolding connect
  connect-Inv s v t =
      let s' : RealtimeSocket E = record s { intentional_close = false } in
      let v' : Inv s' = record {
        one_live = v.one_live;
        unborn = v.unborn;
        alive = v.alive;
        waiting = inl (t, no_timers s v.waiting t);
        left = λ e. cc;
        honest = v.honest;
      } in
      elim (Bool-cases (has_live_socket s')) [
        | inl e ↦ rw e v'
        | inr e ↦ rw e (open_socket-Inv s' v' e refl t)
      ]

  opens-Inv :
      (s : RealtimeSocket E) (i : ℕ) → Inv s → s.ready_state i ≡ opening → Inv (fires_open i s)
  unfolding on_open
  opens-Inv s i v e =
      let current : s.socket ≡ some i = v.one_live i (rw e) in
      let (t, l) = no_timer_beside s i v.waiting current in
      rw (set_status-record _ connected) (record {
        one_live = λ j e'. ground (arith, v.one_live j);
        unborn = λ j h. ground (arith, v.unborn j, v.unborn i);
        alive = λ j e'. ground (arith, v.alive j);
        waiting = inl (t, l);
        left = λ e'. ground (arith, v.left e');
        honest = λ j e' e''. refl;
      })

  fails-Inv : (s : RealtimeSocket E) (i : ℕ) → Inv s → Inv (on_error i s)
  unfolding on_error close_socket
  fails-Inv s i v = elim (Bool-cases (is_live (s.ready_state i))) [
    | inr e ↦ rw e v
    | inl e ↦ rw e (record {
      one_live = λ j e'. ground (arith, v.one_live j);
      unborn = λ j h. ground (arith, v.unborn j);
      alive = λ j e'. ground (arith, v.alive j);
      waiting = v.waiting;
      left = v.left;
      honest = λ j e' e''. ground (arith, v.honest j);
    })
  ]

  sends-Inv : (s : RealtimeSocket E) (event : E) → Inv s → Inv (send event s)
  sends-Inv s event v = rw (send-record s event) (record {
    one_live = v.one_live;
    unborn = v.unborn;
    alive = v.alive;
    waiting = v.waiting;
    left = v.left;
    honest = v.honest;
  })

  closes-Inv :
      (s : RealtimeSocket E) (i : ℕ) → Inv s → s.ready_state i ≢ closed → Inv (fires_close i s)
  unfolding on_close
  closes-Inv s i v n = elim (Bool-cases (is_current i s.socket)) [
    | inr e ↦ rw e (record {
      one_live = λ j e'. ground (arith, v.one_live j);
      unborn = λ j h. ground (arith, v.unborn j);
      alive = λ j e'. ground (arith, v.alive j);
      waiting = v.waiting;
      left = v.left;
      honest = λ j e' e''. ground (arith, v.honest j);
    })
    | inl e ↦
        let current : s.socket ≡ some i = ground arith in
        let kept : s.intentional_close ≡ false = ground (arith, v.left) in
        let (t, l) = no_timer_beside s i v.waiting current in
        rw (e, kept, schedule_reconnect-record _)
          (record {
            one_live = λ j e'. ground (arith, v.one_live j);
            unborn = λ j h. ground (arith, v.unborn j);
            alive = λ j e'. cc;
            waiting =
                inr (s.next_timer, backoff s.reconnect_attempts, refl, rw l, refl, refl, refl);
            left = λ e'. cc;
            honest = λ j e' e''. cc;
          })
  ]

  fired :
      (s : RealtimeSocket E) (handle delay : ℕ)
      → Waiting s
      → In (handle, delay) s.timers
      → (filter (λ t. not (eqb t.0 handle)) s.timers ≡ [])
        × (s.socket ≡ none)
        × (s.intentional_close ≡ false)
  fired s handle delay (inl (t, l)) i = ground arith
  fired s handle delay (inr (h, d, t, l, n, a, b)) i = ground arith

  pub cleared : (s : RealtimeSocket E) → Waiting s → clear_timeout s.reconnect_timer s.timers ≡ []
  cleared s (inl (t, l)) = rw (t, l)
  cleared s (inr (h, d, t, l, n, a, b)) = ground arith

  expires-Inv :
      (s : RealtimeSocket E) (handle delay : ℕ)
      → Inv s
      → In (handle, delay) s.timers
      → Inv (fires_timer handle s)
  unfolding on_timer has_live_socket
  expires-Inv s handle delay v i =
      let (l, n, c) = fired s handle delay v.waiting i in
      let s' : RealtimeSocket E = record s {
        timers = filter (λ t. not (eqb t.0 handle)) s.timers;
        reconnect_timer = none;
      } in
      let v' : Inv s' = record {
        one_live = v.one_live;
        unborn = v.unborn;
        alive = v.alive;
        waiting = inl (refl, l);
        left = v.left;
        honest = v.honest;
      } in
      open_socket-Inv s' v' (ground arith) c refl

  pub disconnect-Inv : (s : RealtimeSocket E) → Inv s → Inv (disconnect s)
  disconnect-Inv s v = rw (disconnect-record s) (record {
    one_live = λ j e'. ground (arith, v.one_live j);
    unborn = λ j h. ground (arith, v.unborn j);
    alive = λ j e'. cc;
    waiting = inl (refl, cleared s v.waiting);
    left = λ e'. (refl, refl);
    honest = λ j e' e''. cc;
  })

  HostStep-Inv : {s t : RealtimeSocket E} → HostStep s t → Inv s → Inv t
  HostStep-Inv {s} (opens i e) v = opens-Inv s i v e
  HostStep-Inv {s} (closes i n) v = closes-Inv s i v n
  HostStep-Inv {s} (fails i) v = fails-Inv s i v
  HostStep-Inv {s} (expires handle delay i) v = expires-Inv s handle delay v i
  HostStep-Inv {s} (sends event) v = sends-Inv s event v

  -- Every step keeps the invariant, if `connect` is called only while no reconnection is waiting.
  pub Step-Inv : {s t : RealtimeSocket E} → Step s t → Inv s → Inv t
  Step-Inv (host h) v = HostStep-Inv h v
  Step-Inv {s} (connects t) v = connect-Inv s v t
  Step-Inv {s} disconnects v = disconnect-Inv s v

  pub Reach-Inv : {t : RealtimeSocket E} → Reach new t → Inv t
  Reach-Inv here = new-Inv
  Reach-Inv (next r st) = Step-Inv st (Reach-Inv r)

  -- However the browser's events fall, if `connect` is never called while a reconnection is waiting,
  -- then two sockets that are opening or open are the same one.
  pub single_connection :
      (t : RealtimeSocket E) (i j : ℕ)
      → Reach new t
      → is_live (t.ready_state i) ≡ true
      → is_live (t.ready_state j) ≡ true
      → i ≡ j
  single_connection t i j r e e' =
      let v = Reach-Inv r in ground (arith, v.one_live i e, v.one_live j e')
