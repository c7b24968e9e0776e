-- ===== src/Socket.antt =====
-- frontend/src/realtime/socket.ts: the one WebSocket connection of the application. Beside the fields
-- of `RealtimeSocket` the record holds what the browser keeps: the sockets created so far (numbered),
-- the state of each, the timeouts that have not run (handle and delay), the statuses that the status
-- listeners have been told and the frames sent, newest first.
pub mod Steps
pub mod Records
pub mod Backoff
pub mod Listeners
pub mod Single
pub mod Reconnect
pub mod Tests
use bu3li_comms.Prelude.{
  ℕ, ◌+◌, ◌*◌, ◌^◌, min, ltb, eqb, Bool, true, false, not, ◌||◌, if◌then◌else◌, Option, none, some,
  List, [], ◌∷◌, ◌++◌, filter,
}

pub data ConnectionStatus : Type 0 where
  connecting connected reconnecting disconnected : ConnectionStatus

abbrev pub same_status : ConnectionStatus → ConnectionStatus → Bool
same_status connecting connecting = true
same_status connected connected = true
same_status reconnecting reconnecting = true
same_status disconnected disconnected = true
same_status _ _ = false

-- `WebSocket.readyState`
pub data ReadyState : Type 0 where
  opening opened closing closed : ReadyState

abbrev pub base_backoff_ms : ℕ
base_backoff_ms = 500

abbrev pub max_backoff_ms : ℕ
max_backoff_ms = 15000

pub record RealtimeSocket (E : Type 0) : Type 0 where
  pub socket : Option ℕ
  pub status : ConnectionStatus
  pub reconnect_attempts : ℕ
  pub reconnect_timer : Option ℕ
  pub intentional_close : Bool
  pub created : ℕ
  pub ready_state : ℕ → ReadyState
  pub timers : List (ℕ × ℕ)
  pub next_timer : ℕ
  pub notified : List ConnectionStatus
  pub frames : List (ℕ × E)

abbrev pub set_ready : ℕ → ReadyState → (ℕ → ReadyState) → ℕ → ReadyState
set_ready i r f j = if eqb i j then r else f j

abbrev pub is_opened : ReadyState → Bool
is_opened opened = true
is_opened _ = false

abbrev pub is_live : ReadyState → Bool
is_live opening = true
is_live opened = true
is_live closing = false
is_live closed = false

-- `min(BASE_BACKOFF_MS * 2 ** attempts, MAX_BACKOFF_MS)`
unfoldable pub backoff : ℕ → ℕ
backoff attempts = min (base_backoff_ms * 2 ^ attempts) max_backoff_ms

abbrev pub clear_timeout : Option ℕ → List (ℕ × ℕ) → List (ℕ × ℕ)
clear_timeout none timers = timers
clear_timeout (some handle) timers = filter (λ t. not (eqb t.0 handle)) timers

abbrev pub is_current : ℕ → Option ℕ → Bool
is_current i none = false
is_current i (some j) = eqb j i

module _ {E : Type 0} where
  abbrev pub new : RealtimeSocket E
  new = record {
    socket = none;
    status = disconnected;
    reconnect_attempts = 0;
    reconnect_timer = none;
    intentional_close = false;
    created = 0;
    ready_state = λ i. closed;
    timers = [];
    next_timer = 1;
    notified = [];
    frames = [];
  }

  unfoldable pub set_status : ConnectionStatus → RealtimeSocket E → RealtimeSocket E
  set_status status s =
      if same_status s.status status
      then s
      else record s { status = status; notified = status ∷ s.notified }

  -- `WebSocket.close()`: the close event comes later
  unfoldable pub close_socket : ℕ → RealtimeSocket E → RealtimeSocket E
  close_socket i s =
      if is_live (s.ready_state i)
      then record s { ready_state = set_ready i closing s.ready_state }
      else s

  -- the private method `open`
  unfoldable pub open_socket : RealtimeSocket E → RealtimeSocket E
  open_socket s =
      let s' = set_status (if ltb 0 s.reconnect_attempts then reconnecting else connecting) s in
      record s' {
        socket = some s'.created;
        created = s'.created + 1;
        ready_state = set_ready s'.created opening s'.ready_state;
      }

  unfoldable pub has_live_socket : RealtimeSocket E → Bool
  has_live_socket s = elim s.socket [ none ↦ false | some i ↦ is_live (s.ready_state i) ]

  unfoldable pub connect : RealtimeSocket E → RealtimeSocket E
  connect s =
      let s' : RealtimeSocket E = record s { intentional_close = false } in
      if has_live_socket s' then s' else open_socket s'

  abbrev pub close_current : Option ℕ → RealtimeSocket E → RealtimeSocket E
  close_current none s = s
  close_current (some i) s = close_socket i s

  unfoldable pub disconnect : RealtimeSocket E → RealtimeSocket E
  disconnect s =
      let s' : RealtimeSocket E = record s {
        intentional_close = true;
        timers = clear_timeout s.reconnect_timer s.timers;
        reconnect_timer = none;
        reconnect_attempts = 0;
      } in
      let s'' : RealtimeSocket E = record (close_current s.socket s') { socket = none } in
      set_status disconnected s''

  unfoldable pub send : E → RealtimeSocket E → RealtimeSocket E
  send event s = elim s.socket [
    | none ↦ s
    | some i ↦
        if is_opened (s.ready_state i) then record s { frames = (i, event) ∷ s.frames } else s
  ]

  unfoldable pub schedule_reconnect : RealtimeSocket E → RealtimeSocket E
  schedule_reconnect s =
      let s' = set_status reconnecting s in
      record s' {
        timers = s'.timers ++ (s'.next_timer, backoff s'.reconnect_attempts) ∷ [];
        next_timer = s'.next_timer + 1;
        reconnect_attempts = s'.reconnect_attempts + 1;
        reconnect_timer = some s'.next_timer;
      }

  -- the listeners that `open` adds to the socket `i`
  unfoldable pub on_open : ℕ → RealtimeSocket E → RealtimeSocket E
  on_open i s = set_status connected (record s { reconnect_attempts = 0 })

  unfoldable pub on_close : ℕ → RealtimeSocket E → RealtimeSocket E
  on_close i s =
      if not (is_current i s.socket)
      then s
      else if s.intentional_close
      then set_status disconnected (record s { socket = none })
      else schedule_reconnect (record s { socket = none })

  unfoldable pub on_error : ℕ → RealtimeSocket E → RealtimeSocket E
  on_error i s = close_socket i s

  -- the callback of the reconnect timeout
  unfoldable pub on_timer : RealtimeSocket E → RealtimeSocket E
  on_timer s = open_socket (record s { reconnect_timer = none })

  -- what the browser does before it runs a listener
  abbrev pub fires_open : ℕ → RealtimeSocket E → RealtimeSocket E
  fires_open i s = on_open i (record s { ready_state = set_ready i opened s.ready_state })

  abbrev pub fires_close : ℕ → RealtimeSocket E → RealtimeSocket E
  fires_close i s = on_close i (record s { ready_state = set_ready i closed s.ready_state })

  abbrev pub fires_timer : ℕ → RealtimeSocket E → RealtimeSocket E
  fires_timer handle s =
      on_timer (record s { timers = filter (λ t. not (eqb t.0 handle)) s.timers })
