-- ===== src/Stores/Laws.antt =====
-- The stores of frontend/src/stores against the sets and maps that they stand for.
use bu3li_comms.Prelude.{
  ℕ, ◌+◌, ◌<◌, String, Bool, true, false, not, ◌&&◌, ◌||◌, ◌==◌, if◌then◌else◌, ◌≡◌, refl, ◌≢◌, ◌↔◌,
  Option, some, List, [], ◌∷◌, includes, get, put, get-put, get-del, includes-set_add,
  includes-set_delete, arith, In, In-filter, In-append, any, any-append, filter, leb, ltb,
}
use bu3li_comms.Stores.{
  PresenceStore, set_online, is_online, set_all_online, ReadReceiptsStore, or_empty, set_last_read,
  VoiceChannelStore, set_voice_participants, clear_voice, voice_participants, Toast, ToastStore,
  push, dismiss, dismiss_each, elapse, toast_duration_ms,
}

-- An event sets the presence of its user, and leaves every other user's alone.
pub is_online-set_online :
    (u v : String) (b : Bool) (s : PresenceStore)
    → u ≢ ""
    → is_online (some v) (set_online u b s) ≡ (if u == v then b else is_online (some v) s)
unfolding is_online set_online
is_online-set_online u v b s n =
    ground (arith, includes-set_add u v s.online, includes-set_delete u v s.online)

-- After a snapshot the users online are those of the snapshot and those who were online before: a
-- snapshot takes nobody offline.
pub is_online-set_all_online :
    (ids : List String) (v : String) (s : PresenceStore)
    → v ≢ ""
    → is_online (some v) (set_all_online ids s) ≡ (includes v ids || is_online (some v) s)
unfolding is_online set_all_online set_online
is_online-set_all_online [] v s n = ground arith
is_online-set_all_online (u ∷ ids) v s n =
    ground
      (arith, is_online-set_all_online ids v (set_online u true s) n, includes-set_add u v s.online)

abbrev pub last_read : String → String → ReadReceiptsStore → Option String
last_read c u s = get u (or_empty (get c s.last_read_by_conversation))

-- A receipt sets the last message that its reader has read in its conversation, and no other.
pub last_read-set_last_read :
    (c u m c' u' : String) (s : ReadReceiptsStore)
    → last_read c' u' (set_last_read c u m s)
      ≡ (if c == c' && u == u' then some m else last_read c' u' s)
unfolding set_last_read
last_read-set_last_read c u m c' u' s = ground (
  arith,
  get-put c' c (put u m (or_empty (get c s.last_read_by_conversation))) s.last_read_by_conversation,
  get-put u' u m (or_empty (get c s.last_read_by_conversation)),
)

-- A voice channel shows the participants of its last event, and none once its call has ended.
pub voice_participants_lem :
    (c c' : String) (ids : List String) (s : VoiceChannelStore)
    → (voice_participants c' (set_voice_participants c ids s)
        ≡ (if c == c' then ids else voice_participants c' s))
      × (voice_participants c' (clear_voice c s)
          ≡ (if c == c' then [] else voice_participants c' s))
unfolding voice_participants set_voice_participants clear_voice
voice_participants_lem c c' ids s = (
  ground (arith, get-put c' c ids s.participants_by_conversation),
  ground (arith, get-del c' c s.participants_by_conversation),
)

abbrev pub is_due : ℕ → List (ℕ × String) → String → Bool
is_due now timers id = any (λ d. leb d.0 now && d.1 == id) timers

In-dismiss_each :
    (t : Toast) (ds : List (ℕ × String)) (s : ToastStore)
    → In t (dismiss_each ds s).toasts ↔ (In t s.toasts × (any (λ d. d.1 == t.id) ds ≡ false))
unfolding dismiss_each dismiss
In-dismiss_each t [] s = ground arith
In-dismiss_each t ((due, id) ∷ ds) s =
    ground
      (arith, In-dismiss_each t ds (dismiss id s), In-filter (λ x. not (x.id == id)) t s.toasts)

any-filter_due :
    (now : ℕ) (id : String) (ds : List (ℕ × String))
    → any (λ d. d.1 == id) (filter (λ d. leb d.0 now) ds) ≡ is_due now ds id
any-filter_due now id [] = refl
any-filter_due now id ((due, i) ∷ ds) = ground (arith, any-filter_due now id ds)

-- When time has passed, the toasts shown are those shown before whose timeout is not due.
pub In-elapse :
    (t : Toast) (now : ℕ) (s : ToastStore)
    → In t (elapse now s).toasts ↔ (In t s.toasts × (is_due now s.timers t.id ≡ false))
unfolding elapse
In-elapse t now s = ground (
  arith,
  In-dismiss_each t (filter (λ d. leb d.0 now) s.timers)
      (record s { timers = filter (λ d. ltb now d.0) s.timers }),
  any-filter_due now t.id s.timers,
)

is_due_of_absent :
    (now : ℕ) (id : String) (ds : List (ℕ × String))
    → any (λ d. d.1 == id) ds ≡ false
    → is_due now ds id ≡ false
is_due_of_absent now id [] h = refl
is_due_of_absent now id ((due, i) ∷ ds) h = ground (arith, is_due_of_absent now id ds)

-- A toast is shown from its `push` until its timeout, and not after it, if no other timeout has its id.
pub In-elapse-push :
    (t : Toast) (pushed now : ℕ) (s : ToastStore)
    → any (λ d. d.1 == t.id) s.timers ≡ false
    → In t (elapse now (push pushed t.id t.text t.tone s)).toasts
      ↔ (now < pushed + toast_duration_ms)
unfolding push
In-elapse-push t pushed now s fresh = ground (
  arith,
  In-elapse t now (push pushed t.id t.text t.tone s),
  In-append t s.toasts (t ∷ []),
  any-append (λ d. leb d.0 now && d.1 == t.id) s.timers ((pushed + toast_duration_ms, t.id) ∷ []),
  is_due_of_absent now t.id s.timers,
)
