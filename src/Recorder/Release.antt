-- ===== src/Recorder/Release.antt =====
-- The microphone and the interval of frontend/src/hooks/useAudioRecorder.ts.
use bu3li_comms.Prelude.{
  ℕ, eqb, ltb, String, Bool, true, false, not, ◌≡◌, refl, ◌⊎◌, inl, inr, Option, none, some, List,
  [], ◌∷◌, filter, length, In, In-filter, All, All-filter_self, Option-cases, arith,
}
use bu3li_comms.Http.{Blob}
use bu3li_comms.Recorder.{
  AudioRecorder, initial, without, StartOutcome, throws_at_construction, throws_at_start, records,
  take_stream, begin_take, cleanup, granted, data_available, on_tick, stop, resolve, resolve_all,
  stopped, cancel, RecorderEvent, grants, delivers, ticks, stops, has_stopped, cancels, unmounts,
  handle, run,
}

abbrev pub to_list : Option ℕ → List ℕ
to_list none = []
to_list (some n) = n ∷ []

abbrev is_held : Option ℕ → Bool
is_held none = false
is_held (some n) = true

-- What runs in the browser is what the refs hold; an interval runs only beside a stream, and exactly while
-- the hook says that it records.
pub record NoLeak (s : AudioRecorder) : Type 0 where
  pub streams : s.live_streams ≡ to_list s.stream
  pub ticking : s.intervals ≡ to_list s.tick
  pub paired : s.stream ≡ none → s.tick ≡ none
  pub shown : s.is_recording ≡ is_held s.tick

abbrev IsAllowed : RecorderEvent → AudioRecorder → Type 0
IsAllowed (grants outcome now) s = s.stream ≡ none
IsAllowed _ s = Unit

-- The microphone is granted only while no stream is held.
abbrev pub IsOrderly : List RecorderEvent → AudioRecorder → Type 0
IsOrderly [] s = Unit
IsOrderly (e ∷ es) s = IsAllowed e s × IsOrderly es (handle e s)

without-to_list : (h : Option ℕ) → without h (to_list h) ≡ []
without-to_list none = refl
without-to_list (some n) = ground arith

cleanup-NoLeak : (s : AudioRecorder) → NoLeak s → NoLeak (cleanup s)
unfolding cleanup
cleanup-NoLeak s h = record {
  streams = ground (arith, h.streams, without-to_list s.stream);
  ticking = ground (arith, h.ticking, without-to_list s.tick);
  paired = λ e. refl;
  shown = refl;
}

cleanup-free : (s : AudioRecorder) → (cleanup s).stream ≡ none
unfolding cleanup
cleanup-free s = refl

take_stream-NoLeak : (s : AudioRecorder) → NoLeak s → s.stream ≡ none → NoLeak (take_stream s)
unfolding take_stream
take_stream-NoLeak s h f = record {
  streams = ground (arith, f, h.streams);
  ticking = h.ticking;
  paired = λ e. absurd (ground arith);
  shown = h.shown;
}

granted-NoLeak :
    (outcome : StartOutcome) (now : ℕ) (s : AudioRecorder)
    → NoLeak s
    → s.stream ≡ none
    → NoLeak (granted outcome now s)
unfolding granted begin_take take_stream
granted-NoLeak throws_at_construction now s h f = take_stream-NoLeak s h f
granted-NoLeak throws_at_start now s h f =
    let t = take_stream-NoLeak s h f in
    record { streams = t.streams; ticking = t.ticking; paired = t.paired; shown = t.shown }
granted-NoLeak records now s h f =
    let t = take_stream-NoLeak s h f in
    record {
      streams = t.streams;
      ticking = ground (arith, h.ticking, h.paired f);
      paired = λ e. absurd (ground arith);
      shown = refl;
    }

-- After a stop event has run a listener no stream is held.
resolve-NoLeak :
    (now : ℕ) (mime_type : String) (s : AudioRecorder) → NoLeak s → NoLeak (resolve now mime_type s)
unfolding resolve cleanup
resolve-NoLeak now mime_type s h =
    let c = cleanup-NoLeak s h in
    record { streams = c.streams; ticking = c.ticking; paired = c.paired; shown = c.shown }

resolve-free :
    (now : ℕ) (mime_type : String) (s : AudioRecorder) → (resolve now mime_type s).stream ≡ none
unfolding resolve cleanup
resolve-free now mime_type s = refl

resolve_all-NoLeak :
    (now : ℕ) (mime_type : String) (rs : List ℕ) (s : AudioRecorder)
    → NoLeak s
    → NoLeak (resolve_all now mime_type rs s)
unfolding resolve_all
resolve_all-NoLeak now mime_type [] s h = h
resolve_all-NoLeak now mime_type (r ∷ rs) s h =
    resolve_all-NoLeak now mime_type rs (resolve now mime_type s) (resolve-NoLeak now mime_type s h)

resolve_all-free :
    (now : ℕ) (mime_type : String) (r : ℕ) (rs : List ℕ) (s : AudioRecorder)
    → In r rs ⊎ (s.stream ≡ none)
    → (resolve_all now mime_type rs s).stream ≡ none
unfolding resolve_all
resolve_all-free now mime_type r [] s (inl i) = elim i [ ]
resolve_all-free now mime_type r [] s (inr h) = h
resolve_all-free now mime_type r (q ∷ rs) s h =
    resolve_all-free now mime_type r rs (resolve now mime_type s)
      (inr (resolve-free now mime_type s))

stop-NoLeak : (s : AudioRecorder) → NoLeak s → NoLeak (stop s)
unfolding stop
stop-NoLeak s h = record {
  streams = ground (arith, h.streams);
  ticking = ground (arith, h.ticking);
  paired = ground (arith, h.paired);
  shown = ground (arith, h.shown);
}

data-NoLeak : (b : Blob) (s : AudioRecorder) → NoLeak s → NoLeak (data_available b s)
unfolding data_available
data-NoLeak b s h = record {
  streams = ground (arith, h.streams);
  ticking = ground (arith, h.ticking);
  paired = ground (arith, h.paired);
  shown = ground (arith, h.shown);
}

stopped-NoLeak :
    (r now : ℕ) (mime_type : String) (s : AudioRecorder)
    → NoLeak s
    → NoLeak (stopped r now mime_type s)
unfolding stopped
stopped-NoLeak r now mime_type s h =
    resolve_all-NoLeak now mime_type (filter (λ x. eqb x r) s.awaiting)
      (record s { awaiting = filter (λ x. not (eqb x r)) s.awaiting })
      (record { streams = h.streams; ticking = h.ticking; paired = h.paired; shown = h.shown })

stopped-free :
    (r now : ℕ) (mime_type : String) (s : AudioRecorder)
    → In r s.awaiting
    → (stopped r now mime_type s).stream ≡ none
unfolding stopped
stopped-free r now mime_type s i =
    resolve_all-free now mime_type r (filter (λ x. eqb x r) s.awaiting)
      (record s { awaiting = filter (λ x. not (eqb x r)) s.awaiting })
      (inl ((In-filter (λ x. eqb x r) r s.awaiting).1 (i, ground arith)))

cancel-NoLeak : (s : AudioRecorder) → NoLeak s → NoLeak (cancel s)
unfolding cancel
cancel-NoLeak s h =
    cleanup-NoLeak (record s { active = without s.recorder s.active })
      (record { streams = h.streams; ticking = h.ticking; paired = h.paired; shown = h.shown })

cancel-free : (s : AudioRecorder) → (cancel s).stream ≡ none
unfolding cancel
cancel-free s = cleanup-free (record s { active = without s.recorder s.active })

handle-NoLeak :
    (e : RecorderEvent) (s : AudioRecorder) → NoLeak s → IsAllowed e s → NoLeak (handle e s)
unfolding handle on_tick
handle-NoLeak (grants outcome now) s h a = granted-NoLeak outcome now s h a
handle-NoLeak (delivers b) s h a = data-NoLeak b s h
handle-NoLeak (ticks now) s h a = record {
  streams = h.streams;
  ticking = h.ticking;
  paired = h.paired;
  shown = h.shown;
}
handle-NoLeak stops s h a = stop-NoLeak s h
handle-NoLeak (has_stopped r now mime_type) s h a = stopped-NoLeak r now mime_type s h
handle-NoLeak cancels s h a = cancel-NoLeak s h
handle-NoLeak unmounts s h a = cleanup-NoLeak s h

run-NoLeak :
    (es : List RecorderEvent) (s : AudioRecorder) → NoLeak s → IsOrderly es s → NoLeak (run es s)
run-NoLeak [] s h o = h
run-NoLeak (e ∷ es) s h (a, o) = run-NoLeak es (handle e s) (handle-NoLeak e s h a) o

-- The browser runs nothing: no microphone is live and no interval runs.
abbrev pub IsReleased : AudioRecorder → Type 0
IsReleased s = (s.live_streams ≡ []) × (s.intervals ≡ [])

free-IsReleased : (s : AudioRecorder) → NoLeak s → s.stream ≡ none → IsReleased s
free-IsReleased s h f = (ground (arith, f, h.streams), ground (arith, h.ticking, h.paired f))

NoLeak-interval : (s : AudioRecorder) → NoLeak s → ltb 0 (length s.intervals) ≡ s.is_recording
NoLeak-interval s h = elim (Option-cases s.tick) [
  | inl e ↦ ground (arith, h.ticking, h.shown, e)
  | inr (n, e) ↦ ground (arith, h.ticking, h.shown, e)
]

-- The handle is that of the ref.
abbrev pub is_ref : Option ℕ → ℕ → Bool
is_ref none handle = false
is_ref (some n) handle = eqb handle n

without-All :
    (h : Option ℕ) (handles : List ℕ) → All (λ x. not (is_ref h x) ≡ true) (without h handles)
without-All none [] = tt
without-All none (x ∷ xs) = (refl, without-All none xs)
without-All (some n) xs = All-filter_self (λ h. not (eqb h n)) xs

cancel-active : (s : AudioRecorder) → All (λ x. not (is_ref s.recorder x) ≡ true) (cancel s).active
unfolding cancel cleanup
cancel-active s = without-All s.recorder s.active

orderly-NoLeak : (es : List RecorderEvent) → IsOrderly es initial → NoLeak (run es initial)
orderly-NoLeak es o =
    run-NoLeak es initial
      (record { streams = refl; ticking = refl; paired = λ e. refl; shown = refl }) o

-- If the browser grants the microphone only while no stream is held, then whatever happens, and whether or
-- not a recorder can be made and started, cancelling leaves no microphone live, no interval running and the
-- recorder that was held not recording; and an interval runs exactly while the hook says that it records.
pub released :
    (es : List RecorderEvent)
    → IsOrderly es initial
    → IsReleased (cancel (run es initial))
      × All (λ x. not (is_ref (run es initial).recorder x) ≡ true) (cancel (run es initial)).active
      × (ltb 0 (length (run es initial).intervals) ≡ (run es initial).is_recording)
released es o =
    let h = orderly-NoLeak es o in
    (
      free-IsReleased (cancel (run es initial)) (cancel-NoLeak (run es initial) h)
          (cancel-free (run es initial)),
      cancel-active (run es initial),
      NoLeak-interval (run es initial) h,
    )

-- If the browser grants the microphone only while no stream is held, then whatever happens, the stop event of
-- a recorder that a call of `stop` awaits leaves no microphone live and no interval running.
pub stopped-IsReleased :
    (es : List RecorderEvent) (r now : ℕ) (mime_type : String)
    → IsOrderly es initial
    → In r (run es initial).awaiting
    → IsReleased (stopped r now mime_type (run es initial))
stopped-IsReleased es r now mime_type o i =
    free-IsReleased (stopped r now mime_type (run es initial))
      (stopped-NoLeak r now mime_type (run es initial) (orderly-NoLeak es o))
      (stopped-free r now mime_type (run es initial) i)
