-- ===== src/Recorder/Lost.antt =====
-- A microphone that frontend/src/hooks/useAudioRecorder.ts loses.
use bu3li_comms.Prelude.{
  ℕ, ◌<◌, ltb, eqb, not, String, Option, none, some, List, [], ◌∷◌, filter, In, In-filter, arith,
  inr, inl, Option-cases, Bool-cases,
}
use bu3li_comms.Http.{Blob}
use bu3li_comms.Recorder.{
  AudioRecorder, without, StartOutcome, throws_at_construction, throws_at_start, records,
  take_stream, begin_take, cleanup, granted, data_available, on_tick, stop, resolve, resolve_all,
  stopped, cancel, RecorderEvent, grants, delivers, ticks, stops, has_stopped, cancels, unmounts,
  handle, run,
}

abbrev IsAbove : ℕ → Option ℕ → Type 0
IsAbove n none = Unit
IsAbove n (some m) = n < m

-- A number below the next one is live, and the ref does not hold it.
record Lost (n : ℕ) (s : AudioRecorder) : Type 0 where
  live : In n s.live_streams
  used : n < s.next_handle
  forgotten : IsAbove n s.stream

without-In : (n : ℕ) (h : Option ℕ) (ns : List ℕ) → IsAbove n h → In n ns → In n (without h ns)
without-In n none ns a i = i
without-In n (some m) ns a i = (In-filter (λ h. not (eqb h m)) n ns).1 (i, ground (arith, a))

cleanup-Lost : (n : ℕ) (s : AudioRecorder) → Lost n s → Lost n (cleanup s)
unfolding cleanup
cleanup-Lost n s h = record {
  live = without-In n s.stream s.live_streams h.forgotten h.live;
  used = h.used;
  forgotten = tt;
}

granted-live :
    (outcome : StartOutcome) (now : ℕ) (s : AudioRecorder)
    → In s.next_handle (granted outcome now s).live_streams
      × (s.next_handle < (granted outcome now s).next_handle)
unfolding granted begin_take take_stream
granted-live throws_at_construction now s = ground arith
granted-live throws_at_start now s = ground arith
granted-live records now s = ground arith

granted-Lost :
    (n : ℕ) (outcome : StartOutcome) (now : ℕ) (s : AudioRecorder)
    → In n s.live_streams
    → n < s.next_handle
    → Lost n (granted outcome now s)
unfolding granted begin_take take_stream
granted-Lost n throws_at_construction now s i l = record {
  live = inr i;
  used = ground (arith, l);
  forgotten = l;
}
granted-Lost n throws_at_start now s i l = record {
  live = inr i;
  used = ground (arith, l);
  forgotten = l;
}
granted-Lost n records now s i l = record { live = inr i; used = ground (arith, l); forgotten = l }

resolve-Lost :
    (n now : ℕ) (mime_type : String) (s : AudioRecorder)
    → Lost n s
    → Lost n (resolve now mime_type s)
unfolding resolve cleanup
resolve-Lost n now mime_type s h =
    let c = cleanup-Lost n s h in record { live = c.live; used = c.used; forgotten = c.forgotten }

resolve_all-Lost :
    (n now : ℕ) (mime_type : String) (rs : List ℕ) (s : AudioRecorder)
    → Lost n s
    → Lost n (resolve_all now mime_type rs s)
unfolding resolve_all
resolve_all-Lost n now mime_type [] s h = h
resolve_all-Lost n now mime_type (r ∷ rs) s h =
    resolve_all-Lost n now mime_type rs (resolve now mime_type s) (resolve-Lost n now mime_type s h)

stop-Lost : (n : ℕ) (s : AudioRecorder) → Lost n s → Lost n (stop s)
unfolding stop
stop-Lost n s h = elim (Option-cases s.recorder) [
  | inl e ↦ rw (e, stop) (record { live = h.live; used = h.used; forgotten = h.forgotten })
  | inr (r, e) ↦ rw (e, stop) (record { live = h.live; used = h.used; forgotten = h.forgotten })
]

data-Lost : (n : ℕ) (b : Blob) (s : AudioRecorder) → Lost n s → Lost n (data_available b s)
unfolding data_available
data-Lost n b s h = elim (Bool-cases (ltb 0 b.size)) [
  | inl e ↦
      rw (e, data_available) (record { live = h.live; used = h.used; forgotten = h.forgotten })
  | inr e ↦ rw (e, data_available) h
]

handle-Lost : (n : ℕ) (e : RecorderEvent) (s : AudioRecorder) → Lost n s → Lost n (handle e s)
unfolding handle on_tick stopped cancel
handle-Lost n (grants outcome now) s h = granted-Lost n outcome now s h.live h.used
handle-Lost n (delivers b) s h = data-Lost n b s h
handle-Lost n (ticks now) s h = record { live = h.live; used = h.used; forgotten = h.forgotten }
handle-Lost n stops s h = stop-Lost n s h
handle-Lost n (has_stopped r now mime_type) s h =
    resolve_all-Lost n now mime_type (filter (λ x. eqb x r) s.awaiting)
      (record s { awaiting = filter (λ x. not (eqb x r)) s.awaiting })
      (record { live = h.live; used = h.used; forgotten = h.forgotten })
handle-Lost n cancels s h =
    cleanup-Lost n (record s { active = without s.recorder s.active })
      (record { live = h.live; used = h.used; forgotten = h.forgotten })
handle-Lost n unmounts s h = cleanup-Lost n s h

run-Lost : (n : ℕ) (es : List RecorderEvent) (s : AudioRecorder) → Lost n s → Lost n (run es s)
run-Lost n [] s h = h
run-Lost n (e ∷ es) s h = run-Lost n es (handle e s) (handle-Lost n e s h)

-- A microphone that is granted and not released before the next is granted, as when its recorder cannot be
-- made or started and the user tries again, stays live whatever follows.
pub lost_microphone :
    (first second : StartOutcome) (now later : ℕ) (es : List RecorderEvent) (s : AudioRecorder)
    → In s.next_handle (run es (granted second later (granted first now s))).live_streams
lost_microphone first second now later es s =
    let (i, l) = granted-live first now s in
    (run-Lost s.next_handle es (granted second later (granted first now s))
      (granted-Lost s.next_handle second later (granted first now s) i l)).live
