-- ===== src/Recorder.antt =====
-- frontend/src/hooks/useAudioRecorder.ts: recording a voice message. Refs and state of the hook are fields.
-- The browser's side is kept beside them: the streams whose tracks are live, the recorders that have been
-- started and not told to stop (`active`), the intervals that run, and the calls of `stop` that await a
-- recorder's stop event, one entry per call. One number names the stream, the recorder and the interval of a
-- take; `results` holds what the calls of `stop` resolved to, newest first.
pub mod Release
pub mod Lost
pub mod Take
pub mod Tests
use bu3li_comms.Prelude.{
  ℕ, ◌+◌, ◌-◌, ltb, eqb, String, Bool, true, false, not, ◌==◌, if◌then◌else◌, Option, none, some,
  List, [], ◌∷◌, ◌++◌, filter,
}
use bu3li_comms.Http.{Blob, text_or}

-- `parts` are the pieces that the clip's blob is made of
pub record RecordedAudio : Type 0 where
  pub parts : List Blob
  pub mime_type : String
  pub duration_ms : ℕ

pub record AudioRecorder : Type 0 where
  pub is_recording : Bool
  pub elapsed_ms : ℕ
  pub recorder : Option ℕ
  pub chunks : List Blob
  pub stream : Option ℕ
  pub started_at : ℕ
  pub tick : Option ℕ
  pub live_streams : List ℕ
  pub active : List ℕ
  pub intervals : List ℕ
  pub awaiting : List ℕ
  pub results : List (Option RecordedAudio)
  pub next_handle : ℕ

abbrev pub initial : AudioRecorder
initial = record {
  is_recording = false;
  elapsed_ms = 0;
  recorder = none;
  chunks = [];
  stream = none;
  started_at = 0;
  tick = none;
  live_streams = [];
  active = [];
  intervals = [];
  awaiting = [];
  results = [];
  next_handle = 0;
}

-- what is left of the handles without that of a ref
abbrev pub without : Option ℕ → List ℕ → List ℕ
without none handles = handles
without (some n) handles = filter (λ h. not (eqb h n)) handles

unfoldable pub cleanup : AudioRecorder → AudioRecorder
cleanup s = record s {
  intervals = without s.tick s.intervals;
  tick = none;
  live_streams = without s.stream s.live_streams;
  stream = none;
  recorder = none;
  is_recording = false;
  elapsed_ms = 0;
}

-- How the browser takes the rest of `start`: the constructor of the recorder throws, or its `start` does, or
-- it records.
pub data StartOutcome : Type 0 where
  throws_at_construction throws_at_start records : StartOutcome

-- the first step of `start` after the browser has granted the microphone
unfoldable pub take_stream : AudioRecorder → AudioRecorder
take_stream s = record s {
  stream = some s.next_handle;
  live_streams = s.next_handle ∷ s.live_streams;
  next_handle = s.next_handle + 1;
}

-- what follows `recorder.start()`, for the recorder of that number
unfoldable pub begin_take : ℕ → ℕ → AudioRecorder → AudioRecorder
begin_take now r s = record s {
  active = r ∷ s.active;
  recorder = some r;
  started_at = now;
  elapsed_ms = 0;
  is_recording = true;
  tick = some r;
  intervals = r ∷ s.intervals;
}

-- the rest of `start`, once the browser grants the microphone; a call that throws ends it
unfoldable pub granted : StartOutcome → ℕ → AudioRecorder → AudioRecorder
granted throws_at_construction now s = take_stream s
granted throws_at_start now s = record (take_stream s) { chunks = [] }
granted records now s = begin_take now s.next_handle (record (take_stream s) { chunks = [] })

-- the listener of `dataavailable`
unfoldable pub data_available : Blob → AudioRecorder → AudioRecorder
data_available chunk s =
    if ltb 0 chunk.size then record s { chunks = s.chunks ++ chunk ∷ [] } else s

-- the interval
unfoldable pub on_tick : ℕ → AudioRecorder → AudioRecorder
on_tick now s = record s { elapsed_ms = now - s.started_at }

-- `recorder.stop()`: the recorder records no more; its last data and its event `stop` are yet to come
unfoldable pub stop : AudioRecorder → AudioRecorder
stop s = elim s.recorder [
  | none ↦ record s { results = none ∷ s.results }
  | some r ↦ record s { awaiting = s.awaiting ++ r ∷ []; active = without (some r) s.active }
]

-- the listener of `stop`
unfoldable pub resolve : ℕ → String → AudioRecorder → AudioRecorder
unfolding cleanup
resolve now mime_type s =
    let duration_ms = now - s.started_at in
    let clip : RecordedAudio = record {
      parts = s.chunks;
      mime_type = text_or (some mime_type) "audio/webm";
      duration_ms = duration_ms;
    } in
    record (cleanup s) { results = (if ltb 0 duration_ms then some clip else none) ∷ s.results }

unfoldable pub resolve_all : ℕ → String → List ℕ → AudioRecorder → AudioRecorder
resolve_all now mime_type [] s = s
resolve_all now mime_type (r ∷ rs) s = resolve_all now mime_type rs (resolve now mime_type s)

-- the event `stop` of a recorder runs the listeners of the calls that await it
unfoldable pub stopped : ℕ → ℕ → String → AudioRecorder → AudioRecorder
unfolding resolve_all
stopped r now mime_type s =
    resolve_all now mime_type (filter (λ h. eqb h r) s.awaiting)
      (record s { awaiting = filter (λ h. not (eqb h r)) s.awaiting })

unfoldable pub cancel : AudioRecorder → AudioRecorder
unfolding cleanup
cancel s = cleanup (record s { active = without s.recorder s.active })

pub data RecorderEvent : Type 0 where
  grants : (outcome : StartOutcome) → (now : ℕ) → RecorderEvent
  delivers : (chunk : Blob) → RecorderEvent
  ticks : (now : ℕ) → RecorderEvent
  stops : RecorderEvent
  has_stopped : (recorder now : ℕ) → (mime_type : String) → RecorderEvent
  cancels unmounts : RecorderEvent

unfoldable pub handle : RecorderEvent → AudioRecorder → AudioRecorder
unfolding granted data_available on_tick stop stopped cancel cleanup
handle (grants outcome now) s = granted outcome now s
handle (delivers chunk) s = data_available chunk s
handle (ticks now) s = on_tick now s
handle stops s = stop s
handle (has_stopped r now mime_type) s = stopped r now mime_type s
handle cancels s = cancel s
handle unmounts s = cleanup s

abbrev pub run : List RecorderEvent → AudioRecorder → AudioRecorder
run [] s = s
run (e ∷ es) s = run es (handle e s)
