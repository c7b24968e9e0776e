-- ===== src/Recorder/Take.antt =====
-- A voice message from its start to its clip in frontend/src/hooks/useAudioRecorder.ts.
use bu3li_comms.Prelude.{
  ℕ, ◌-◌, ltb, eqb, String, false, if◌then◌else◌, ◌≡◌, refl, ap, ap₂, sym, subst, ◌∙◌, Option, none,
  some, List, [], ◌∷◌, ◌++◌, arith, Bool-cases, inl, inr,
}
use bu3li_comms.Http.{Blob, text_or}
use bu3li_comms.Recorder.{
  AudioRecorder, records, take_stream, begin_take, cleanup, granted, data_available, on_tick, stop,
  resolve, resolve_all, stopped, RecorderEvent, delivers, ticks, handle, run, RecordedAudio,
}

-- What a recorder may report while it records.
pub data Report : Type 0 where
  chunk : Blob → Report
  clock : (now : ℕ) → Report

abbrev pub report : Report → RecorderEvent
report (chunk b) = delivers b
report (clock now) = ticks now

abbrev pub events : List Report → List RecorderEvent
events [] = []
events (r ∷ rs) = report r ∷ events rs

-- the pieces that are not empty
abbrev pub pieces : List Report → List Blob
pieces [] = []
pieces (chunk b ∷ rs) = if ltb 0 b.size then b ∷ pieces rs else pieces rs
pieces (clock now ∷ rs) = pieces rs

append-nil : (xs : List Blob) → xs ≡ xs ++ []
append-nil [] = refl
append-nil (x ∷ xs) = ap (λ ys. x ∷ ys) (append-nil xs)

append-snoc : (xs : List Blob) (y : Blob) (ys : List Blob) → (xs ++ y ∷ []) ++ ys ≡ xs ++ y ∷ ys
append-snoc [] y ys = refl
append-snoc (x ∷ xs) y ys = ap (λ zs. x ∷ zs) (append-snoc xs y ys)

-- What recording changes and what it leaves.
abbrev Continues : List Blob → AudioRecorder → AudioRecorder → Type 0
Continues bs s t =
    (t.chunks ≡ s.chunks ++ bs)
    × (t.recorder ≡ s.recorder)
    × (t.started_at ≡ s.started_at)
    × (t.awaiting ≡ s.awaiting)
    × (t.results ≡ s.results)

recorded : (rs : List Report) (s : AudioRecorder) → Continues (pieces rs) s (run (events rs) s)
unfolding handle data_available on_tick
recorded [] s = (append-nil s.chunks, refl, refl, refl, refl)
recorded (chunk b ∷ rs) s = elim (Bool-cases (ltb 0 b.size)) [
  | inl e ↦
      let t : AudioRecorder = record s { chunks = s.chunks ++ b ∷ [] } in
      let step : data_available b s ≡ t = ground arith in
      let (c, h1, h2, h3, h4) = recorded rs t in
      let grown : Continues (b ∷ pieces rs) s (run (events rs) t) =
        (c ∙ append-snoc s.chunks b (pieces rs), h1, h2, h3, h4) in
      rw (e) (subst (λ x. Continues (b ∷ pieces rs) s (run (events rs) x)) (sym step) grown)
  | inr e ↦
      let step : data_available b s ≡ s = ground arith in
      rw (e) (subst (λ x. Continues (pieces rs) s (run (events rs) x)) (sym step) (recorded rs s))
]
recorded (clock now ∷ rs) s = recorded rs (record s { elapsed_ms = now - s.started_at })

abbrev pub clip_of : ℕ → ℕ → String → List Blob → Option RecordedAudio
clip_of from to mime_type bs =
    if ltb 0 (to - from)
    then some (record {
      parts = bs;
      mime_type = text_or (some mime_type) "audio/webm";
      duration_ms = to - from;
    })
    else none

stop-once :
    (r : ℕ) (s : AudioRecorder)
    → s.recorder ≡ some r
    → s.awaiting ≡ []
    → ((stop s).awaiting ≡ r ∷ [])
      × ((stop s).chunks ≡ s.chunks)
      × ((stop s).started_at ≡ s.started_at)
      × ((stop s).results ≡ s.results)
unfolding stop
stop-once r s h a = ground arith

-- The stop event of a recorder that one call of `stop` awaits.
stopped-once :
    (r to : ℕ) (mime_type : String) (s : AudioRecorder)
    → s.awaiting ≡ r ∷ []
    → ((stopped r to mime_type s).results ≡ clip_of s.started_at to mime_type s.chunks ∷ s.results)
      × ((stopped r to mime_type s).is_recording ≡ false)
      × ((stopped r to mime_type s).awaiting ≡ [])
unfolding stopped resolve_all resolve cleanup
stopped-once r to mime_type s a = elim (Bool-cases (eqb r r)) [
  | inl e ↦ rw (a, e) (refl, refl, refl)
  | inr e ↦ absurd (ground arith)
]

-- A take from the granted microphone to the recorder's stop event: `before` is what is reported until
-- `stop` is called, `late` what is reported from then on.
abbrev pub take_of : List Report → List Report → ℕ → ℕ → String → AudioRecorder → AudioRecorder
take_of before late from to mime_type s =
    stopped s.next_handle to mime_type
      (run (events late) (stop (run (events before) (granted records from s))))

-- If no call of `stop` is awaited yet, then a take that nothing else disturbs gives one clip, of the pieces
-- that are not empty in the order in which they came, those included that come between the call of `stop` and
-- the stop event, and of the time from start to stop, or no clip if no time has passed; then nothing is
-- recorded and no call is awaited.
pub take_lem :
    (before late : List Report) (from to : ℕ) (mime_type : String) (s : AudioRecorder)
    → s.awaiting ≡ []
    → ((take_of before late from to mime_type s).results
        ≡ clip_of from to mime_type (pieces before ++ pieces late) ∷ s.results)
      × ((take_of before late from to mime_type s).is_recording ≡ false)
      × ((take_of before late from to mime_type s).awaiting ≡ [])
unfolding granted begin_take take_stream
take_lem before late from to mime_type s a =
    let t : AudioRecorder = run (events before) (granted records from s) in
    let (c, r, f, w, k) = recorded before (granted records from s) in
    let (w1, c1, f1, k1) = stop-once s.next_handle t r (w ∙ a) in
    let (c2, r2, f2, w2, k2) = recorded late (stop t) in
    let (x, y, z) =
      stopped-once s.next_handle to mime_type (run (events late) (stop t)) (w2 ∙ w1) in
    let all = c2 ∙ ap (λ bs. bs ++ pieces late) (c1 ∙ c) in
    (
      x ∙ ap₂ ◌∷◌ (ap₂ (λ n bs. clip_of n to mime_type bs) (f2 ∙ (f1 ∙ f)) all) (k2 ∙ (k1 ∙ k)),
      y,
      z,
    )
