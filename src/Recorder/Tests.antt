-- ===== src/Recorder/Tests.antt =====
-- The recorder of frontend/src/hooks/useAudioRecorder.ts in concrete uses.
use bu3li_comms.Prelude.{
  ℕ, false, ltb, String-discrete, ◌≡◌, refl, inl, List, [], ◌∷◌, ◌++◌, length, In, All, not, true,
}
use bu3li_comms.Http.{Blob}
use bu3li_comms.Recorder.{
  initial, throws_at_start, records, take_stream, begin_take, cleanup, granted, data_available,
  on_tick, stop, resolve, resolve_all, stopped, cancel, RecorderEvent, grants, delivers, ticks,
  stops, has_stopped, cancels, handle, run,
}
use bu3li_comms.Recorder.Release.{IsOrderly, IsReleased, is_ref, released, stopped-IsReleased}
use bu3li_comms.Recorder.Lost.{lost_microphone}
use bu3li_comms.Recorder.Take.{Report, chunk, clock, pieces, clip_of, take_of, take_lem}

abbrev piece : ℕ → Blob
piece size = record { handle = size; mime_type = "audio/webm"; size = size }

abbrev take : List RecorderEvent
take =
    grants records 100
    ∷ delivers (piece 7)
    ∷ ticks 200
    ∷ stops
    ∷ delivers (piece 3)
    ∷ has_stopped 0 400 ""
    ∷ grants records 500
    ∷ []

take-IsOrderly : IsOrderly take initial
unfolding handle granted take_stream begin_take data_available on_tick stop stopped resolve_all
    resolve cleanup
take-IsOrderly = (refl, (tt, (tt, (tt, (tt, (tt, (refl, tt)))))))

released_example :
    IsReleased (cancel (run take initial))
    × All
        (λ x. not (is_ref (run take initial).recorder x) ≡ true)
        (cancel (run take initial)).active
    × (ltb 0 (length (run take initial).intervals) ≡ (run take initial).is_recording)
released_example = released take take-IsOrderly

abbrev stopping : List RecorderEvent
stopping = grants records 100 ∷ stops ∷ []

stopped-IsReleased_example : IsReleased (stopped 0 400 "" (run stopping initial))
unfolding handle granted take_stream begin_take stop
stopped-IsReleased_example = stopped-IsReleased stopping 0 400 "" (refl, (tt, tt)) (inl refl)

-- The recorder cannot be started; the user tries again, and cancels.
lost_microphone_example :
    In 0
      (run (cancels ∷ []) (granted records 200 (granted throws_at_start 100 initial))).live_streams
lost_microphone_example = lost_microphone throws_at_start records 100 200 (cancels ∷ []) initial

-- Two calls of `stop` before the recorder's event resolve to a clip each.
stop_twice_test :
    length (run (grants records 100 ∷ stops ∷ stops ∷ has_stopped 0 400 "" ∷ []) initial).results
    ≡ 2
unfolding handle granted take_stream begin_take stop stopped resolve_all resolve cleanup
    String-discrete
stop_twice_test = refl

-- A microphone that is granted while another is held stays open.
granted_twice_test :
    (run (grants records 100 ∷ grants records 110 ∷ cancels ∷ []) initial).live_streams ≡ 0 ∷ []
unfolding handle granted take_stream begin_take cancel cleanup
granted_twice_test = refl

abbrev reports : List Report
reports = chunk (piece 7) ∷ clock 200 ∷ chunk (piece 0) ∷ []

-- what a recorder without a time slice reports once it is stopped
abbrev last_data : List Report
last_data = chunk (piece 5) ∷ []

take_lem_example :
    ((take_of reports last_data 100 400 "" initial).results
      ≡ clip_of 100 400 "" (pieces reports ++ pieces last_data) ∷ [])
    × ((take_of reports last_data 100 400 "" initial).is_recording ≡ false)
    × ((take_of reports last_data 100 400 "" initial).awaiting ≡ [])
take_lem_example = take_lem reports last_data 100 400 "" initial refl

-- That last piece is the clip.
last_data_test :
    (take_of [] last_data 100 400 "" initial).results ≡ clip_of 100 400 "" (piece 5 ∷ []) ∷ []
unfolding handle granted take_stream begin_take data_available stop stopped resolve_all resolve
    cleanup String-discrete
last_data_test = refl
