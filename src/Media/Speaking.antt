-- ===== src/Media/Speaking.antt =====
-- frontend/src/calls/speakingDetector.ts: when a participant is shown as speaking. The volumes of a frame
-- are whole numbers and its time is in whole milliseconds; their sum is compared with sixteen times their
-- number, which is the comparison of the average.
use bu3li_comms.Prelude.{
  ℕ, ◌+◌, ◌*◌, ◌≤◌, ltb, leb, Bool, true, false, not, ◌&&◌, if◌then◌else◌, ◌≡◌, refl, Option, none,
  some, List, [], ◌∷◌, length, arith, Bool-cases, inl, inr,
}

abbrev speaking_threshold : ℕ
speaking_threshold = 16

abbrev hold_ms : ℕ
hold_ms = 300

-- `reports` are the calls of `onChange`, newest first
pub record Watch : Type 0 where
  pub is_speaking : Bool
  pub last_above_threshold_at : ℕ
  pub reports : List Bool

pub record Frame : Type 0 where
  pub volumes : List ℕ
  pub now : ℕ

abbrev pub sum : List ℕ → ℕ
sum [] = 0
sum (v ∷ vs) = v + sum vs

abbrev pub is_loud : List ℕ → Bool
is_loud volumes = ltb (speaking_threshold * length volumes) (sum volumes)

unfoldable pub tick : Frame → Watch → Watch
tick f w =
    if is_loud f.volumes
    then record {
      is_speaking = true;
      last_above_threshold_at = f.now;
      reports = if w.is_speaking then w.reports else true ∷ w.reports;
    }
    else if w.is_speaking && ltb (w.last_above_threshold_at + hold_ms) f.now
    then record w { is_speaking = false; reports = false ∷ w.reports }
    else w

abbrev pub watch : List Frame → Watch → Watch
watch [] w = w
watch (f ∷ fs) w = watch fs (tick f w)

abbrev pub silent : Watch
silent = record { is_speaking = false; last_above_threshold_at = 0; reports = [] }

-- The time of the last loud frame, if there is one, and of the last frame.
abbrev pub last_loud : List Frame → Option ℕ → Option ℕ
last_loud [] found = found
last_loud (f ∷ fs) found = last_loud fs (if is_loud f.volumes then some f.now else found)

abbrev pub last_time : List Frame → ℕ → ℕ
last_time [] now = now
last_time (f ∷ fs) now = last_time fs f.now

abbrev pub IsOrdered : List Frame → ℕ → Type 0
IsOrdered [] now = Unit
IsOrdered (f ∷ fs) now = (now ≤ f.now) × IsOrdered fs f.now

-- A loud frame counts for as long as the hold lasts.
abbrev pub is_held : Option ℕ → ℕ → Bool
is_held none now = false
is_held (some t) now = leb now (t + hold_ms)

-- The reports tell each change once: the newest is the present state, and each differs from the one before.
abbrev pub tells : List Bool → Bool
tells [] = false
tells (b ∷ bs) = b

abbrev pub Alternates : List Bool → Type 0
Alternates [] = Unit
Alternates (b ∷ bs) = (b ≡ not (tells bs)) × Alternates bs

pub record Agrees (found : Option ℕ) (now : ℕ) (w : Watch) : Type 0 where
  pub held : w.is_speaking ≡ is_held found now
  pub since : (t : ℕ) → found ≡ some t → (t ≡ w.last_above_threshold_at) × (t ≤ now)
  pub told : tells w.reports ≡ w.is_speaking
  pub alternating : Alternates w.reports

loud-Agrees :
    (f : Frame) (found : Option ℕ) (now : ℕ) (w : Watch)
    → Agrees found now w
    → is_loud f.volumes ≡ true
    → Agrees (some f.now) f.now (tick f w)
unfolding tick
loud-Agrees f found now w a e = record {
  held = ground (arith, e);
  since = λ t k. ground (arith, e);
  told = ground (arith, e, a.told);
  alternating = ground (arith, e, a.told, a.alternating);
}

quiet-Agrees :
    (f : Frame) (found : Option ℕ) (now : ℕ) (w : Watch)
    → Agrees found now w
    → now ≤ f.now
    → is_loud f.volumes ≡ false
    → Agrees found f.now (tick f w)
unfolding tick
quiet-Agrees f none now w a o e = record {
  held = ground (arith, e, a.held);
  since = λ t k. absurd (ground arith);
  told = ground (arith, e, a.told, a.held);
  alternating = ground (arith, e, a.told, a.alternating);
}
quiet-Agrees f (some t) now w a o e =
    let (same, past) = a.since t refl in
    record {
      held = ground (arith, e, a.held, same, past);
      since = λ u k. ground (arith, e, same, past);
      told = ground (arith, e, a.told);
      alternating = ground (arith, e, a.told, a.alternating);
    }

tick-Agrees :
    (f : Frame) (found : Option ℕ) (now : ℕ) (w : Watch)
    → Agrees found now w
    → now ≤ f.now
    → Agrees (if is_loud f.volumes then some f.now else found) f.now (tick f w)
tick-Agrees f found now w a o = elim (Bool-cases (is_loud f.volumes)) [
  | inl e ↦ rw (e) (loud-Agrees f found now w a e)
  | inr e ↦ rw (e) (quiet-Agrees f found now w a o e)
]

watch-Agrees :
    (fs : List Frame) (found : Option ℕ) (now : ℕ) (w : Watch)
    → Agrees found now w
    → IsOrdered fs now
    → Agrees (last_loud fs found) (last_time fs now) (watch fs w)
watch-Agrees [] found now w a o = a
watch-Agrees (f ∷ fs) found now w a (p, o) =
    watch-Agrees fs (if is_loud f.volumes then some f.now else found) f.now (tick f w)
      (tick-Agrees f found now w a p) o

-- If the frames come in order of time, then someone is shown as speaking exactly while the last loud frame
-- is at most 300 ms ago, and each change of that is reported once.
pub watch_lem :
    (fs : List Frame)
    → IsOrdered fs 0
    → ((watch fs silent).is_speaking ≡ is_held (last_loud fs none) (last_time fs 0))
      × (tells (watch fs silent).reports ≡ (watch fs silent).is_speaking)
      × Alternates (watch fs silent).reports
watch_lem fs o =
    let a =
      watch-Agrees fs none 0 silent
        (record {
          held = refl;
          since = λ t e. absurd (ground arith);
          told = refl;
          alternating = tt;
        })
        o in
    (a.held, a.told, a.alternating)
