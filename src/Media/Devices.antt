-- ===== src/Media/Devices.antt =====
-- frontend/src/hooks/useAudioInputDevices.ts: the microphones that are listed. `String.startsWith` is the
-- parameter `starts_with`, the text of a number `show`.
use Prim.Native.String.{◌++◌ as join_text}
use bu3li_comms.Prelude.{
  ℕ, ◌+◌, String, Bool, true, false, not, ◌&&◌, ◌==◌, if◌then◌else◌, ◌≡◌, refl, ap, List, [], ◌∷◌,
  filter, all, All, arith,
}

-- a device as the browser lists it
pub record MediaDevice : Type 0 where
  pub kind : String
  pub device_id : String
  pub label : String

pub record AudioInputDevice : Type 0 where
  pub device_id : String
  pub label : String

unfoldable pub labelled : (ℕ → String) → ℕ → List MediaDevice → List AudioInputDevice
labelled show i [] = []
labelled show i (d ∷ ds) =
    record {
      device_id = d.device_id;
      label = if d.label == "" then join_text "Microphone " (show (i + 1)) else d.label;
    }
    ∷ labelled show (i + 1) ds

abbrev pub is_some_device : List AudioInputDevice → Bool
is_some_device [] = false
is_some_device (d ∷ ds) = true

module _ (starts_with : String → String → Bool) (show : ℕ → String) where
  unfoldable pub has_labels : List AudioInputDevice → Bool
  has_labels inputs =
      all (λ d. not (starts_with d.label "Microphone ")) inputs && is_some_device inputs

  -- `refresh`: the inputs and `hasLabels`
  unfoldable pub refresh : List MediaDevice → List AudioInputDevice × Bool
  unfolding labelled has_labels
  refresh devices =
      let inputs : List AudioInputDevice =
        labelled show 0 (filter (λ d. d.kind == "audioinput") devices) in
      (inputs, has_labels inputs)

  all-labelled :
      ((text : String) → starts_with (join_text "Microphone " text) "Microphone " ≡ true)
      → (i : ℕ) (ds : List MediaDevice) → All (λ d. starts_with d.label "Microphone " ≡ false) ds
      → all (λ d. not (starts_with d.label "Microphone ")) (labelled show i ds)
        ≡ all (λ d. not (d.label == "")) ds
  unfolding labelled
  all-labelled p i [] h = refl
  all-labelled p i (d ∷ ds) (n, h) =
      ground (arith, p (show (i + 1)), n, all-labelled p (i + 1) ds h)

  -- A device that the browser itself calls by a name that starts with "Microphone " makes the hook take the
  -- labels for missing, whatever the other devices are.
  pub has_labels-misread :
      (i : ℕ) (d : MediaDevice) (ds : List MediaDevice)
      → (d.label == "") ≡ false
      → starts_with d.label "Microphone " ≡ true
      → has_labels (labelled show i (d ∷ ds)) ≡ false
  unfolding has_labels labelled
  has_labels-misread i d ds n s = ground (arith, n, s)

  -- If the names that the hook makes up start with "Microphone ", and the browser's do not, then the hook
  -- takes the labels to be there exactly if there is a microphone and none is without a label.
  pub refresh_lem :
      ((text : String) → starts_with (join_text "Microphone " text) "Microphone " ≡ true)
      → (devices : List MediaDevice)
      → All
          (λ d. starts_with d.label "Microphone " ≡ false)
          (filter (λ d. d.kind == "audioinput") devices)
      → (refresh devices).1 ≡ (
          all (λ d. not (d.label == "")) (filter (λ d. d.kind == "audioinput") devices)
          && is_some_device (refresh devices).0)
  unfolding refresh has_labels
  refresh_lem p devices h =
      ap (λ b. b && is_some_device (labelled show 0 (filter (λ d. d.kind == "audioinput") devices)))
        (all-labelled p 0 (filter (λ d. d.kind == "audioinput") devices) h)
