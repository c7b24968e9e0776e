-- ===== src/Realtime/Online.antt =====
-- The toast of a recovered connection: `handleStatus` of frontend/src/hooks/useRealtime.ts.
use bu3li_comms.Prelude.{
  ℕ, suc, ◌+◌, String, Bool, true, false, ◌≡◌, refl, ◌∙◌, List, [], ◌∷◌, length, length-append,
  arith, Bool-cases, inl, inr,
}
use bu3li_comms.Socket.{ConnectionStatus, connecting, connected, reconnecting, disconnected}
use bu3li_comms.Stores.{push}
use bu3li_comms.Realtime.{World, handle_status}

-- The statuses that the connection tells, each with the time and the id of a toast that it may show.
unfoldable pub handle_statuses :
    {Cache : Type 0} → List (ℕ × String × ConnectionStatus) → World Cache → World Cache
handle_statuses [] w = w
handle_statuses ((now, id, status) ∷ rest) w = handle_statuses rest (handle_status now id status w)

-- How often the connection comes up after it was down, given whether it is down now.
abbrev pub recoveries : Bool → List (ℕ × String × ConnectionStatus) → ℕ
recoveries down [] = 0
recoveries down ((now, id, connecting) ∷ rest) = recoveries down rest
recoveries down ((now, id, reconnecting) ∷ rest) = recoveries true rest
recoveries down ((now, id, disconnected) ∷ rest) = recoveries true rest
recoveries true ((now, id, connected) ∷ rest) = suc (recoveries false rest)
recoveries false ((now, id, connected) ∷ rest) = recoveries false rest

module _ {Cache : Type 0} where
  step_toasts :
      (now : ℕ) (id : String) (status : ConnectionStatus)
      (rest : List (ℕ × String × ConnectionStatus)) (w : World Cache)
      → length (handle_status now id status w).toasts.toasts
          + recoveries (handle_status now id status w).was_disrupted rest
        ≡ length w.toasts.toasts + recoveries w.was_disrupted ((now, id, status) ∷ rest)
  unfolding handle_status push
  step_toasts now id connecting rest w = refl
  step_toasts now id reconnecting rest w = refl
  step_toasts now id disconnected rest w = refl
  step_toasts now id connected rest w = elim (Bool-cases w.was_disrupted) [
    | inl e ↦ rw e (rw (length-append w.toasts.toasts (_ ∷ [])) (omega arith))
    | inr e ↦ rw e refl
  ]

  -- One toast is shown for each time that the connection comes up after it was down, and none else.
  pub toasts-recoveries :
      (statuses : List (ℕ × String × ConnectionStatus)) (w : World Cache)
      → length (handle_statuses statuses w).toasts.toasts
        ≡ length w.toasts.toasts + recoveries w.was_disrupted statuses
  unfolding handle_statuses
  toasts-recoveries [] w = omega arith
  toasts-recoveries ((now, id, status) ∷ rest) w =
      toasts-recoveries rest (handle_status now id status w) ∙ step_toasts now id status rest w
