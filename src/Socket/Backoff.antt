-- ===== src/Socket/Backoff.antt =====
-- The delays of `scheduleReconnect` in frontend/src/realtime/socket.ts.
use native.Mathlib.Nat.{pow-suc}
use bu3li_comms.Prelude.{ℕ, zero, suc, ◌*◌, ◌^◌, ◌≤◌, ltb, if◌then◌else◌, ◌≡◌, refl, arith}
use bu3li_comms.Socket.{backoff}

pow_pos : (n : ℕ) → 1 ≤ 2 ^ n
pow_pos zero = omega arith
pow_pos (suc n) = simp pow-suc (omega (arith, pow_pos n))

pow_large : (n : ℕ) → 32 ≤ 2 ^ suc (suc (suc (suc (suc n))))
pow_large n = simp pow-suc (omega (arith, pow_pos n))

-- The delay starts at half a second and doubles with each attempt, up to the fifth, and is fifteen
-- seconds from the sixth on.
pub backoff_lem :
    (attempts : ℕ) → backoff attempts ≡ (if ltb attempts 5 then 500 * 2 ^ attempts else 15000)
unfolding backoff
backoff_lem zero = refl
backoff_lem (suc zero) = refl
backoff_lem (suc (suc zero)) = refl
backoff_lem (suc (suc (suc zero))) = refl
backoff_lem (suc (suc (suc (suc zero)))) = refl
backoff_lem (suc (suc (suc (suc (suc n))))) = ground (arith, pow_large n)
