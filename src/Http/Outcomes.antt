-- ===== src/Http/Outcomes.antt =====
-- What the callers of frontend/src/api/client.ts may conclude from an outcome.
use bu3li_comms.Prelude.{◌≡◌, refl, arith}
use bu3li_comms.Http.{Outcome, done, failed, then_read}

pub then_read-done :
    {A B : Type 0} (o : Outcome A) (f : A → Outcome B) (b : B)
    → then_read o f ≡ done b
    → (a : A) × (o ≡ done a) × (f a ≡ done b)
then_read-done (done a) f b h = (a, refl, h)
then_read-done (failed failure) f b h = absurd (ground arith)
