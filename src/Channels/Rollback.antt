-- ===== src/Channels/Rollback.antt =====
-- Refused mutations of frontend/src/hooks/useServerMutations.ts.
use bu3li_comms.Prelude.{ℕ, String, true, ◌≡◌, List, arith}
use bu3li_comms.Stores.{push, error}
use bu3li_comms.Channels.{ServersQuery, on_reorder, on_reorder_error}

-- A reordering that the server refuses leaves the servers cached as they were before it, shows one toast
-- that says so, and has the servers fetched again.
pub on_reorder_error-on_reorder :
    (now : ℕ) (id server : String) (ids : List String) (q : ServersQuery)
    → let (previous, shown) = on_reorder server ids q in
      on_reorder_error now id previous shown ≡ record q {
        is_outdated = true;
        toasts = push now id "Couldn't reorder channels. Try again." error q.toasts;
      }
unfolding on_reorder on_reorder_error
on_reorder_error-on_reorder now id server ids q = ground arith
