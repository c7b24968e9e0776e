-- ===== src/Accounts/Gates.antt =====
-- The gates of frontend/src/routes/RequireAuth.tsx and PublicOnlyRoute.tsx.
use bu3li_comms.Prelude.{
  String, true, false, ◌≡◌, ◌∙◌, none, some, arith, Bool-cases, Option-cases, inl, inr,
}
use bu3li_comms.Http.{Failure, is_unauthorized}
use bu3li_comms.Http.Endpoints.{User}
use bu3li_comms.Accounts.{
  Session, MeQuery, on_query_error, page, redirect, require_auth, public_only, is_enabled,
}

-- What the two gates and the connection do once the user's query has settled, by what it holds: a user and no
-- failure, no user, or a user that it has kept although it failed.
pub data Admits (pathname : String) (s : Session) : Type 0 where
  inside :
      (user : User)
      → s.me ≡ some user
      → s.is_error ≡ false
      → require_auth pathname s ≡ page
      → public_only s ≡ redirect "/chat" none
      → is_enabled s ≡ true
      → Admits pathname s
  outside :
      s.me ≡ none
      → require_auth pathname s ≡ redirect "/login" (some pathname)
      → public_only s ≡ page
      → is_enabled s ≡ false
      → Admits pathname s
  stranded :
      (user : User)
      → s.me ≡ some user
      → s.is_error ≡ true
      → require_auth pathname s ≡ redirect "/login" (some pathname)
      → public_only s ≡ redirect "/chat" none
      → is_enabled s ≡ false
      → Admits pathname s

-- Once the user's query has settled, the pages behind the login are shown and the connection is enabled
-- exactly if there is a user and the query has not failed, else the login page is named; the public pages are
-- shown exactly if there is no user, so that a user kept by a failed query is sent away by both gates.
pub gates_lem : (pathname : String) (s : Session) → s.is_pending ≡ false → Admits pathname s
unfolding require_auth public_only is_enabled
gates_lem pathname s p = elim (Option-cases s.me) [
  | inl e ↦ outside e (ground arith) (ground arith) (ground arith)
  | inr (user, e) ↦ elim (Bool-cases s.is_error) [
    | inl failed ↦ stranded user e failed (ground arith) (ground arith) (ground arith)
    | inr fresh ↦ inside user e fresh (ground arith) (ground arith) (ground arith)
  ]
]

-- After a query has been refused with the status 401 and the session's own query has then failed, a user who
-- was logged in is sent by each of the gates to the other's page, if TanStack Query ignores none as data and
-- keeps the data of a query that fails.
pub expired_session_loops :
    (q : MeQuery) (pathname : String) (failure : Failure) (user : User) (s : Session)
    → is_unauthorized failure ≡ true
    → s.me ≡ some user
    → (require_auth pathname (q.fail (on_query_error q false failure s))
        ≡ redirect "/login" (some pathname))
      × (public_only (q.fail (on_query_error q false failure s)) ≡ redirect "/chat" none)
unfolding require_auth public_only on_query_error
expired_session_loops q pathname failure user s u e =
    let expired : Session = on_query_error q false failure s in
    let known : (q.fail expired).me ≡ some user =
      q.fail_me expired ∙ (ground (arith, u) ∙ q.set_none s.me ∙ e) in
    (
      ground (arith, q.fail_is_error expired, q.fail_is_pending expired),
      ground (arith, known, q.fail_is_pending expired),
    )
