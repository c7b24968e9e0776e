-- ===== src/Accounts/Tests.antt =====
-- Sessions and forms of frontend/src/pages and frontend/src/routes on concrete inputs.
use bu3li_comms.Prelude.{ℕ, String, Bool, true, false, ◌≡◌, refl, Option, none, some}
use bu3li_comms.Http.{Failure, api_error, is_unauthorized, has_status}
use bu3li_comms.Http.Endpoints.{User}
use bu3li_comms.Accounts.{
  Session, MeQuery, on_query_error, redirect, require_auth, public_only, RegisterForm,
}
use bu3li_comms.Accounts.Gates.{Admits, gates_lem, expired_session_loops}

abbrev alice : User
alice = record { id = "u1"; username = "alice"; email = "a@b.c"; has_avatar = false }

abbrev logged_in : Session
logged_in = record {
  me = some alice;
  is_pending = false;
  is_error = false;
  is_connected = true;
  are_conversations_outdated = false;
}

abbrev keep_data : Option User → Option User → Option User
keep_data none old = old
keep_data (some user) old = some user

abbrev failed_query : Session → Session
failed_query s = record s { is_pending = false; is_error = true }

gates_lem_example : Admits "/chat" (failed_query logged_in)
gates_lem_example = gates_lem "/chat" (failed_query logged_in) refl

abbrev query : MeQuery
query = record {
  set_data = keep_data;
  fail = failed_query;
  set_none = λ old. refl;
  fail_me = λ s. refl;
  fail_is_error = λ s. refl;
  fail_is_pending = λ s. refl;
}

abbrev refused : Failure
refused = api_error 401 "unauthorized"

refused_unauthorized : is_unauthorized refused ≡ true
unfolding is_unauthorized has_status
refused_unauthorized = refl

expired_session_loops_example :
    (require_auth "/chat" (query.fail (on_query_error query false refused logged_in))
      ≡ redirect "/login" (some "/chat"))
    × (public_only (query.fail (on_query_error query false refused logged_in))
        ≡ redirect "/chat" none)
expired_session_loops_example =
    expired_session_loops query "/chat" refused alice logged_in refused_unauthorized refl

abbrev form : RegisterForm
form = record {
  username = "alice";
  email = "a@b.c";
  password = "longenough";
  confirm_password = "longenough";
}

abbrev as_is : String → String
as_is text = text

abbrev any_email : String → Bool
any_email text = true

abbrev ten : String → ℕ
ten text = 10
