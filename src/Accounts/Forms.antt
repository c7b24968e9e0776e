-- ===== src/Accounts/Forms.antt =====
-- What the forms of frontend/src/pages and of the settings accept, and what they say.
use bu3li_comms.Prelude.{
  ℕ, ◌≤◌, String, Bool, true, false, ◌==◌, ◌≡◌, ◌↔◌, refl, ◌⊎◌, Option, none, some, arith, inl, inr,
}
use bu3li_comms.Http.{
  RequestInit, Fetched, Failure, api_error, Outcome, done, failed, is_rate_limited,
}
use bu3li_comms.Http.Endpoints.{Schemas, User, register, login}
use bu3li_comms.Accounts.{
  Session, on_user, LoginForm, RegisterForm, validate, is_valid, submit_register,
  register_and_log_in, register_failure_text, login_failure_text, on_login,
}

module _ (trim : String → String) (is_email : String → Bool) (length_of : String → ℕ) where
  -- The mutation is called exactly if there is a username, the email has the form of one, and the password
  -- has at least eight characters and is confirmed; it is called with the trimmed name and email.
  pub submit_register_lem :
      (f : RegisterForm) (username email password : String)
      → ((submit_register trim is_email length_of f).1 ≡ some (username, email, password)) ↔ (
          ((trim f.username == "") ≡ false)
          × (is_email f.email ≡ true)
          × (8 ≤ length_of f.password)
          × (f.confirm_password ≡ f.password)
          × (username ≡ trim f.username)
          × (email ≡ trim f.email)
          × (password ≡ f.password))
  unfolding submit_register validate is_valid
  submit_register_lem f username email password = ground arith

-- The answer to a login either makes the user known and leads where the user came from, or changes nothing
-- of the session, stays on the page and shows an error.
pub on_login_lem :
    (from : Option String) (o : Outcome User) (f : LoginForm) (s : Session)
    → ((user : User) × (o ≡ done user) × ((on_login from o (f, s)).2 ≡ on_user user s))
      ⊎ (((on_login from o (f, s)).0 ≡ none)
          × ((on_login from o (f, s)).2 ≡ s)
          × ((message : String) × ((on_login from o (f, s)).1.form_error ≡ some message)))
unfolding on_login
on_login_lem from (done user) f s = inl (user, refl, refl)
on_login_lem from (failed failure) f s = inr (refl, refl, (login_failure_text failure, refl))

module _ {Json : Type 0} (api_url : String) (fetch : String → RequestInit → Fetched Json)
    (schemas : Schemas Json) where
  -- If the account is created and the login that follows is refused, other than for its rate, then the form
  -- says that the account could not be created.
  pub created_but_refused :
      (username email password message : String) (status : ℕ) (user : User)
      → register api_url fetch schemas username email password ≡ done user
      → login api_url fetch schemas email password ≡ failed (api_error status message)
      → is_rate_limited (api_error status message) ≡ false
      → (failure : Failure) × (register_and_log_in api_url fetch schemas username email password
          ≡ failed failure)
        × (register_failure_text failure
            ≡ "Could not create that account. The email or username may already be taken.")
  unfolding register_and_log_in register_failure_text
  created_but_refused username email password message status user r l n =
      (api_error status message, ground (arith, r, l), rw (n) refl)
