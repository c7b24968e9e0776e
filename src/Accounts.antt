-- ===== src/Accounts.antt =====
-- Sessions and accounts: frontend/src/hooks/useAuthMutations.ts and useProfileMutations.ts, the
-- query cache of frontend/src/main.tsx, the forms of the pages LoginPage.tsx and RegisterPage.tsx and of the settings PasswordSettings.tsx and
-- ProfileSettings.tsx, and the gates of frontend/src/routes. `String.trim` is the parameter `trim`, the
-- length of a text `length_of`, the pattern of an email `is_email`.
pub mod Forms
pub mod Gates
pub mod Tests
use bu3li_comms.Prelude.{
  ℕ, ltb, String, Bool, true, false, not, ◌&&◌, ◌||◌, ◌==◌, if◌then◌else◌, ◌≡◌, Option, none, some,
  List, [], ◌∷◌,
}
use bu3li_comms.Stores.{ToastStore, push, error, success}
use bu3li_comms.Http.{
  Blob, RequestInit, Fetched, Failure, api_error, network_error, unreadable, Outcome, done, failed,
  has_status, is_unauthorized, is_conflict, is_rate_limited, network_message, then_read,
}
use bu3li_comms.Http.Endpoints.{Schemas, User, register, login, upload_avatar}

-- The query of `useMe`, and what the mutations do beside it.
pub record Session : Type 0 where
  pub me : Option User
  pub is_pending : Bool
  pub is_error : Bool
  pub is_connected : Bool
  pub are_conversations_outdated : Bool

-- `queryClient.setQueryData(ME_QUERY_KEY, user)`
unfoldable pub on_user : User → Session → Session
on_user user s = record s { me = some user; is_pending = false; is_error = false }

-- `onSettled` of `useLogout`; `clear` is what `queryClient.clear` makes of the session's query
unfoldable pub on_logout : (Session → Session) → Session → Session
on_logout clear s = clear (record s { is_connected = false })

-- What TanStack Query does with the session's query: `set_data` is what `setQueryData` makes of the data that
-- it is given and the data before, `fail` what a fetch that fails leaves of the query. None as data is
-- ignored, and a failure keeps the data.
pub record MeQuery : Type 0 where
  pub set_data : Option User → Option User → Option User
  pub fail : Session → Session
  pub set_none : (old : Option User) → set_data none old ≡ old
  pub fail_me : (s : Session) → (fail s).me ≡ s.me
  pub fail_is_error : (s : Session) → (fail s).is_error ≡ true
  pub fail_is_pending : (s : Session) → (fail s).is_pending ≡ false

-- `onError` of the query cache; the session's query is then fetched anew
unfoldable pub on_query_error : MeQuery → Bool → Failure → Session → Session
on_query_error q is_me_query failure s =
    if not is_me_query && is_unauthorized failure then record s { me = q.set_data none s.me } else s

abbrev pub with_avatar : Bool → Option User → Option User
with_avatar has_avatar none = none
with_avatar has_avatar (some user) = some (record user { has_avatar = has_avatar })

unfoldable pub on_avatar : Bool → Session → Session
on_avatar has_avatar s = record s {
  me = with_avatar has_avatar s.me;
  are_conversations_outdated = true;
}

module _ {Json : Type 0} (api_url : String) (fetch : String → RequestInit → Fetched Json)
    (schemas : Schemas Json) where
  -- `mutationFn` of `useRegister`
  unfoldable pub register_and_log_in : (username email password : String) → Outcome User
  register_and_log_in username email password =
      then_read (register api_url fetch schemas username email password)
        (λ user. login api_url fetch schemas email password)

  -- `mutationFn` of `useUploadAvatar`; a file that cannot be made smaller fails the mutation
  unfoldable pub upload_resized : (Blob → ℕ → Option Blob) → Blob → Outcome (Unit {0})
  upload_resized resize file = elim (resize file 256) [
    | none ↦ failed unreadable
    | some resized ↦ upload_avatar api_url fetch schemas resized
  ]

pub record LoginForm : Type 0 where
  pub email : String
  pub password : String
  pub form_error : Option String

-- What a form does when it is submitted: it shows an error, or calls the mutation.
pub data Submission (A : Type 0) : Type 0 where
  shows : (message : String) → Submission A
  mutates : A → Submission A

abbrev pub min_password_length : ℕ
min_password_length = 8

abbrev pub other_failure_text : Failure → String
other_failure_text (api_error status message) = "Something went wrong. Try again."
other_failure_text network_error = network_message
other_failure_text unreadable = "Something went wrong. Try again."

unfoldable pub login_failure_text : Failure → String
login_failure_text failure =
    if is_rate_limited failure
    then "Too many attempts. Wait a few minutes and try again."
    else if is_unauthorized failure || has_status 400 failure
    then "Incorrect email or password."
    else other_failure_text failure

abbrev pub taken_or_other : Failure → String
taken_or_other (api_error status message) =
    "Could not create that account. The email or username may already be taken."
taken_or_other network_error = network_message
taken_or_other unreadable = "Something went wrong. Try again."

unfoldable pub register_failure_text : Failure → String
register_failure_text failure =
    if is_rate_limited failure
    then "Too many accounts created recently. Try again later."
    else taken_or_other failure

unfoldable pub password_failure_text : Failure → String
password_failure_text failure =
    if is_unauthorized failure
    then "Current password is incorrect."
    else "Couldn't change your password. Try again."

unfoldable pub profile_failure_text : Failure → String
profile_failure_text failure =
    if is_conflict failure
    then "That username or email is already taken."
    else "Couldn't update your profile. Try again."

pub record RegisterForm : Type 0 where
  pub username : String
  pub email : String
  pub password : String
  pub confirm_password : String

-- the errors of the fields, `none` where there is none
pub record FieldErrors : Type 0 where
  pub username : Option String
  pub email : Option String
  pub password : Option String
  pub confirm_password : Option String

abbrev pub has_none : Option String → Bool
has_none none = true
has_none (some message) = false

pub record PasswordForm : Type 0 where
  pub current_password : String
  pub new_password : String
  pub confirm_password : String
  pub form_error : Option String

module _ (trim : String → String) (is_email : String → Bool) (length_of : String → ℕ) where
  unfoldable pub submit_login : LoginForm → Submission (String × String)
  submit_login f =
      if trim f.email == "" || f.password == ""
      then shows "Enter your email and password."
      else mutates (trim f.email, f.password)

  unfoldable pub validate : RegisterForm → FieldErrors
  validate f = record {
    username = if trim f.username == "" then some "Choose a username." else none;
    email = if is_email f.email then none else some "Enter a valid email.";
    password =
        if ltb (length_of f.password) min_password_length
        then some "Use at least 8 characters."
        else none;
    confirm_password =
        if f.confirm_password == f.password then none else some "Passwords don't match.";
  }

  unfoldable pub is_valid : FieldErrors → Bool
  is_valid e =
      has_none e.username && has_none e.email && has_none e.password && has_none e.confirm_password

  -- the errors that are shown, and what the mutation is called with, if it is called
  unfoldable pub submit_register : RegisterForm → FieldErrors × Option (String × String × String)
  unfolding validate is_valid
  submit_register f = (
    validate f,
    if is_valid (validate f) then some (trim f.username, trim f.email, f.password) else none,
  )

  unfoldable pub submit_password : PasswordForm → Submission (String × String)
  submit_password f =
      if ltb (length_of f.new_password) min_password_length
      then shows "New password must be at least 8 characters."
      else if not (f.new_password == f.confirm_password)
      then shows "Passwords don't match."
      else mutates (f.current_password, f.new_password)

  unfoldable pub submit_profile : String → String → Submission (String × String)
  submit_profile username email =
      if trim username == "" || trim email == ""
      then shows "Username and email are required."
      else mutates (trim username, trim email)

-- the answers of `updatePassword`, as the form and the toasts take them
unfoldable pub on_password :
    ℕ → String → Outcome (Unit {0}) → PasswordForm × ToastStore → PasswordForm × ToastStore
on_password now toast_id (done x) s = (
  record s.0 { current_password = ""; new_password = ""; confirm_password = "" },
  push now toast_id "Password changed." success s.1,
)
on_password now toast_id (failed failure) s =
    (record s.0 { form_error = some (password_failure_text failure) }, s.1)

-- `handleAvatarChange`: what is uploaded, if anything is
unfoldable pub change_avatar :
    (String → String → Bool) → ℕ → String → Option Blob → ToastStore → Option Blob × ToastStore
change_avatar starts_with now toast_id none toasts = (none, toasts)
change_avatar starts_with now toast_id (some file) toasts =
    if starts_with file.mime_type "image/"
    then (some file, toasts)
    else (none, push now toast_id "Choose an image file for your avatar." error toasts)

-- where `onSuccess` of the login navigates to
abbrev pub destination : Option String → String
destination none = "/chat"
destination (some from) = from

-- the page, the form and the session after the answer to a login
unfoldable pub on_login :
    Option String → Outcome User → LoginForm × Session → Option String × LoginForm × Session
on_login from (done user) s = (some (destination from), s.0, on_user user s.1)
on_login from (failed failure) s =
    (none, record s.0 { form_error = some (login_failure_text failure) }, s.1)

-- What a gate shows.
pub data Gate : Type 0 where
  spinner page : Gate
  redirect : (to : String) → (from : Option String) → Gate

unfoldable pub require_auth : String → Session → Gate
require_auth pathname s =
    if s.is_pending
    then spinner
    else if s.is_error
    then redirect "/login" (some pathname)
    else elim s.me [ none ↦ redirect "/login" (some pathname) | some user ↦ page ]

unfoldable pub public_only : Session → Gate
public_only s =
    if s.is_pending then spinner else elim s.me [ none ↦ page | some user ↦ redirect "/chat" none ]

-- whether `RequireAuth` keeps the connection alive
unfoldable pub is_enabled : Session → Bool
is_enabled s = elim s.me [ none ↦ false | some user ↦ not s.is_error ]
