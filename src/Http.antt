-- ===== src/Http.antt =====
-- frontend/src/api/client.ts: requests to the server and what becomes of them. `fetch` and zod are not
-- the program's: `fetch` is a parameter that answers a request, and a schema a function that reads a
-- value of JSON (of the parameter `Json`) or refuses it.
pub mod Endpoints
pub mod Servers
pub mod Outcomes
pub mod Loading
pub mod Tests
use Prim.Native.String.{◌++◌ as join_text}
use bu3li_comms.Prelude.{
  ℕ, leb, eqb, String, Bool, true, false, not, ◌==◌, if◌then◌else◌, Option, none, some, List, [],
  ◌∷◌,
}

-- A binary object or a file; `handle` stands for its bytes.
pub record Blob : Type 0 where
  pub handle : ℕ
  pub mime_type : String
  pub size : ℕ

pub data HttpMethod : Type 0 where
  get post patch delete : HttpMethod

-- A field of a JSON object that is sent.
pub data Field : Type 0 where
  text : String → Field
  texts : List String → Field
  flag : Bool → Field
  number : ℕ → Field

pub data Body : Type 0 where
  empty : Body
  json : List (String × Field) → Body
  binary : Blob → Body

pub record RequestInit : Type 0 where
  pub method : HttpMethod
  pub content_type : Option String
  pub body : Body

-- The browser's answer. `text` and `json` are what reading its body gives, `none` if that is refused.
pub record Response (Json : Type 0) : Type 0 where
  pub is_ok : Bool
  pub status : ℕ
  pub status_text : String
  pub text : Option String
  pub json : Option Json

pub data Fetched (Json : Type 0) : Type 0 where
  unreachable : Fetched Json
  answered : Response Json → Fetched Json

-- The errors that a call may throw: `unreadable` is that of `response.json()` or of `schema.parse`.
pub data Failure : Type 0 where
  api_error : (status : ℕ) → (message : String) → Failure
  network_error unreadable : Failure

pub data Outcome (A : Type 0) : Type 0 where
  done : A → Outcome A
  failed : Failure → Outcome A

abbrev pub network_message : String
network_message = "Could not reach the server. Check your connection."

-- `error instanceof ApiError`, and its getters
unfoldable pub has_status : ℕ → Failure → Bool
has_status n (api_error status message) = eqb status n
has_status n network_error = false
has_status n unreadable = false

unfoldable pub is_unauthorized : Failure → Bool
unfolding has_status
is_unauthorized = has_status 401

unfoldable pub is_forbidden : Failure → Bool
unfolding has_status
is_forbidden = has_status 403

unfoldable pub is_conflict : Failure → Bool
unfolding has_status
is_conflict = has_status 409

unfoldable pub is_rate_limited : Failure → Bool
unfolding has_status
is_rate_limited = has_status 429

unfoldable pub is_server_error : Failure → Bool
is_server_error (api_error status message) = leb 500 status
is_server_error network_error = false
is_server_error unreadable = false

-- an empty text is falsy
abbrev pub text_or : Option String → String → String
text_or none other = other
text_or (some s) other = if s == "" then other else s

unfoldable pub json_init : HttpMethod → Option (List (String × Field)) → RequestInit
json_init method none = record { method = method; content_type = none; body = empty }
json_init method (some fields) = record {
  method = method;
  content_type = some "application/json";
  body = json fields;
}

-- a template text
abbrev pub concat : List String → String
concat [] = ""
concat (s ∷ ss) = join_text s (concat ss)

module _ {Json : Type 0} where
  unfoldable pub read_json : {A : Type 0} → (Json → Option A) → Response Json → Outcome A
  read_json schema r = elim r.json [
    | none ↦ failed unreadable
    | some value ↦ elim (schema value) [ none ↦ failed unreadable | some a ↦ done a ]
  ]

abbrev pub then_read : {A B : Type 0} → Outcome A → (A → Outcome B) → Outcome B
then_read (done a) f = f a
then_read (failed failure) f = failed failure

module _ {Json : Type 0} (api_url : String) (fetch : String → RequestInit → Fetched Json) where
  unfoldable pub request : String → RequestInit → Outcome (Response Json)
  request path init = elim (fetch (join_text api_url path) init) [
    | unreachable ↦ failed network_error
    | answered r ↦
        if r.is_ok then done r else failed (api_error r.status (text_or r.text r.status_text))
  ]

  unfoldable pub api_fetch :
      {A : Type 0}
      → String
      → (Json → Option A)
      → HttpMethod
      → Option (List (String × Field))
      → Outcome A
  unfolding json_init read_json
  api_fetch path schema method body =
      then_read (request path (json_init method body)) (read_json schema)

  unfoldable pub api_fetch_void :
      String → HttpMethod → Option (List (String × Field)) → Outcome (Unit {0})
  unfolding json_init
  api_fetch_void path method body = then_read (request path (json_init method body)) (λ r. done tt)

  unfoldable pub api_upload : {A : Type 0} → String → (Json → Option A) → Blob → String → Outcome A
  unfolding read_json
  api_upload path schema body content_type =
      then_read
        (request path
          (record { method = post; content_type = some content_type; body = binary body }))
        (read_json schema)
