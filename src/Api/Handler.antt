-- ===== src/Api/Handler.antt =====
-- The answer to POST /exec (internal/api/handler.go: handleExec, authenticate, readCommand). What
-- base64, JSON and the SSH library compute is a parameter (Codec), and so is the executor, whose
-- outcome is an argument; a nil executor or key resolver is `none`. A negative time in a token reads
-- as 0. Telemetry and logs are left out; the update of last_used_at runs with the request.
pub mod Branches
pub mod Safety
pub mod Total
use ussycode.Base.{
  ℕ, ◌+◌, ◌*◌, ◌/◌, ◌%◌, Bool, true, false, not, ◌&&◌, ◌||◌, String, Option, none, some, List, [],
  ◌∷◌, ltb, leb, if◌then◌else◌, length, nat_eq, string_eq, list_eq, ◌==◌, Result, ok, err, ◌>>=◌,
  Text, bytes, is_empty, has_prefix, trim_prefix,
}
use ussycode.Db.Models.{User, SshKey, ApiToken, Db, DbError, second}
use ussycode.Db.Vms.{user_by_handle, user_by_id}
use ussycode.Db.ApiTokens.{api_token_by_id, fingerprint_by_user, touch_api_token}
use ussycode.Api.RateLimiter.{RateLimiter, allow, retry_after}
use ussycode.Api.Words.{trim_space, fields, cut}

pub record TokenPermissions : Type 0 where
  pub exp : ℕ
  pub nbf : ℕ
  pub cmds : List Text
  pub ctx : String

-- encoding/base64, encoding/json and golang.org/x/crypto/ssh.
pub record Codec : Type 1 where
  pub PublicKey : Type 0
  pub Signature : Type 0
  pub decode : Text → Option Text
  pub permissions : Text → Option TokenPermissions
  pub command_of : Text → Option Text
  pub signature : Text → Option Signature
  pub verify : PublicKey → Text → Signature → Bool
  pub fingerprint : PublicKey → String

-- A missing header is the empty text; `body` is `none` where reading it fails.
pub record Request : Type 0 where
  pub authorization : Text
  pub content_type : Text
  pub body : Option Text

pub data AuthError : Type 0 where
  missing_header invalid_scheme unrecognized_token : AuthError
  invalid_format invalid_encoding invalid_permissions not_yet_valid expired : AuthError
  invalid_signature missing_ctx unknown_user resolver_unavailable : AuthError
  keys_not_resolved signature_failed empty_token invalid_token revoked no_user : AuthError

pub data BodyError : Type 0 where
  not_read too_large invalid_json unsupported_type : BodyError

-- How the executor ends, in time or not.
pub data Outcome : Type 0 where
  finished : Text → ℕ → Outcome
  timed_out failed : Outcome

-- The responses: 401, 429 with the Retry-After header, 503, 400, 400, 403, and what follows an
-- execution of a command with its arguments as a user; `panics` is a read past the end of a slice.
pub data Response : Type 0 where
  unauthorized : AuthError → Response
  rate_limited : ℕ → Response
  unavailable empty_command panics : Response
  bad_request : BodyError → Response
  not_permitted : Text → Response
  executed : User → Text → List Text → Outcome → Response

pub record Server : Type 0 where
  pub db : Db
  pub limiter : RateLimiter

abbrev pub Authenticated : Type 0
Authenticated = User × Option TokenPermissions × String

abbrev pub bearer : Text
bearer = bytes "Bearer "

abbrev pub stateless_prefix : Text
stateless_prefix = bytes "usy0."

abbrev pub short_prefix : Text
short_prefix = bytes "usy1."

abbrev pub dot : ℕ
dot = 46

-- `time.Now().UTC().Unix()`.
abbrev pub unix : ℕ → ℕ
unix now = now / second

abbrev pub from_option {ℓ} : {A : Type ℓ} → AuthError → Option A → Result AuthError A
from_option e none = err e
from_option e (some a) = ok a

abbrev pub from_db {ℓ} : {A : Type ℓ} → AuthError → Result DbError A → Result AuthError A
from_db e (err _) = err e
from_db e (ok a) = ok a

-- `retryAfter.Seconds()+1` by `%.0f`, which rounds half to even.
unfoldable pub retry_header : ℕ → ℕ
retry_header milliseconds =
    let whole = milliseconds / 1000 in
    let part = milliseconds % 1000 in
    if ltb 500 part || part == 500 && whole % 2 == 0 then whole + 2 else whole + 1

-- `readCommand`; an error answers 400 whatever it is.
abbrev pub trimmed : Option Text → Result BodyError Text
trimmed none = err invalid_json
trimmed (some command) = ok (trim_space command)

unfoldable pub read_body : (Text → Option Text) → Text → Option Text → Result BodyError Text
read_body command_of content_type none = err not_read
read_body command_of content_type (some body) =
    if ltb (64 * 1024) (length body)
    then err too_large
    else if has_prefix content_type (bytes "application/json")
    then trimmed (command_of body)
    else if has_prefix content_type (bytes "text/plain") || is_empty content_type
    then trimmed (some body)
    else err unsupported_type

unfoldable pub read_command : (Text → Option Text) → Request → Result BodyError Text
unfolding read_body
read_command command_of r = read_body command_of r.content_type r.body

unfoldable pub mem_text : Text → List Text → Bool
mem_text t [] = false
mem_text t (s ∷ rest) = s == t || mem_text t rest

-- The check of the token's commands; an empty list allows all.
unfoldable pub is_permitted : Option TokenPermissions → Text → Bool
is_permitted none name = true
is_permitted (some perms) name = length perms.cmds == 0 || mem_text name perms.cmds

module _ (c : Codec) where
  open c use {PublicKey, Signature, decode, permissions, command_of, signature, verify, fingerprint}

  -- The loop over the user's keys: the fingerprint of the first that verifies.
  unfoldable pub verifying : Text → Signature → List PublicKey → Option String
  verifying json sig [] = none
  verifying json sig (key ∷ keys) =
      if verify key json sig then some (fingerprint key) else verifying json sig keys

  unfoldable pub check_times : ℕ → TokenPermissions → Result AuthError TokenPermissions
  check_times now perms =
      if ltb (unix now) perms.nbf
      then err not_yet_valid
      else if ltb perms.exp (unix now)
      then err expired
      else ok perms

  unfoldable pub authenticate_stateless :
      ℕ → Option (ℕ → Option (List PublicKey)) → Db → Text → Result AuthError Authenticated
  authenticate_stateless now resolver db token = do
    let raw = trim_prefix token stateless_prefix
    parts ← from_option invalid_format (cut dot raw)
    json ← from_option invalid_encoding (decode parts.0)
    parsed ← from_option invalid_permissions (permissions json)
    perms ← check_times now parsed
    sig_bytes ← from_option invalid_encoding (decode parts.1)
    sig ← from_option invalid_signature (signature sig_bytes)
    ctx ← if perms.ctx == "" then err missing_ctx else ok perms.ctx
    user ← from_db unknown_user (user_by_handle db ctx)
    resolve ← from_option resolver_unavailable resolver
    keys ← from_option keys_not_resolved (resolve user.id)
    print ← from_option signature_failed (verifying json sig keys)
    ok (user, some perms, print)

  -- The permissions in the stored token; where they do not parse, there are none.
  unfoldable pub stored_permissions :
      ℕ → Text → Option TokenPermissions → Result AuthError (Option TokenPermissions)
  stored_permissions now full none = ok none
  stored_permissions now full (some perms) =
      if is_empty full
      then ok none
      else if ltb 0 perms.exp && ltb perms.exp (unix now)
      then err expired
      else ok (some perms)

  abbrev print_or_empty : Result DbError String → String
  print_or_empty (err e) = ""
  print_or_empty (ok print) = print

  unfoldable pub authenticate_short : ℕ → Db → Text → Result AuthError Authenticated
  authenticate_short now db token = do
    let token_id = trim_prefix token short_prefix
    id ← if is_empty token_id then err empty_token else ok token_id
    found ← from_db invalid_token (api_token_by_id db id)
    stored ← if found.revoked then err revoked else ok found
    perms ← stored_permissions now stored.full_token (permissions stored.full_token)
    user ← from_db no_user (user_by_id db stored.user_id)
    ok (user, perms, print_or_empty (fingerprint_by_user db user.id))

  unfoldable pub authenticate :
      ℕ → Option (ℕ → Option (List PublicKey)) → Db → Text → Result AuthError Authenticated
  authenticate now resolver db header =
      let token = trim_prefix header bearer in
      if is_empty header
      then err missing_header
      else if not (has_prefix header bearer)
      then err invalid_scheme
      else if has_prefix token stateless_prefix
      then authenticate_stateless now resolver db token
      else if has_prefix token short_prefix
      then authenticate_short now db token
      else err unrecognized_token

  -- The row of a short token that was accepted is stamped with the time.
  unfoldable pub touch : ℕ → Db → Text → Db
  touch now db header =
      let token = trim_prefix header bearer in
      if has_prefix token stateless_prefix
      then db
      else touch_api_token now db (trim_prefix token short_prefix)

  unfoldable pub run_words :
      Option TokenPermissions → User → (User → Text → List Text → Outcome) → List Text → Response
  run_words perms user exec [] = panics
  run_words perms user exec (name ∷ args) =
      if is_permitted perms name
      then executed user name args (exec user name args)
      else not_permitted name

  unfoldable pub run_command :
      Option TokenPermissions
      → User
      → (User → Text → List Text → Outcome)
      → Result BodyError Text
      → Response
  run_command perms user exec (err e) = bad_request e
  run_command perms user exec (ok command) =
      if is_empty command then empty_command else run_words perms user exec (fields command)

  unfoldable pub respond :
      Option TokenPermissions
      → User
      → Option (User → Text → List Text → Outcome)
      → Request
      → Response
  respond perms user none r = unavailable
  respond perms user (some exec) r = run_command perms user exec (read_command command_of r)

  -- The rate limit, for a user with a fingerprint.
  unfoldable pub limit :
      ℕ
      → Option (User → Text → List Text → Outcome)
      → Request
      → Server
      → Authenticated
      → Response × Server
  limit now exec r server (user, perms, print) =
      let (allowed, limiter) = allow now server.limiter print in
      let (wait, waiting) = retry_after now limiter print in
      if print == ""
      then (respond perms user exec r, server)
      else if allowed
      then (respond perms user exec r, record server { limiter = limiter })
      else (rate_limited (retry_header wait), record server { limiter = waiting })

  unfoldable pub handle_exec :
      ℕ
      → Option (ℕ → Option (List PublicKey))
      → Option (User → Text → List Text → Outcome)
      → Server
      → Request
      → Response × Server
  handle_exec now resolver exec server r =
      elim (authenticate now resolver server.db r.authorization) [
        | err e ↦ (unauthorized e, server)
        | ok who ↦ limit now exec r (record server { db = touch now server.db r.authorization }) who
      ]
