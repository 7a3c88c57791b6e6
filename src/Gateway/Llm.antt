-- ===== src/Gateway/Llm.antt =====
-- The LLM gateway (internal/gateway/llm.go: Proxy, SetUserKey, GetUserKey) and its two tables
-- (internal/db/queries.go). Encryption (internal/gateway/crypto.go) is a parameter; a nil encryptor
-- is `none`. Proxy runs in two steps, since requests run at once: it stores its director in the
-- provider's proxy, which the requests of all users share, and then forwards by the director that it
-- finds there. The usage is counted with the first step.
pub mod Keys
pub mod Race
use ussycode.Base.{
  ℕ, ◌+◌, ◌-◌, ◌*◌, ◌/◌, Bool, true, false, not, ◌&&◌, ◌||◌, String, Option, none, some, List, [],
  ◌∷◌, ◌++◌, ltb, if◌then◌else◌, nat_eq, list_eq, ◌==◌, Result, ok, err, GoMap, lookup, insert,
  delete, Text, bytes, drop, is_empty, has_prefix, has_suffix, trim_prefix,
}
use ussycode.Db.Vms.{first_where, update_where, exists_where, delete_where}
use ussycode.Api.RateLimiter.{minute}
use ussycode.Gateway.Limiter.{RateLimiterMap, allow}

pub record Url : Type 0 where
  pub scheme : Text
  pub host : Text
  pub path : Text

pub record Provider : Type 0 where
  pub target : Url
  pub byok : Bool

pub record LlmKey : Type 0 where
  pub user_id : ℕ
  pub provider : Text
  pub encrypted_key : Text

pub record LlmUsage : Type 0 where
  pub user_id : ℕ
  pub provider : Text
  pub request_count : ℕ
  pub estimated_tokens : ℕ
  pub period_start : ℕ

-- What the closure `Director` of a request holds.
pub record Director : Type 0 where
  pub provider : Text
  pub target : Url
  pub api_key : Text

pub record Encryptor : Type 0 where
  pub encrypt : Text → Option Text
  pub decrypt : Text → Option Text

-- `users` are the ids of the table users, which the keys and the usage refer to.
pub record Gateway : Type 0 where
  pub providers : GoMap Text Provider
  pub encryptor : Option Encryptor
  pub limiters : RateLimiterMap
  pub users : List ℕ
  pub keys : List LlmKey
  pub usage : List LlmUsage
  pub directors : GoMap Text Director

-- A request as it comes in, and as it is forwarded. A header has one value.
pub record HttpRequest : Type 0 where
  pub url : Url
  pub headers : GoMap Text Text
  pub content_length : ℕ

pub data LlmError : Type 0 where
  unknown_provider user_not_identified rate_limited no_api_key : LlmError
  not_configured not_encrypted not_stored not_decrypted : LlmError

abbrev pub is_key : ℕ → Text → LlmKey → Bool
is_key user_id provider k = k.user_id == user_id && k.provider == provider

-- `SetLLMKey`, an upsert, which the foreign key refuses for a user who is not among those stored.
unfoldable pub set_llm_key : List ℕ → List LlmKey → ℕ → Text → Text → Option (List LlmKey)
set_llm_key users keys user_id provider encrypted =
    if not (exists_where (λ id. id == user_id) users)
    then none
    else if exists_where (is_key user_id provider) keys
    then some
        (update_where (is_key user_id provider) (λ k. record k { encrypted_key = encrypted }) keys)
    else some
        (keys ++ record { user_id = user_id; provider = provider; encrypted_key = encrypted } ∷ [])

unfoldable pub get_llm_key : List LlmKey → ℕ → Text → Option LlmKey
get_llm_key keys user_id provider = first_where (is_key user_id provider) keys

unfoldable pub delete_llm_key : List LlmKey → ℕ → Text → List LlmKey
delete_llm_key keys user_id provider = delete_where (is_key user_id provider) keys

-- `now.Truncate(time.Hour)`.
abbrev pub hour : ℕ
hour = 60 * minute

unfoldable pub hour_of : ℕ → ℕ
hour_of now = now / hour * hour

abbrev is_usage : ℕ → Text → ℕ → LlmUsage → Bool
is_usage user_id provider period u =
    u.user_id == user_id && u.provider == provider && u.period_start == period

-- A user who is not stored has no usage: the foreign key fails, which is only logged.
unfoldable pub increment_llm_usage : ℕ → List ℕ → List LlmUsage → ℕ → Text → ℕ → ℕ → List LlmUsage
increment_llm_usage now users usage user_id provider requests tokens =
    let period = hour_of now in
    if not (exists_where (λ id. id == user_id) users)
    then usage
    else if exists_where (is_usage user_id provider period) usage
    then update_where (is_usage user_id provider period)
        (λ u. record u {
          request_count = u.request_count + requests;
          estimated_tokens = u.estimated_tokens + tokens;
        })
        usage
    else usage
      ++ record {
        user_id = user_id;
        provider = provider;
        request_count = requests;
        estimated_tokens = tokens;
        period_start = period;
      }
        ∷ []

unfoldable pub estimate_tokens : HttpRequest → ℕ
estimate_tokens r = if ltb 0 r.content_length then r.content_length / 4 else 100

-- `SetUserKey`.
abbrev pub store_encrypted : Gateway → ℕ → Text → Option Text → Result LlmError (Unit {0}) × Gateway
store_encrypted g user_id provider none = (err not_encrypted, g)
store_encrypted g user_id provider (some encrypted) =
    elim (set_llm_key g.users g.keys user_id provider encrypted) [
      | none ↦ (err not_stored, g)
      | some keys ↦ (ok tt, record g { keys = keys })
    ]

abbrev pub store_key :
    Gateway
    → ℕ
    → Text
    → Text
    → Option Encryptor
    → Option Provider
    → Result LlmError (Unit {0}) × Gateway
store_key g user_id provider key none p = (err not_configured, g)
store_key g user_id provider key (some e) none = (err unknown_provider, g)
store_key g user_id provider key (some e) (some p) =
    store_encrypted g user_id provider (e.encrypt key)

unfoldable pub set_user_key : Gateway → ℕ → Text → Text → Result LlmError (Unit {0}) × Gateway
set_user_key g user_id provider key =
    store_key g user_id provider key g.encryptor (lookup provider g.providers)

-- `GetUserKey`.
abbrev pub opened : Option Text → Result LlmError Text
opened none = err not_decrypted
opened (some key) = ok key

abbrev pub open_key : Option Encryptor → Option LlmKey → Result LlmError Text
open_key none k = err not_configured
open_key (some e) none = err no_api_key
open_key (some e) (some k) = opened (e.decrypt k.encrypted_key)

unfoldable pub get_user_key : Gateway → ℕ → Text → Result LlmError Text
get_user_key g user_id provider = open_key g.encryptor (get_llm_key g.keys user_id provider)

-- The last part of the first step: the usage, and the director.
unfoldable pub direct : ℕ → Gateway → ℕ → Text → Provider → HttpRequest → Text → Gateway
direct now g user_id provider p r api_key = record g {
  usage = increment_llm_usage now g.users g.usage user_id provider 1 (estimate_tokens r);
  directors =
      insert provider (record { provider = provider; target = p.target; api_key = api_key })
        g.directors;
}

abbrev pub with_key :
    ℕ
    → Gateway
    → ℕ
    → Text
    → Provider
    → HttpRequest
    → Result LlmError Text
    → Result LlmError (Unit {0}) × Gateway
with_key now g user_id provider p r (err e) = (err no_api_key, g)
with_key now g user_id provider p r (ok key) = (ok tt, direct now g user_id provider p r key)

unfoldable pub admit :
    ℕ → Gateway → ℕ → Text → HttpRequest → Provider → Result LlmError (Unit {0}) × Gateway
admit now g user_id provider r p =
    let (allowed, limiters) = allow now g.limiters user_id in
    let g' = record g { limiters = limiters } in
    if not allowed
    then (err rate_limited, g')
    else if p.byok
    then with_key now g' user_id provider p r (get_user_key g' user_id provider)
    else (ok tt, direct now g' user_id provider p r [])

abbrev identify :
    ℕ
    → Gateway
    → Text
    → HttpRequest
    → Option Provider
    → Option ℕ
    → Result LlmError (Unit {0}) × Gateway
identify now g provider r none user = (err unknown_provider, g)
identify now g provider r (some p) none = (err user_not_identified, g)
identify now g provider r (some p) (some user_id) = admit now g user_id provider r p

-- The first step of `Proxy`.
unfoldable pub begin :
    ℕ → Gateway → Option ℕ → Text → HttpRequest → Result LlmError (Unit {0}) × Gateway
begin now g user provider r = identify now g provider r (lookup provider g.providers) user

abbrev slash : Text
slash = bytes "/"

unfoldable pub single_joining_slash : Text → Text → Text
single_joining_slash a b =
    if has_suffix a slash && has_prefix b slash
    then a ++ drop 1 b
    else if not (has_suffix a slash) && not (has_prefix b slash)
    then a ++ slash ++ b
    else a ++ b

unfoldable pub inject_key : Text → Text → GoMap Text Text → GoMap Text Text
inject_key provider api_key headers =
    if is_empty api_key
    then headers
    else if provider == bytes "anthropic"
    then insert (bytes "Anthropic-Version") (bytes "2023-06-01")
        (insert (bytes "X-Api-Key") api_key headers)
    else if provider == bytes "openai" || provider == bytes "fireworks"
    then insert (bytes "Authorization") (bytes "Bearer " ++ api_key) headers
    else headers

-- What a director makes of a request.
unfoldable pub apply_director : Director → HttpRequest → HttpRequest
apply_director d r =
    let sub = trim_prefix r.url.path (bytes "/gateway/llm/" ++ d.provider) in
    let path = if is_empty sub then slash else sub in
    record r {
      url = record {
        scheme = d.target.scheme;
        host = d.target.host;
        path = single_joining_slash d.target.path path;
      };
      headers = inject_key d.provider d.api_key (delete (bytes "X-Forwarded-For") r.headers);
    }

-- The second step: what `pp.proxy.ServeHTTP` makes of the request by the director that the proxy has
-- then. ReverseProxy goes on to drop hop-by-hop headers and to add X-Forwarded-For; that is left out.
abbrev redirect : Option Director → HttpRequest → HttpRequest
redirect none r = r
redirect (some d) r = apply_director d r

unfoldable pub forward : Gateway → Text → HttpRequest → HttpRequest
forward g provider r = redirect (lookup provider g.directors) r
