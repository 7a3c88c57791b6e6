-- ===== src/Api/Tests.antt =====
-- The API's theorems at concrete requests.
use ussycode.Base.{
  ℕ, ◌*◌, ◌≡◌, ◌≢◌, refl, true, false, Option, none, some, List, [], ◌∷◌, ◌++◌, if◌then◌else◌,
  nat_eq, string_eq, list_eq, list_beq, ◌==◌, Text, bytes, arith, lookup, insert, is_empty,
  has_prefix, trim_prefix,
}
use ussycode.Db.Models.{User, Db, second}
use ussycode.Db.Vms.{user_by_handle, first_where}
use ussycode.Db.ApiTokens.{touch_api_token}
use ussycode.Api.RateLimiter.{minute, RateLimiter, allow, retry_after}
use ussycode.Api.RateLimiter.Retry.{after_refusal, retry_after_exact}
use ussycode.Api.Words.{is_space, trim_space, fields, cut}
use ussycode.Api.Handler.{
  TokenPermissions, Codec, Request, Outcome, Server, executed, finished, panics, retry_header,
  read_command, mem_text, is_permitted, verifying, check_times, authenticate_stateless,
  authenticate, touch, run_words, run_command, respond, limit, handle_exec,
}
use ussycode.Api.Handler.Safety.{Entitled, handle_exec-Entitled}
use ussycode.Api.Handler.Total.{handle_exec-ne-panics}

abbrev limiter : RateLimiter
limiter = record { rate = 60; burst = 1; buckets = []; cleanup = 10 * minute }

abbrev asked_once : RateLimiter
asked_once = (allow 5 limiter "k").1

-- One second for a token: refused at once, and told to wait for 1000 ms.
asked_twice :
    ((allow 5 limiter "k").0 ≡ true)
    × ((allow 5 asked_once "k").0 ≡ false)
    × ((after_refusal 5 asked_once "k").0 ≡ 1000)
unfolding allow retry_after lookup insert
asked_twice = (refl, refl, refl)

retry_after_exact_example :
    ((allow 900_000_005 (after_refusal 5 asked_once "k").1 "k").0 ≡ false)
    × ((allow 1_001_000_005 (after_refusal 5 asked_once "k").1 "k").0 ≡ true)
unfolding allow retry_after lookup insert
retry_after_exact_example =
    retry_after_exact 5 900_000_005 1_001_000_005 asked_once "k" (omega arith) (omega arith) refl
      (omega arith) (omega arith)

abbrev ann : User
ann = record { id = 1; handle = "ann"; email = "ann@example.org"; trust_level = "newbie" }

abbrev database : Db
database = record {
  users = ann ∷ [];
  vms = [];
  shares = [];
  tokens = [];
  magic_tokens = [];
  ssh_keys = [];
  api_tokens = [];
  tags = [];
  domains = [];
  next_vm_id = 1;
  next_share_id = 1;
  next_token_id = 1;
  next_key_id = 1;
}

abbrev only_ls : TokenPermissions
only_ls = record { exp = 100; nbf = 1; cmds = bytes "ls" ∷ []; ctx = "ann" }

-- A key signs a text by writing its own byte behind it.
abbrev toy : Codec
toy = record {
  PublicKey = ℕ;
  Signature = Text;
  decode = λ t. some t;
  permissions = λ t. if t == bytes "ann" then some only_ls else none;
  command_of = λ t. some t;
  signature = λ t. some t;
  verify = λ key json sig. sig == json ++ key ∷ [];
  fingerprint = λ key. "k";
}

abbrev resolver : Option (ℕ → Option (List ℕ))
resolver = some (λ id. some (75 ∷ []))

abbrev executor : Option (User → Text → List Text → Outcome)
executor = some (λ u name args. finished [] 0)

abbrev server : Server
server = record { db = database; limiter = limiter }

abbrev request : Request
request = record {
  authorization = bytes "Bearer usy0.ann.annK";
  content_type = [];
  body = some (bytes " ls -l ");
}

listed :
    (handle_exec toy (50 * second) resolver executor server request).0
    ≡ executed ann (bytes "ls") (bytes "-l" ∷ []) (finished [] 0)
unfolding handle_exec authenticate authenticate_stateless cut verifying check_times user_by_handle
    first_where list_beq touch touch_api_token limit allow retry_after lookup insert respond
    run_command run_words read_command is_permitted mem_text fields trim_space is_space
    ussycode.Api.Words.space_at ussycode.Api.Words.is_space_2 ussycode.Api.Words.is_space_3
    ussycode.Api.Words.only_spaces is_empty has_prefix trim_prefix
listed = refl

handle_exec-Entitled_example :
    Entitled toy (50 * second) resolver server request ann (bytes "ls") (bytes "-l" ∷ [])
handle_exec-Entitled_example =
    handle_exec-Entitled toy (50 * second) resolver executor server request ann (bytes "ls")
      (bytes "-l" ∷ []) (finished [] 0) listed

handle_exec-ne-panics_example :
    (handle_exec toy (50 * second) resolver executor server request).0 ≢ panics
handle_exec-ne-panics_example =
    handle_exec-ne-panics toy (50 * second) resolver executor server request

header_rounds : (retry_header 500 ≡ 2) × (retry_header 499 ≡ 1) × (retry_header 1500 ≡ 2)
unfolding retry_header
header_rounds = (refl, refl, refl)
