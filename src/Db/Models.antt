-- ===== src/Db/Models.antt =====
-- The rows (internal/db/models.go, migrations/001_initial.sql, 004_api_tokens.sql,
-- 005_magic_tokens.sql, 008_user_quotas.sql and 009_custom_domains.sql), the trust levels, and the
-- state of the database. `Text` is Go's string as its bytes, where the program takes one apart or
-- compares it with a part of one.
use ussycode.Base.{
  ℕ, ◌*◌, ◌/◌, Bool, ◌||◌, String, Option, none, some, List, ltb, if◌then◌else◌, string_eq, ◌==◌,
}
pub use ussycode.Base.{Text}

pub record User : Type 0 where
  pub id : ℕ
  pub handle : String
  pub email : String
  pub trust_level : String

-- A NULL column is `none`.
pub record Vm : Type 0 where
  pub id : ℕ
  pub user_id : ℕ
  pub name : Text
  pub status : String
  pub image : Text
  pub vcpu : ℕ
  pub memory_mb : ℕ
  pub disk_gb : ℕ
  pub tap_device : Option Text
  pub ip_address : Option Text
  pub mac_address : Option Text
  pub pid : Option ℕ
  pub created_at : ℕ
  pub updated_at : ℕ

pub record Share : Type 0 where
  pub id : ℕ
  pub vm_id : ℕ
  pub shared_with : Option ℕ
  pub link_token : Option Text
  pub is_public : Bool
  pub created_at : ℕ

pub record Token : Type 0 where
  pub id : ℕ
  pub user_id : ℕ
  pub handle : Text
  pub token_data : Text
  pub expires_at : ℕ
  pub created_at : ℕ

pub record MagicToken : Type 0 where
  pub token : Text
  pub user_id : ℕ
  pub expires_at : ℕ
  pub used : Bool

pub record SshKey : Type 0 where
  pub id : ℕ
  pub user_id : ℕ
  pub public_key : Text
  pub fingerprint : String
  pub comment : Text
  pub created_at : ℕ

-- A token of the API; `token_id` is its key.
pub record ApiToken : Type 0 where
  pub token_id : Text
  pub user_id : ℕ
  pub full_token : Text
  pub description : Text
  pub created_at : ℕ
  pub last_used_at : Option ℕ
  pub revoked : Bool

-- `id` is left out, which nothing reads.
pub record CustomDomain : Type 0 where
  pub vm_id : ℕ
  pub domain : Text
  pub verified : Bool
  pub verification_token : Option Text
  pub created_at : ℕ
  pub verified_at : Option ℕ

-- The tables, and the ids that AUTOINCREMENT gives next.
pub record Db : Type 0 where
  pub users : List User
  pub vms : List Vm
  pub shares : List Share
  pub tokens : List Token
  pub magic_tokens : List MagicToken
  pub ssh_keys : List SshKey
  pub api_tokens : List ApiToken
  pub tags : List (ℕ × Text)
  pub domains : List CustomDomain
  pub next_vm_id : ℕ
  pub next_share_id : ℕ
  pub next_token_id : ℕ
  pub next_key_id : ℕ

-- What a query reports: no row, a broken constraint, or the errors that queries.go adds.
pub data DbError : Type 0 where
  no_rows constraint_failed token_already_used token_expired : DbError

abbrev pub second : ℕ
second = 1_000_000_000

-- `t.UTC().Format(time.RFC3339)`.
unfoldable pub stored : ℕ → ℕ
stored t = t / second

-- `time.Now().After(t)` for a stored time t.
unfoldable pub after : ℕ → ℕ → Bool
after now t = ltb (t * second) now

-- `Token.IsExpired`; the zero time, year 1, is none that a stored number of seconds stands for.
unfoldable pub is_expired : ℕ → Token → Bool
unfolding after
is_expired now t = after now t.expires_at

-- `-1`, which stands for no limit, is `none`.
pub record TrustLimits : Type 0 where
  pub level : String
  pub vm_limit : Option ℕ
  pub cpu_limit : Option ℕ
  pub ram_limit : Option ℕ
  pub disk_limit : Option ℕ

unfoldable pub is_valid_trust_level : String → Bool
is_valid_trust_level level =
    level == "newbie" || level == "citizen" || level == "operator" || level == "admin"

abbrev pub newbie_limits : TrustLimits
newbie_limits = record {
  level = "newbie";
  vm_limit = some 3;
  cpu_limit = some 1;
  ram_limit = some 2048;
  disk_limit = some 5120;
}

unfoldable pub get_trust_limits : String → TrustLimits
get_trust_limits level =
    if level == "newbie"
    then newbie_limits
    else if level == "citizen"
    then record {
      level = "citizen";
      vm_limit = some 10;
      cpu_limit = some 4;
      ram_limit = some 8192;
      disk_limit = some 25600;
    }
    else if level == "operator"
    then record {
      level = "operator";
      vm_limit = some 25;
      cpu_limit = some 8;
      ram_limit = some 16384;
      disk_limit = some 102400;
    }
    else if level == "admin"
    then record {
      level = "admin";
      vm_limit = none;
      cpu_limit = none;
      ram_limit = none;
      disk_limit = none;
    }
    else newbie_limits
