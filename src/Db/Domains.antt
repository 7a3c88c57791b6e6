-- ===== src/Db/Domains.antt =====
-- The custom domains of the VMs, and the trust level of a user (internal/db/queries.go).
use ussycode.Base.{
  ℕ, true, false, not, ◌&&◌, String, none, some, [], ◌∷◌, ◌++◌, if◌then◌else◌, string_eq, nat_eq,
  list_eq, ◌==◌, Result, ok, err,
}
use ussycode.Db.Models.{
  Text, CustomDomain, Db, DbError, constraint_failed, stored, is_valid_trust_level,
}
use ussycode.Db.Vms.{first_where, delete_where, update_where, exists_where, row}

-- `CreateCustomDomain`: the VM must exist, and UNIQUE(domain) must hold.
unfoldable pub create_custom_domain : ℕ → Db → ℕ → Text → Text → Result DbError (Unit {0}) × Db
create_custom_domain now db vm_id domain token =
    let made : CustomDomain = record {
      vm_id = vm_id;
      domain = domain;
      verified = false;
      verification_token = some token;
      created_at = stored now;
      verified_at = none;
    } in
    if exists_where (λ v. v.id == vm_id) db.vms
      && not (exists_where (λ d. d.domain == domain) db.domains)
    then (ok tt, record db { domains = db.domains ++ made ∷ [] })
    else (err constraint_failed, db)

unfoldable pub get_custom_domain : Db → Text → Result DbError CustomDomain
get_custom_domain db domain = row (first_where (λ d. d.domain == domain) db.domains)

unfoldable pub verify_custom_domain : ℕ → Db → Text → Db
verify_custom_domain now db domain = record db {
  domains =
      update_where (λ d. d.domain == domain)
        (λ d. record d { verified = true; verified_at = some (stored now) }) db.domains;
}

unfoldable pub delete_custom_domain : Db → Text → Db
delete_custom_domain db domain = record db {
  domains = delete_where (λ d. d.domain == domain) db.domains;
}

-- `SetUserTrustLevel`; the columns of the quotas follow the level (`get_trust_limits`).
unfoldable pub set_user_trust_level : Db → ℕ → String → Result (Unit {0}) (Unit {0}) × Db
set_user_trust_level db user_id level = if not (is_valid_trust_level level) then (err tt, db) else (
  ok tt,
  record db {
    users = update_where (λ u. u.id == user_id) (λ u. record u { trust_level = level }) db.users;
  },
)
