-- ===== src/Db/ApiTokens.antt =====
-- The SSH keys and the tokens of the API (internal/db/queries.go).
use ussycode.Base.{
  ℕ, suc, true, false, not, ◌&&◌, String, Option, none, some, List, [], ◌∷◌, ◌++◌, if◌then◌else◌,
  length, string_eq, nat_eq, list_eq, ◌==◌, Result, ok, err,
}
use ussycode.Db.Models.{
  Text, User, SshKey, ApiToken, Db, DbError, no_rows, constraint_failed, stored,
}
use ussycode.Db.Vms.{
  first_where, select_where, delete_where, update_where, exists_where, row, user_by_id,
}

-- `AddSSHKey`: the user must exist, and UNIQUE(fingerprint) must hold.
unfoldable pub add_ssh_key : ℕ → Db → ℕ → Text → String → Text → Result DbError SshKey × Db
add_ssh_key now db user_id public_key fingerprint comment =
    let key : SshKey = record {
      id = db.next_key_id;
      user_id = user_id;
      public_key = public_key;
      fingerprint = fingerprint;
      comment = comment;
      created_at = stored now;
    } in
    if exists_where (λ u. u.id == user_id) db.users
      && not (exists_where (λ k. k.fingerprint == fingerprint) db.ssh_keys)
    then (
      ok key,
      record db { ssh_keys = db.ssh_keys ++ key ∷ []; next_key_id = suc db.next_key_id },
    )
    else (err constraint_failed, db)

-- `UserByFingerprint`: the join of a key with the user that it refers to.
unfoldable pub owner_of : Db → Option SshKey → Result DbError User
owner_of db none = err no_rows
owner_of db (some k) = user_by_id db k.user_id

unfoldable pub user_by_fingerprint : Db → String → Result DbError User
unfolding owner_of
user_by_fingerprint db fingerprint =
    owner_of db (first_where (λ k. k.fingerprint == fingerprint) db.ssh_keys)

unfoldable pub ssh_keys_by_user : Db → ℕ → List SshKey
ssh_keys_by_user db user_id = select_where (λ k. k.user_id == user_id) db.ssh_keys

unfoldable pub delete_ssh_key : Db → ℕ → Db
delete_ssh_key db key_id = record db { ssh_keys = delete_where (λ k. k.id == key_id) db.ssh_keys }

unfoldable pub ssh_key_count_by_user : Db → ℕ → ℕ
unfolding ssh_keys_by_user
ssh_key_count_by_user db user_id = length (ssh_keys_by_user db user_id)

-- `FingerprintByUser`; the rows are in the order of their ids.
abbrev fingerprint_of : Option SshKey → Result DbError String
fingerprint_of none = err no_rows
fingerprint_of (some k) = ok k.fingerprint

unfoldable pub fingerprint_by_user : Db → ℕ → Result DbError String
fingerprint_by_user db user_id =
    fingerprint_of (first_where (λ k. k.user_id == user_id) db.ssh_keys)

-- `CreateAPIToken`: the user must exist, and the id must be new.
unfoldable pub create_api_token : ℕ → Db → Text → ℕ → Text → Text → Result DbError ApiToken × Db
create_api_token now db token_id user_id full_token description =
    let token : ApiToken = record {
      token_id = token_id;
      user_id = user_id;
      full_token = full_token;
      description = description;
      created_at = stored now;
      last_used_at = none;
      revoked = false;
    } in
    if exists_where (λ u. u.id == user_id) db.users
      && not (exists_where (λ t. t.token_id == token_id) db.api_tokens)
    then (ok token, record db { api_tokens = db.api_tokens ++ token ∷ [] })
    else (err constraint_failed, db)

unfoldable pub api_token_by_id : Db → Text → Result DbError ApiToken
api_token_by_id db token_id = row (first_where (λ t. t.token_id == token_id) db.api_tokens)

unfoldable pub revoke_api_token : Db → Text → Db
revoke_api_token db token_id = record db {
  api_tokens =
      update_where (λ t. t.token_id == token_id) (λ t. record t { revoked = true }) db.api_tokens;
}

unfoldable pub touch_api_token : ℕ → Db → Text → Db
touch_api_token now db token_id = record db {
  api_tokens =
      update_where (λ t. t.token_id == token_id)
        (λ t. record t { last_used_at = some (stored now) }) db.api_tokens;
}

unfoldable pub delete_api_token : Db → Text → Db
delete_api_token db token_id = record db {
  api_tokens = delete_where (λ t. t.token_id == token_id) db.api_tokens;
}
