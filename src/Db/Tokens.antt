-- ===== src/Db/Tokens.antt =====
-- Bearer tokens and magic tokens (internal/db/queries.go: CreateToken to CleanExpiredTokens,
-- CreateMagicToken to CleanExpiredMagicTokens).
pub mod Once
pub mod Expiry
use ussycode.Base.{
  ℕ, suc, Bool, true, false, not, ◌&&◌, ◌||◌, Option, none, some, List, [], ◌∷◌, ◌++◌, ltb,
  if◌then◌else◌, nat_eq, list_eq, ◌==◌, Comparable, Result, ok, err, ◌>>=◌, length,
}
use ussycode.Db.Models.{
  Text, User, Token, MagicToken, Db, DbError, constraint_failed, no_rows, token_already_used,
  token_expired, stored, after,
}
use ussycode.Db.Vms.{
  first_where, select_where, delete_where, update_where, exists_where, row, user_by_id,
}

-- `CreateToken`: the user must exist, and the handle must be new.
unfoldable pub create_token : ℕ → Db → ℕ → Text → Text → ℕ → Result DbError (Unit {0}) × Db
create_token now db user_id handle token_data expires_at =
    let token : Token = record {
      id = db.next_token_id;
      user_id = user_id;
      handle = handle;
      token_data = token_data;
      expires_at = stored expires_at;
      created_at = stored now;
    } in
    if exists_where (λ u. u.id == user_id) db.users
      && not (exists_where (λ t. t.handle == handle) db.tokens)
    then (
      ok tt,
      record db { tokens = db.tokens ++ token ∷ []; next_token_id = suc db.next_token_id },
    )
    else (err constraint_failed, db)

unfoldable pub token_by_handle : Db → Text → Result DbError Token
token_by_handle db handle = row (first_where (λ t. t.handle == handle) db.tokens)

-- `CleanExpiredTokens`, with the number of rows that it deletes.
unfoldable pub clean_expired_tokens : ℕ → Db → ℕ × Db
clean_expired_tokens now db = (
  length (select_where (λ t. ltb t.expires_at (stored now)) db.tokens),
  record db { tokens = delete_where (λ t. ltb t.expires_at (stored now)) db.tokens },
)

-- `CreateMagicToken`: the user must exist, and the token must be new (PRIMARY KEY).
unfoldable pub create_magic_token : Db → ℕ → Text → ℕ → Result DbError (Unit {0}) × Db
create_magic_token db user_id token expires_at =
    let fresh : MagicToken = record {
      token = token;
      user_id = user_id;
      expires_at = stored expires_at;
      used = false;
    } in
    if exists_where (λ u. u.id == user_id) db.users
      && not (exists_where (λ t. t.token == token) db.magic_tokens)
    then (ok tt, record db { magic_tokens = db.magic_tokens ++ fresh ∷ [] })
    else (err constraint_failed, db)

-- The token of a magic link, read and tested.
unfoldable pub usable_magic_token : ℕ → Db → Text → Result DbError MagicToken
usable_magic_token now db token =
    row (first_where (λ t. t.token == token) db.magic_tokens) >>= (λ t.
      if t.used
      then err token_already_used
      else if after now t.expires_at
      then err token_expired
      else ok t)

abbrev pub mark_used : Text → Db → Db
mark_used token db = record db {
  magic_tokens =
      update_where (λ t. t.token == token) (λ t. record t { used = true }) db.magic_tokens;
}

-- The last read of `ValidateMagicToken`; where it fails the transaction is rolled back.
unfoldable pub user_of_magic_token : Db → Text → MagicToken → Result DbError User × Db
user_of_magic_token db token t = elim (user_by_id (mark_used token db) t.user_id) [
  | err e ↦ (err e, db)
  | ok u ↦ (ok u, mark_used token db)
]

unfoldable pub validate_magic_token : ℕ → Db → Text → Result DbError User × Db
validate_magic_token now db token = elim (usable_magic_token now db token) [
  | err e ↦ (err e, db)
  | ok t ↦ user_of_magic_token db token t
]

unfoldable pub clean_expired_magic_tokens : ℕ → Db → ℕ × Db
clean_expired_magic_tokens now db = (
  length (select_where (λ t. t.used || ltb t.expires_at (stored now)) db.magic_tokens),
  record db {
    magic_tokens = delete_where (λ t. t.used || ltb t.expires_at (stored now)) db.magic_tokens;
  },
)
