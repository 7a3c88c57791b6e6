-- ===== src/Shell/Keys.antt =====
-- The commands of the shell on a user's SSH keys (internal/ssh/commands.go: cmdSSHKeyAdd,
-- cmdSSHKeyRemove). What is printed is left out.
pub mod Lockout
pub mod Overlap
use ussycode.Base.{
  ℕ, Bool, true, false, not, ◌&&◌, String, Option, none, some, List, [], ◌∷◌, if◌then◌else◌, nat_eq,
  string_eq, list_eq, ◌==◌, Result, ok, err, Text, bytes, is_empty, leb,
}
use ussycode.Db.Models.{User, SshKey, Db, DbError}
use ussycode.Db.Vms.{first_where, row, exists_where}
use ussycode.Db.ApiTokens.{add_ssh_key, ssh_keys_by_user, delete_ssh_key, ssh_key_count_by_user}
use ussycode.Db.Domains.{set_user_trust_level}
use ussycode.Api.Words.{trim_space}
use ussycode.Shell.Sharing.{user_with_handle}

pub data KeyError : Type 0 where
  usage unread no_key invalid_format already_registered invalid_id not_found last_key : KeyError
  storing : DbError → KeyError

-- What `ParseAuthorizedKey` and `FingerprintSHA256` give for a line.
pub record ParsedKey : Type 0 where
  pub fingerprint : String
  pub comment : Text

abbrev pub Keyed : Type 0
Keyed = Result KeyError (Unit {0}) × Db

unfoldable pub key_stored : Result DbError SshKey × Db → Keyed
key_stored (ok key, db) = (ok tt, db)
key_stored (err e, db) = (err (storing e), db)

unfoldable pub add_parsed : ℕ → Db → User → Text → Option ParsedKey → Keyed
unfolding key_stored
add_parsed now db user line none = (err invalid_format, db)
add_parsed now db user line (some key) =
    if exists_where (λ k. k.fingerprint == key.fingerprint) (ssh_keys_by_user db user.id)
    then (err already_registered, db)
    else key_stored (add_ssh_key now db user.id line key.fingerprint key.comment)

-- `cmdSSHKeyAdd` for the line that was read.
unfoldable pub cmd_ssh_key_add : (Text → Option ParsedKey) → ℕ → Db → User → Option Text → Keyed
unfolding add_parsed
cmd_ssh_key_add parse now db user none = (err unread, db)
cmd_ssh_key_add parse now db user (some typed) =
    let line = trim_space typed in
    if is_empty line then (err no_key, db) else add_parsed now db user line (parse line)

-- `Sscanf` of the id: no number, a negative one, or another.
pub data KeyId : Type 0 where
  unparsed negative : KeyId
  id : ℕ → KeyId

-- The list, the count and the deletion are transactions of their own: `listed`, `counted` and `db` are
-- the database as each of them finds it, and other sessions may have changed it in between.
unfoldable pub remove_found : Db → Db → Db → User → ℕ → Keyed
remove_found listed counted db user key_id =
    if not (exists_where (λ k. k.id == key_id) (ssh_keys_by_user listed user.id))
    then (err not_found, db)
    else if leb (ssh_key_count_by_user counted user.id) 1
    then (err last_key, db)
    else (ok tt, delete_ssh_key db key_id)

unfoldable pub remove_parsed : Db → Db → Db → User → KeyId → Keyed
unfolding remove_found
remove_parsed listed counted db user unparsed = (err invalid_id, db)
remove_parsed listed counted db user negative = (err not_found, db)
remove_parsed listed counted db user (id key_id) = remove_found listed counted db user key_id

unfoldable pub cmd_ssh_key_remove : (Text → KeyId) → Db → Db → Db → User → List Text → Keyed
unfolding remove_parsed
cmd_ssh_key_remove scan listed counted db user [] = (err usage, db)
cmd_ssh_key_remove scan listed counted db user (arg ∷ args) =
    remove_parsed listed counted db user (scan arg)
