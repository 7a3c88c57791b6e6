-- ===== src/Shell/Admin.antt =====
-- The command admin set-trust (internal/ssh/commands.go: cmdAdmin, cmdAdminSetTrust). What is printed is
-- left out. The session's user is the row as it was read when the session began.
use ussycode.Base.{
  not, String, Option, none, some, List, [], ◌∷◌, if◌then◌else◌, nat_eq, string_eq, list_eq, ◌==◌,
  Result, ok, err, Text, bytes,
}
use ussycode.Db.Models.{User, Db, DbError}
use ussycode.Db.Domains.{set_user_trust_level}
use ussycode.Shell.Commands.{to_lower}
use ussycode.Shell.Sharing.{user_with_handle}

pub data AdminError : Type 0 where
  permission_denied usage unknown_subcommand invalid_level no_user storing : AdminError

abbrev pub Administered : Type 0
Administered = Result AdminError (Unit {0}) × Db

-- `IsValidTrustLevel` of the argument, with the level that it is.
unfoldable pub trust_level_of : Text → Option String
trust_level_of level =
    if level == bytes "newbie"
    then some "newbie"
    else if level == bytes "citizen"
    then some "citizen"
    else if level == bytes "operator"
    then some "operator"
    else if level == bytes "admin"
    then some "admin"
    else none

unfoldable pub level_stored : Result (Unit {0}) (Unit {0}) × Db → Administered
level_stored (ok done, db) = (ok tt, db)
level_stored (err invalid, db) = (err storing, db)

unfoldable pub set_trust_found : Db → String → Result DbError User → Administered
unfolding level_stored
set_trust_found db level (err e) = (err no_user, db)
set_trust_found db level (ok target) = level_stored (set_user_trust_level db target.id level)

unfoldable pub set_trust_level : Db → Text → Option String → Administered
unfolding set_trust_found
set_trust_level db handle none = (err invalid_level, db)
set_trust_level db handle (some level) = set_trust_found db level (user_with_handle db handle)

unfoldable pub cmd_admin_set_trust : Db → List Text → Administered
unfolding set_trust_level
cmd_admin_set_trust db [] = (err usage, db)
cmd_admin_set_trust db (handle ∷ []) = (err usage, db)
cmd_admin_set_trust db (handle ∷ level ∷ args) =
    set_trust_level db handle (trust_level_of (to_lower level))

unfoldable pub admin_subcommand : Db → List Text → Administered
unfolding cmd_admin_set_trust
admin_subcommand db [] = (ok tt, db)
admin_subcommand db (subcommand ∷ args) =
    if subcommand == bytes "set-trust"
    then cmd_admin_set_trust db args
    else if subcommand == bytes "help"
    then (ok tt, db)
    else (err unknown_subcommand, db)

unfoldable pub cmd_admin : Db → User → List Text → Administered
unfolding admin_subcommand
cmd_admin db user args =
    if not (user.trust_level == "admin")
    then (err permission_denied, db)
    else admin_subcommand db args
