-- ===== src/Shell/Sharing.antt =====
-- The commands of the shell on shares and custom domains (internal/ssh/commands.go: cmdShare and what
-- it calls). `cname-verify` and `cname-rm` also call Caddy (Proxy.Routes.add_custom_domain), whose answer
-- they only print. What is printed, and `share list`, are left out.
pub mod Rows
pub mod Steps
pub mod Isolation
use ussycode.Base.{
  ℕ, Bool, true, false, not, ◌&&◌, ◌||◌, String, Option, none, some, List, [], ◌∷◌, if◌then◌else◌,
  nat_eq, list_eq, ◌==◌, Result, ok, err, Text, bytes, is_empty,
}
use ussycode.Db.Models.{User, Vm, Share, CustomDomain, Db, DbError}
use ussycode.Db.Vms.{first_where, row, vm_by_user_and_name}
use ussycode.Db.Shares.{
  share_vm_with_user, share_vm_with_link, remove_share_by_vm_and_user, remove_share_link,
  set_vm_public,
}
use ussycode.Db.Domains.{
  create_custom_domain, get_custom_domain, verify_custom_domain, delete_custom_domain,
}
use ussycode.Api.Words.{trim_space}
use ussycode.Shell.Commands.{to_lower}
use ussycode.Shell.Texts.{normalize_share_link_token, is_valid_domain}

pub data ShareError : Type 0 where
  usage no_vm no_user own_vm invalid_token no_randomness : ShareError
  invalid_domain domain_taken already_verified no_domain other_vm no_answer : ShareError
  storing : DbError → ShareError

pub data ShareVerb : Type 0 where
  add remove add_link remove_link set_public set_private cname cname_verify cname_rm : ShareVerb

-- What `generateLinkToken` and `net.LookupTXT` answer.
pub record Outside : Type 0 where
  pub now : ℕ
  pub token : Option Text
  pub txt_records : Option (List Text)

abbrev pub Shared : Type 0
Shared = Result ShareError (Unit {0}) × Db

-- `UserByHandle`, for a handle in bytes.
unfoldable pub user_with_handle : Db → Text → Result DbError User
user_with_handle db handle = row (first_where (λ u. bytes u.handle == handle) db.users)

-- What a statement answers.
unfoldable pub answered {ℓ} : {A : Type ℓ} → Result DbError A × Db → Shared
answered (ok stored_row, db) = (ok tt, db)
answered (err e, db) = (err (storing e), db)

unfoldable pub share_add : Outside → Db → User → Vm → Result DbError User → Shared
unfolding answered
share_add o db user vm (err e) = (err no_user, db)
share_add o db user vm (ok target) =
    if target.id == user.id
    then (err own_vm, db)
    else answered (share_vm_with_user o.now db vm.id target.id)

unfoldable pub share_remove : Db → Vm → Result DbError User → Shared
share_remove db vm (err e) = (err no_user, db)
share_remove db vm (ok target) = (ok tt, remove_share_by_vm_and_user db vm.id target.id)

unfoldable pub share_add_link : Outside → Db → Vm → Option Text → Shared
unfolding answered
share_add_link o db vm none = (err no_randomness, db)
share_add_link o db vm (some token) = answered (share_vm_with_link o.now db vm.id token)

-- The domain has a row already, or gets one.
unfoldable pub cname_known :
    Outside → Db → Vm → Text → Option Text → Result DbError CustomDomain → Shared
unfolding answered
cname_known o db vm domain token (ok existing) =
    if existing.vm_id == vm.id
    then (if existing.verified then err already_verified else ok tt, db)
    else (err domain_taken, db)
cname_known o db vm domain none (err e) = (err no_randomness, db)
cname_known o db vm domain (some token) (err e) =
    answered (create_custom_domain o.now db vm.id domain token)

-- Whether a record of the DNS is the token.
unfoldable pub mem_trimmed : Text → List Text → Bool
mem_trimmed token [] = false
mem_trimmed token (txt ∷ records) = trim_space txt == token || mem_trimmed token records

-- `cd.VerificationToken.String`.
abbrev pub token_text : Option Text → Text
token_text none = []
token_text (some token) = token

-- No matching record is no error.
unfoldable pub check_dns : Outside → Db → Text → CustomDomain → Option (List Text) → Shared
unfolding mem_trimmed
check_dns o db domain d none = (err no_answer, db)
check_dns o db domain d (some records) =
    if mem_trimmed (token_text d.verification_token) records
    then (ok tt, verify_custom_domain o.now db domain)
    else (ok tt, db)

unfoldable pub verify_known : Outside → Db → Vm → Text → Result DbError CustomDomain → Shared
unfolding check_dns
verify_known o db vm domain (err e) = (err no_domain, db)
verify_known o db vm domain (ok d) =
    if not (d.vm_id == vm.id)
    then (err other_vm, db)
    else if d.verified
    then (ok tt, db)
    else check_dns o db domain d o.txt_records

unfoldable pub cname_rm_known : Db → Vm → Text → Result DbError CustomDomain → Shared
cname_rm_known db vm domain (err e) = (err no_domain, db)
cname_rm_known db vm domain (ok d) =
    if not (d.vm_id == vm.id) then (err other_vm, db) else (ok tt, delete_custom_domain db domain)

abbrev pub domain_of : Text → Text
domain_of arg = to_lower (trim_space arg)

-- A command with the VM that it names, and the other argument.
unfoldable pub share_found : Outside → Db → User → ShareVerb → Text → Vm → Shared
unfolding share_add share_remove share_add_link cname_known verify_known cname_rm_known answered
share_found o db user add arg vm = share_add o db user vm (user_with_handle db arg)
share_found o db user remove arg vm = share_remove db vm (user_with_handle db arg)
share_found o db user add_link arg vm = share_add_link o db vm o.token
share_found o db user remove_link arg vm =
    (ok tt, remove_share_link db vm.id (normalize_share_link_token arg))
share_found o db user set_public arg vm = answered (set_vm_public o.now db vm.id true)
share_found o db user set_private arg vm = answered (set_vm_public o.now db vm.id false)
share_found o db user cname arg vm =
    cname_known o db vm (domain_of arg) o.token (get_custom_domain db (domain_of arg))
share_found o db user cname_verify arg vm =
    verify_known o db vm (domain_of arg) (get_custom_domain db (domain_of arg))
share_found o db user cname_rm arg vm =
    cname_rm_known db vm (domain_of arg) (get_custom_domain db (domain_of arg))

unfoldable pub share_vm : Outside → Db → User → ShareVerb → Text → Result DbError Vm → Shared
unfolding share_found
share_vm o db user verb arg (err e) = (err no_vm, db)
share_vm o db user verb arg (ok vm) = share_found o db user verb arg vm

-- The checks of the argument that come before the VM is looked up.
abbrev pub argument_fault : ShareVerb → Text → Option ShareError
argument_fault remove_link arg =
    if is_empty (normalize_share_link_token arg) then some invalid_token else none
argument_fault cname arg = if is_valid_domain (domain_of arg) then none else some invalid_domain
argument_fault verb arg = none

-- `add-link`, `set-public` and `set-private` take the VM alone.
abbrev takes_vm_alone : ShareVerb → Bool
takes_vm_alone add_link = true
takes_vm_alone set_public = true
takes_vm_alone set_private = true
takes_vm_alone verb = false

unfoldable pub share_checked :
    Outside → Db → User → ShareVerb → Text → Text → Option ShareError → Shared
unfolding share_vm
share_checked o db user verb name arg (some fault) = (err fault, db)
share_checked o db user verb name arg none =
    share_vm o db user verb arg (vm_by_user_and_name db user.id name)

unfoldable pub cmd_share : Outside → Db → User → ShareVerb → List Text → Shared
unfolding share_checked
cmd_share o db user verb [] = (err usage, db)
cmd_share o db user verb (name ∷ []) =
    if takes_vm_alone verb then share_checked o db user verb name [] none else (err usage, db)
cmd_share o db user verb (name ∷ arg ∷ args) =
    share_checked o db user verb name arg (argument_fault verb arg)
