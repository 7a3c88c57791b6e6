-- ===== src/Shell/Lifecycle.antt =====
-- The commands of the shell on the VMs that a user has (internal/ssh/commands.go: cmdStop, cmdRestart,
-- cmdStart, cmdCp, cmdRm, cmdTag, cmdRename), with the VM manager present. What they print is left
-- out.
pub mod Running
pub mod Changing
pub mod Isolation
pub mod Stranded
use ussycode.Base.{
  ℕ, Bool, true, false, not, ◌&&◌, ◌||◌, String, Option, none, some, List, [], ◌∷◌, ◌++◌,
  if◌then◌else◌, nat_eq, list_eq, string_eq, ◌==◌, Result, ok, err, Text, bytes, is_empty,
}
use ussycode.Api.Words.{trim_space}
use ussycode.Db.Models.{User, Vm, Db, DbError, TrustLimits, get_trust_limits}
use ussycode.Db.Vms.{
  vm_by_user_and_name, vm_count_by_user, create_vm, update_vm_status, delete_vm, rename_vm, add_tag,
  remove_tag, tags_by_vm,
}
use ussycode.Vm.Manager.{Manager, ManagerError, Attempt, FileOutcome, start}
use ussycode.Vm.Ending.{StopOutcome, stop, destroy, clone_disks}
use ussycode.Shell.Commands.{valid_name, to_lower, over_limit}
use ussycode.Shell.Services.{
  Session, System, Answers, unpublish, publish, add_proxy_route, remove_proxy_route,
  unregister_vm_metadata, with_manager, with_db, lookup_vm,
}

pub data CommandError : Type 0 where
  usage no_vm not_stoppable already_running : CommandError
  invalid_name name_taken limit_reached unconfirmed : CommandError
  stopping starting cloning : ManagerError → CommandError
  creating tagging renaming : DbError → CommandError

abbrev pub Answered : Type 0
Answered = Result CommandError (Unit {0}) × System

-- The answer of `Stop`.
unfoldable pub after_stop : System → Result ManagerError (Unit {0}) × Manager → Answered
after_stop s (err e, m) = (err (stopping e), with_manager s m)
after_stop s (ok done, m) = (ok tt, with_manager s m)

unfoldable pub stop_found : Answers → Session → System → Text → Result DbError Vm → Answered
unfolding after_stop
stop_found a session s name (err e) = (err no_vm, s)
stop_found a session s name (ok vm) =
    let gone = unpublish a session s vm.id name in
    if not (vm.status == "running")
    then (err not_stoppable, s)
    else after_stop gone (stop a.now a.stopped gone.manager vm.id)

unfoldable pub cmd_stop : Answers → Session → System → List Text → Answered
unfolding stop_found
cmd_stop a session s [] = (err usage, s)
cmd_stop a session s (name ∷ args) = stop_found a session s name (lookup_vm session s name)

-- The answer of `Start`, and the metadata and the route of the VM that runs.
unfoldable pub after_start :
    Answers → Session → System → Vm → Text → Result ManagerError (Unit {0}) × Manager → Answered
after_start a session s vm name (err e, m) = (err (starting e), with_manager s m)
after_start a session s vm name (ok done, m) = (ok tt, publish a session (with_manager s m) vm name)

unfoldable pub start_vm : Answers → Session → System → Vm → Text → Answered
unfolding after_start
start_vm a session s vm name =
    after_start a session s vm name (start a.now a.attempt s.manager vm.id name)

unfoldable pub start_found : Answers → Session → System → Text → Result DbError Vm → Answered
unfolding start_vm
start_found a session s name (err e) = (err no_vm, s)
start_found a session s name (ok vm) =
    if vm.status == "running" then (err already_running, s) else start_vm a session s vm name

unfoldable pub cmd_start : Answers → Session → System → List Text → Answered
unfolding start_found
cmd_start a session s [] = (err usage, s)
cmd_start a session s (name ∷ args) = start_found a session s name (lookup_vm session s name)

-- The VM that was running has been stopped, or could not be.
unfoldable pub start_again :
    Answers → Session → System → Vm → Text → Result ManagerError (Unit {0}) × Manager → Answered
unfolding start_vm
start_again a session s vm name (err e, m) = (err (stopping e), with_manager s m)
start_again a session s vm name (ok done, m) = start_vm a session (with_manager s m) vm name

unfoldable pub restart_found : Answers → Session → System → Text → Result DbError Vm → Answered
unfolding start_again start_vm
restart_found a session s name (err e) = (err no_vm, s)
restart_found a session s name (ok vm) =
    let gone = unpublish a session s vm.id name in
    if vm.status == "running"
    then start_again a session gone vm name (stop a.now a.stopped gone.manager vm.id)
    else start_vm a session gone vm name

unfoldable pub cmd_restart : Answers → Session → System → List Text → Answered
unfolding restart_found
cmd_restart a session s [] = (err usage, s)
cmd_restart a session s (name ∷ args) = restart_found a session s name (lookup_vm session s name)

-- The loop over the tags of the source; its errors are dropped.
unfoldable pub add_tags : Db → ℕ → List Text → Db
add_tags db vm_id [] = db
add_tags db vm_id (tag ∷ tags) = add_tags (add_tag db vm_id tag).1 vm_id tags

-- The answer of `CloneDisks`: the new row is deleted again, or it is stopped and gets the tags.
unfoldable pub after_clone :
    Answers → System → ℕ → ℕ → Result ManagerError (Unit {0}) × Manager → Answered
unfolding add_tags
after_clone a s source_id new_id (err e, m) =
    (err (cloning e), with_db (with_manager s m) (delete_vm m.db new_id))
after_clone a s source_id new_id (ok done, m) =
    let db = update_vm_status a.now m.db new_id "stopped" none none none none in
    (ok tt, with_db (with_manager s m) (add_tags db new_id (tags_by_vm db source_id)))

unfoldable pub copy_vm : Answers → System → Vm → Result DbError Vm × Db → Answered
unfolding after_clone
copy_vm a s source (err e, db) = (err (creating e), with_db s db)
copy_vm a s source (ok vm, db) = after_clone a s source.id vm.id (
    clone_disks a.rootfs_copied a.data_copied a.copy_removed (with_db s db).manager source.id vm.id)

unfoldable pub copy_new : Answers → Session → System → Vm → Text → Result DbError Vm → Answered
unfolding copy_vm
copy_new a session s source name (ok taken) = (err name_taken, s)
copy_new a session s source name (err free) =
    let limits = get_trust_limits session.user.trust_level in
    let db = s.manager.db in
    if over_limit limits.vm_limit (vm_count_by_user db session.user.id)
    then (err limit_reached, s)
    else copy_vm a s source (
        create_vm a.now db session.user.id name source.image source.vcpu source.memory_mb
          source.disk_gb)

unfoldable pub copy_found : Answers → Session → System → Text → Result DbError Vm → Answered
unfolding copy_new
copy_found a session s name (err e) = (err no_vm, s)
copy_found a session s name (ok source) =
    if not (valid_name name)
    then (err invalid_name, s)
    else copy_new a session s source name (lookup_vm session s name)

-- The name of the copy: the argument in lower case, or a random one.
abbrev copy_name : Text → List Text → Text
copy_name random [] = random
copy_name random (name ∷ args) = if is_empty name then random else to_lower name

unfoldable pub cmd_cp : Answers → Session → System → List Text → Answered
unfolding copy_found
cmd_cp a session s [] = (err usage, s)
cmd_cp a session s (name ∷ args) =
    copy_found a session s (copy_name a.random args) (lookup_vm session s name)

-- The line that was typed confirms the deletion, or the command ends without it.
unfoldable pub rm_confirmed : Answers → Session → System → Text → Vm → Option Text → Answered
rm_confirmed a session s name vm none = (err unconfirmed, s)
rm_confirmed a session s name vm (some typed) =
    let hidden = unregister_vm_metadata session (remove_proxy_route a.route_removed s name) vm.id in
    let m = destroy a.now a.stopped a.rootfs_removed a.data_removed hidden.manager vm.id in
    if not (trim_space typed == name) then (ok tt, s) else (ok tt, with_manager hidden m)

unfoldable pub rm_found : Answers → Session → System → Text → Result DbError Vm → Answered
unfolding rm_confirmed
rm_found a session s name (err e) = (err no_vm, s)
rm_found a session s name (ok vm) = rm_confirmed a session s name vm a.typed

unfoldable pub cmd_rm : Answers → Session → System → List Text → Answered
unfolding rm_found
cmd_rm a session s [] = (err usage, s)
cmd_rm a session s (name ∷ args) = rm_found a session s name (lookup_vm session s name)

abbrev is_delete_flag : Text → Bool
is_delete_flag arg = arg == bytes "-d" || arg == bytes "--delete"

-- The loop over the arguments: whether a flag is among them, and the others.
unfoldable pub tag_flags : List Text → Bool × List Text
tag_flags [] = (false, [])
tag_flags (arg ∷ args) =
    let (remove, rest) = tag_flags args in
    if is_delete_flag arg then (true, rest) else (remove, arg ∷ rest)

-- The answer of `AddTag`.
unfoldable pub after_tag : System → Result DbError (Unit {0}) × Db → Answered
after_tag s (err e, db) = (err (tagging e), with_db s db)
after_tag s (ok done, db) = (ok tt, with_db s db)

unfoldable pub tag_found : System → Bool → Text → Result DbError Vm → Answered
unfolding after_tag
tag_found s remove tag (err e) = (err no_vm, s)
tag_found s remove tag (ok vm) =
    let db = s.manager.db in
    if remove
    then (ok tt, with_db s (remove_tag db vm.id tag))
    else after_tag s (add_tag db vm.id tag)

unfoldable pub tag_named : Session → System → Bool → List Text → Answered
unfolding tag_found
tag_named session s remove [] = (err usage, s)
tag_named session s remove (name ∷ []) = (err usage, s)
tag_named session s remove (name ∷ tag ∷ args) = tag_found s remove tag (lookup_vm session s name)

unfoldable pub cmd_tag : Session → System → List Text → Answered
unfolding tag_named
cmd_tag session s args = let (remove, rest) = tag_flags args in tag_named session s remove rest

-- The answer of `RenameVM`; the route of a VM that runs moves to the new name.
unfoldable pub after_rename :
    Answers → Session → System → Vm → Text → Text → Result DbError (Unit {0}) × Db → Answered
after_rename a session s vm old_name new_name (err e, db) = (err (renaming e), with_db s db)
after_rename a session s vm old_name new_name (ok done, db) =
    let renamed = with_db s db in
    if vm.status == "running"
    then (
      ok tt,
      add_proxy_route a.route_added session (remove_proxy_route a.route_removed renamed old_name)
          vm.id new_name,
    )
    else (ok tt, renamed)

unfoldable pub rename_free :
    Answers → Session → System → Vm → Text → Text → Result DbError Vm → Answered
unfolding after_rename
rename_free a session s vm old_name new_name (ok taken) = (err name_taken, s)
rename_free a session s vm old_name new_name (err free) =
    after_rename a session s vm old_name new_name (rename_vm a.now s.manager.db vm.id new_name)

unfoldable pub rename_found :
    Answers → Session → System → Text → Text → Result DbError Vm → Answered
unfolding rename_free
rename_found a session s old_name new_name (err e) = (err no_vm, s)
rename_found a session s old_name new_name (ok vm) =
    rename_free a session s vm old_name new_name (lookup_vm session s new_name)

unfoldable pub rename_named : Answers → Session → System → Text → Text → Answered
unfolding rename_found
rename_named a session s old_name new_name =
    if not (valid_name new_name)
    then (err invalid_name, s)
    else rename_found a session s old_name new_name (lookup_vm session s old_name)

unfoldable pub cmd_rename : Answers → Session → System → List Text → Answered
unfolding rename_named
cmd_rename a session s [] = (err usage, s)
cmd_rename a session s (old_name ∷ []) = (err usage, s)
cmd_rename a session s (old_name ∷ new_name ∷ args) =
    rename_named a session s old_name (to_lower new_name)

-- The entries of the map `commands` for these.
pub data Verb : Type 0 where
  stop_verb start_verb restart_verb cp_verb rm_verb tag_verb rename_verb : Verb

unfoldable pub run_command : Answers → Session → System → Verb → List Text → Answered
run_command a session s stop_verb args = cmd_stop a session s args
run_command a session s start_verb args = cmd_start a session s args
run_command a session s restart_verb args = cmd_restart a session s args
run_command a session s cp_verb args = cmd_cp a session s args
run_command a session s rm_verb args = cmd_rm a session s args
run_command a session s tag_verb args = cmd_tag session s args
run_command a session s rename_verb args = cmd_rename a session s args
