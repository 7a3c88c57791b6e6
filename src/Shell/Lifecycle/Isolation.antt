-- ===== src/Shell/Lifecycle/Isolation.antt =====
-- A command on VMs changes no VM of another user (internal/ssh/commands.go: cmdStop, cmdStart,
-- cmdRestart, cmdCp, cmdRm, cmdTag, cmdRename).
use ussycode.Base.{
  ℕ, ◌≡◌, ◌≢◌, refl, ◌∙◌, sym, subst, List, [], ◌∷◌, Bool, Result, ok, err, Text, Bool-cases,
  Result-cases, inl, inr,
}
use ussycode.Db.Models.{Vm, DbError}
use ussycode.Db.Vms.{vms_by_user}
use ussycode.Db.Owners.{Sound, Kept, Kept-same}
use ussycode.Db.Owners.Creation.{found-Owns}
use ussycode.Shell.Commands.{valid_name, to_lower}
use ussycode.Shell.Services.{Session, System, Answers, lookup_vm}
use ussycode.Shell.Lifecycle.{
  Answered, stop_found, cmd_stop, start_found, cmd_start, restart_found, cmd_restart, cmd_cp,
  rm_found, cmd_rm, tag_flags, tag_named, cmd_tag, rename_found, rename_named, cmd_rename, Verb,
  stop_verb, start_verb, restart_verb, cp_verb, rm_verb, tag_verb, rename_verb, run_command,
}
use ussycode.Shell.Lifecycle.Running.{
  Confined, Ready, stop_found-Confined, start_found-Confined, restart_found-Confined,
}
use ussycode.Shell.Lifecycle.Changing.{
  copy_found-Confined, rm_confirmed-Confined, tag_found-Confined, rename_found-Confined,
}

module _ (a : Answers) (session : Session) (s : System) (sound : Sound s.manager.db) where
  nothing : Kept session.user.id s.manager.db s.manager.db
  nothing = Kept-same session.user.id s.manager.db sound

  -- A VM that the user finds by its name is the user's.
  found-Ready :
      (name : Text) (vm : Vm)
      → lookup_vm session s name ≡ ok vm
      → Ready session s.manager.db vm.id s
  found-Ready name vm h = (nothing, found-Owns session.user.id s.manager.db name vm sound h)

  -- A command that takes one VM by its name.
  by_name :
      (name : Text) (f : Result DbError Vm → Answered)
      → ((e : DbError) → Confined session s.manager.db (f (err e)))
      → ((vm : Vm) → Ready session s.manager.db vm.id s → Confined session s.manager.db (f (ok vm)))
      → Confined session s.manager.db (f (lookup_vm session s name))
  by_name name f missed found = elim (Result-cases (lookup_vm session s name)) [
    | inl there ↦
        subst (λ r. Confined session s.manager.db (f r)) (sym there.1)
          (found there.0 (found-Ready name there.0 there.1))
    | inr missing ↦
        subst (λ r. Confined session s.manager.db (f r)) (sym missing.1) (missed missing.0)
  ]

  rename_named-Confined :
      (old_name new_name : Text)
      → Confined session s.manager.db (rename_named a session s old_name new_name)
  unfolding rename_named rename_found
  rename_named-Confined old_name new_name = elim (Bool-cases (valid_name new_name)) [
    | inr bad ↦ rw (bad, rename_named) nothing
    | inl valid ↦
        rw (valid, rename_named)
          (by_name old_name (rename_found a session s old_name new_name) (λ e. nothing)
            (λ vm h. rename_found-Confined a session s.manager.db s old_name new_name vm h))
  ]

  tag_named-Confined :
      (remove : Bool) (args : List Text)
      → Confined session s.manager.db (tag_named session s remove args)
  unfolding tag_named
  tag_named-Confined remove [] = nothing
  tag_named-Confined remove (name ∷ []) = nothing
  tag_named-Confined remove (name ∷ tag ∷ args) =
      tag_found-Confined a session s.manager.db s remove tag _ nothing

  run_command-Confined :
      (verb : Verb) (args : List Text)
      → Confined session s.manager.db (run_command a session s verb args)
  unfolding run_command cmd_stop stop_found cmd_start start_found cmd_restart restart_found cmd_cp
      cmd_rm rm_found cmd_tag cmd_rename
  run_command-Confined stop_verb [] = nothing
  run_command-Confined stop_verb (name ∷ args) =
      by_name name (stop_found a session s name) (λ e. nothing)
        (λ vm h. stop_found-Confined a session s.manager.db s vm name h)
  run_command-Confined start_verb [] = nothing
  run_command-Confined start_verb (name ∷ args) =
      by_name name (start_found a session s name) (λ e. nothing)
        (λ vm h. start_found-Confined a session s.manager.db s vm name h)
  run_command-Confined restart_verb [] = nothing
  run_command-Confined restart_verb (name ∷ args) =
      by_name name (restart_found a session s name) (λ e. nothing)
        (λ vm h. restart_found-Confined a session s.manager.db s vm name h)
  run_command-Confined cp_verb [] = nothing
  run_command-Confined cp_verb (name ∷ args) =
      copy_found-Confined a session s.manager.db s _ (lookup_vm session s name) nothing
  run_command-Confined rm_verb [] = nothing
  run_command-Confined rm_verb (name ∷ args) =
      by_name name (rm_found a session s name) (λ e. nothing)
        (λ vm h. rm_confirmed-Confined a session s.manager.db s name vm a.typed h)
  run_command-Confined tag_verb args = tag_named-Confined (tag_flags args).0 (tag_flags args).1
  run_command-Confined rename_verb [] = nothing
  run_command-Confined rename_verb (old_name ∷ []) = nothing
  run_command-Confined rename_verb (old_name ∷ new_name ∷ args) =
      rename_named-Confined old_name (to_lower new_name)

-- A command with the session that gives it, and what is answered to it.
pub record Request : Type 0 where
  pub session : Session
  pub answers : Answers
  pub verb : Verb
  pub args : List Text

unfoldable pub run_all : System → List Request → System
run_all s [] = s
run_all s (r ∷ requests) = run_all (run_command r.answers r.session s r.verb r.args).1 requests

-- The requests come from other users.
abbrev pub FromOthers : ℕ → List Request → Type 0
FromOthers user_id [] = Unit
FromOthers user_id (r ∷ requests) = (user_id ≢ r.session.user.id) × FromOthers user_id requests

-- Where each id of a VM belongs to one user, and ids are below the next one, this stays so over every
-- history of the commands stop, start, restart, cp, rm, tag and rename, whatever is answered to
-- them; and a history that other users make leaves each row of a user's VMs as it was.
pub run_all-Isolated :
    (user_id : ℕ) (requests : List Request) (s : System)
    → Sound s.manager.db
    → FromOthers user_id requests
    → Sound (run_all s requests).manager.db
      × (vms_by_user (run_all s requests).manager.db user_id ≡ vms_by_user s.manager.db user_id)
unfolding run_all
run_all-Isolated user_id [] s sound others = (sound, refl)
run_all-Isolated user_id (r ∷ requests) s sound (other, others) =
    let step = run_command-Confined r.answers r.session s sound r.verb r.args in
    let (still, same) =
      run_all-Isolated user_id requests (run_command r.answers r.session s r.verb r.args).1
        step.sound others in
    (still, same ∙ step.others user_id other)
