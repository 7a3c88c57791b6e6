-- ===== src/Shell/Lifecycle/Running.antt =====
-- Which rows the commands change that start and stop a VM (internal/ssh/commands.go: cmdStop, cmdStart,
-- cmdRestart).
use ussycode.Base.{
  ℕ, ◌≡◌, refl, sym, subst, String, Option, Result, ok, err, Text, nat_eq, list_eq, string_eq, ◌==◌,
  Bool-cases, inl, inr,
}
use ussycode.Db.Models.{Vm, Db}
use ussycode.Db.Vms.{update_vm_status}
use ussycode.Db.Owners.{Owns, Kept, Kept-next, update_vm_status-Kept}
use ussycode.Vm.Manager.{Manager, ManagerError}
use ussycode.Vm.Manager.Rows.{start-keeps}
use ussycode.Vm.Ending.{stop}
use ussycode.Vm.Ending.Rows.{stop-keeps}
use ussycode.Shell.Services.{Session, System, Answers, unpublish, with_manager}
use ussycode.Shell.Services.Rows.{unpublish-manager, publish-manager}
use ussycode.Shell.Lifecycle.{
  Answered, after_stop, stop_found, after_start, start_vm, start_found, start_again, restart_found,
}

-- The user's changes so far, to VMs of the user.
abbrev pub Working : ℕ → ℕ → Db → Db → Type 0
Working user_id vm_id before db = Kept user_id before db × Owns user_id vm_id db

pub status_closed :
    (user_id vm_id : ℕ) (before : Db) (now : ℕ) (db : Db) (status : String)
    (tap ip mac : Option Text) (pid : Option ℕ)
    → Working user_id vm_id before db
    → Working user_id vm_id before (update_vm_status now db vm_id status tap ip mac pid)
status_closed user_id vm_id before now db status tap ip mac pid (kept, own) =
    let step = update_vm_status-Kept user_id vm_id db kept.sound own now status tap ip mac pid in
    (Kept-next kept step, step.owns vm_id own)

after_stop-manager :
    (s : System) (r : Result ManagerError (Unit {0})) (m : Manager)
    → (after_stop s (r, m)).1.manager ≡ m
unfolding after_stop
after_stop-manager s (ok done) m = refl
after_stop-manager s (err e) m = refl

-- The command leaves the VMs of other users alone.
abbrev pub Confined : Session → Db → Answered → Type 0
Confined session before r = Kept session.user.id before r.1.manager.db

abbrev pub Ready : Session → Db → ℕ → System → Type 0
Ready session before vm_id s = Working session.user.id vm_id before s.manager.db

module _ (a : Answers) (session : Session) (before : Db) where
  after_start-manager :
      (s : System) (vm : Vm) (name : Text) (r : Result ManagerError (Unit {0})) (m : Manager)
      → (after_start a session s vm name (r, m)).1.manager ≡ m
  unfolding after_start
  after_start-manager s vm name (ok done) m = publish-manager a session (with_manager s m) vm name
  after_start-manager s vm name (err e) m = refl

  start_vm-Confined :
      (s : System) (vm : Vm) (name : Text)
      → Ready session before vm.id s
      → Confined session before (start_vm a session s vm name)
  unfolding start_vm
  start_vm-Confined s vm name h =
      let kept =
        start-keeps (Working session.user.id vm.id before) vm.id
          (status_closed session.user.id vm.id before) a.now a.attempt s.manager name h in
      subst (λ (m : Manager). Kept session.user.id before m.db)
        (sym (after_start-manager s vm name _ _)) kept.0

  stopped_Working :
      (s : System) (vm : Vm)
      → Ready session before vm.id s
      → Working session.user.id vm.id before (stop a.now a.stopped s.manager vm.id).1.db
  stopped_Working s vm h =
      stop-keeps (Working session.user.id vm.id before) vm.id
        (status_closed session.user.id vm.id before) a.now a.stopped s.manager h

  unpublished :
      (s : System) (vm : Vm) (name : Text)
      → Ready session before vm.id s
      → Ready session before vm.id (unpublish a session s vm.id name)
  unpublished s vm name h =
      subst (λ (m : Manager). Working session.user.id vm.id before m.db)
        (sym (unpublish-manager a session s vm.id name)) h

  pub stop_found-Confined :
      (s : System) (vm : Vm) (name : Text)
      → Ready session before vm.id s
      → Confined session before (stop_found a session s name (ok vm))
  unfolding stop_found
  stop_found-Confined s vm name h =
      let gone = unpublish a session s vm.id name in
      let kept = stopped_Working gone vm (unpublished s vm name h) in
      elim (Bool-cases (vm.status == "running")) [
        | inr other ↦ rw (other, stop_found) h.0
        | inl running ↦
            rw (running, stop_found)
              (subst (λ (m : Manager). Kept session.user.id before m.db)
                (sym (after_stop-manager gone _ _)) kept.0)
      ]

  pub start_found-Confined :
      (s : System) (vm : Vm) (name : Text)
      → Ready session before vm.id s
      → Confined session before (start_found a session s name (ok vm))
  unfolding start_found
  start_found-Confined s vm name h = elim (Bool-cases (vm.status == "running")) [
    | inl running ↦ rw (running, start_found) h.0
    | inr other ↦ rw (other, start_found) (start_vm-Confined s vm name h)
  ]

  start_again-Confined :
      (s : System) (vm : Vm) (name : Text) (r : Result ManagerError (Unit {0})) (m : Manager)
      → Working session.user.id vm.id before m.db
      → Confined session before (start_again a session s vm name (r, m))
  unfolding start_again
  start_again-Confined s vm name (err e) m h = h.0
  start_again-Confined s vm name (ok done) m h = start_vm-Confined (with_manager s m) vm name h

  pub restart_found-Confined :
      (s : System) (vm : Vm) (name : Text)
      → Ready session before vm.id s
      → Confined session before (restart_found a session s name (ok vm))
  unfolding restart_found
  restart_found-Confined s vm name h =
      let gone = unpublish a session s vm.id name in
      let ready = unpublished s vm name h in
      elim (Bool-cases (vm.status == "running")) [
        | inl running ↦
            rw (running, restart_found)
              (start_again-Confined gone vm name _ _ (stopped_Working gone vm ready))
        | inr other ↦ rw (other, restart_found) (start_vm-Confined gone vm name ready)
      ]
