-- ===== src/Shell/Lifecycle/Stranded.antt =====
-- A VM whose row says that it runs while the manager does not know it, as after a crash of the server
-- (internal/ssh/commands.go: cmdStop, cmdStart, cmdRestart).
use ussycode.Base.{
  ℕ, ◌≡◌, refl, ◌∙◌, ap, none, List, ◌∷◌, true, ok, err, Text, lookup, nat_eq, string_eq, ◌==◌,
  beq_iff, false, suc, sym, subst, if◌then◌else◌, is_ok, All, [], ◌⊎◌, inl, inr,
}
use ussycode.Db.Models.{Vm}
use ussycode.Vm.Manager.{Manager, not_running}
use ussycode.Vm.Ending.{StopOutcome, stop}
use ussycode.Shell.Services.{Session, System, Answers, unpublish, lookup_vm}
use ussycode.Shell.Services.Rows.{unpublish-manager}
use ussycode.Db.Vms.{vm_by_user_and_name}
use ussycode.Shell.Lifecycle.{
  Verb, start_verb, stop_verb, restart_verb, run_command, Answered, stopping, already_running,
  after_stop, stop_found, cmd_stop, start_found, cmd_start, start_again, restart_found, cmd_restart,
}

stop_untracked :
    (now : ℕ) (o : StopOutcome) (m : Manager) (vm_id : ℕ)
    → lookup vm_id m.running ≡ none
    → stop now o m vm_id ≡ (err not_running, m)
unfolding stop
stop_untracked now o m vm_id h = rw (h, stop) refl

-- The command reports that the manager cannot stop the VM, and leaves the manager as it was.
abbrev Unstoppable : System → Answered → Type 0
Unstoppable s r = (r.0 ≡ err (stopping not_running)) × (r.1.manager ≡ s.manager)

module _ (a : Answers) (session : Session) (s : System) (name : Text) (args : List Text) (vm : Vm)
    (found : lookup_vm session s name ≡ ok vm) (running : vm.status ≡ "running")
    (untracked : lookup vm.id s.manager.running ≡ none) where
  is_running : (vm.status == "running") ≡ true
  is_running = (beq_iff vm.status "running").1 running

  stopped_gone :
      stop a.now a.stopped (unpublish a session s vm.id name).manager vm.id
      ≡ (err not_running, s.manager)
  stopped_gone =
      ap (λ m. stop a.now a.stopped m vm.id) (unpublish-manager a session s vm.id name)
      ∙ stop_untracked a.now a.stopped s.manager vm.id untracked

  refused :
      (cmd_start a session s (name ∷ args) ≡ (err already_running, s))
      × (Unstoppable s (cmd_stop a session s (name ∷ args)))
      × (Unstoppable s (cmd_restart a session s (name ∷ args)))
  unfolding cmd_start start_found cmd_stop stop_found cmd_restart restart_found after_stop
      start_again
  refused = (
    rw (found, cmd_start, is_running) refl,
    rw (found, is_running, stopped_gone) (refl, refl),
    rw (found, is_running, stopped_gone) (refl, refl),
  )

-- The commands that a user may try in order to get such a VM to run, or to stop.
abbrev pub Retry : Verb → Type 0
Retry verb = (verb ≡ start_verb) ⊎ ((verb ≡ stop_verb) ⊎ (verb ≡ restart_verb))

-- Commands on one VM, one after the other: how many of them work, and the system after them.
unfoldable pub retried : Session → Text → System → List (Answers × Verb) → ℕ × System
retried session name s [] = (0, s)
retried session name s ((a, verb) ∷ tries) =
    let (answer, s') = run_command a session s verb (name ∷ []) in
    let (worked, last) = retried session name s' tries in
    (if is_ok answer then suc worked else worked, last)

-- A VM whose row says running, and which the manager does not track.
abbrev pub Stranded : Session → Text → Vm → Manager → Type 0
Stranded session name vm m =
    (vm_by_user_and_name m.db session.user.id name ≡ ok vm)
    × (vm.status ≡ "running")
    × (lookup vm.id m.running ≡ none)

-- The command fails, and the manager is as it was.
abbrev Stuck : System → Answered → Type 0
Stuck s r = (is_ok r.0 ≡ false) × (r.1.manager ≡ s.manager)

one_try :
    (session : Session) (name : Text) (vm : Vm) (s : System) (a : Answers) (verb : Verb)
    → Retry verb
    → Stranded session name vm s.manager
    → Stuck s (run_command a session s verb (name ∷ []))
unfolding run_command
one_try session name vm s a verb h (found, running, untracked) =
    let r = refused a session s name [] vm found running untracked in
    elim h [
      | inl starts ↦ rw (starts, run_command, r.0) (refl, refl)
      | inr (inl stops) ↦ rw (stops, run_command) (ap is_ok r.1.0, r.1.1)
      | inr (inr restarts) ↦ rw (restarts, run_command) (ap is_ok r.2.0, r.2.1)
    ]

-- A VM of the user whose row has status running, and which the manager does not track, stays so
-- whatever the user tries of start, stop and restart, as often as may be and whatever the programs
-- outside answer: none of the commands works, and the rows, the disks and the running VMs are as they
-- were.
pub untracked_stuck :
    (session : Session) (name : Text) (vm : Vm) (tries : List (Answers × Verb)) (s : System)
    → All (λ t. Retry t.1) tries
    → Stranded session name vm s.manager
    → ((retried session name s tries).0 ≡ 0)
      × ((retried session name s tries).1.manager ≡ s.manager)
unfolding retried
untracked_stuck session name vm [] s all h = (refl, refl)
untracked_stuck session name vm ((a, verb) ∷ tries) s all h =
    let step = one_try session name vm s a verb all.0 h in
    let rest =
      untracked_stuck session name vm tries (run_command a session s verb (name ∷ [])).1 all.1
        (subst (Stranded session name vm) (sym step.1) h) in
    (rw step.0 rest.0, rest.1 ∙ step.1)
