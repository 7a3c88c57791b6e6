-- ===== src/Vm/Ending/Shutdown.antt =====
-- Stopping and destroying VMs (internal/vm/manager.go: Stop, Destroy, ShutdownAll).
use ussycode.Base.{
  ℕ, ◌≡◌, refl, ◌∙◌, sym, ap, Bool, true, false, none, some, List, [], ◌∷◌, if◌then◌else◌, nat_eq,
  list_eq, ◌==◌, ok, err, lookup, delete, lookup-delete, delete-eq_self, arith, beq_iff, Bool-cases,
  inl, inr, Option-cases,
}
use ussycode.Db.Models.{Vm}
use ussycode.Db.Vms.{delete_where, exists_where, delete_vm}
use ussycode.Vm.Manager.{Manager, RunningVm, not_running, set_status}
use ussycode.Vm.Ending.{StopOutcome, release_vm, stop, destroy}

stop-live :
    (now : ℕ) (o : StopOutcome) (m : Manager) (vm_id : ℕ) {rv : RunningVm}
    → lookup vm_id m.running ≡ some rv
    → stop now o m vm_id ≡ (ok tt, release_vm now o m vm_id rv)
unfolding stop
stop-live now o m vm_id h = rw (h, stop) refl

stop-idle :
    (now : ℕ) (o : StopOutcome) (m : Manager) (vm_id : ℕ)
    → lookup vm_id m.running ≡ none
    → stop now o m vm_id ≡ (err not_running, m)
unfolding stop
stop-idle now o m vm_id h = rw (h, stop) refl

stop-running :
    (now : ℕ) (o : StopOutcome) (m : Manager) (vm_id : ℕ)
    → (stop now o m vm_id).1.running ≡ delete vm_id m.running
unfolding release_vm set_status
stop-running now o m vm_id = elim (Option-cases (lookup vm_id m.running)) [
  | inl idle ↦ rw (stop-idle now o m vm_id idle) (sym (delete-eq_self vm_id m.running idle))
  | inr live ↦ rw (stop-live now o m vm_id live.1) refl
]

stop-lookup :
    (now : ℕ) (o : StopOutcome) (m : Manager) (vm_id id : ℕ)
    → lookup id (stop now o m vm_id).1.running ≡ (if vm_id == id then none else lookup id m.running)
stop-lookup now o m vm_id id =
    ap (lookup id) (stop-running now o m vm_id) ∙ lookup-delete vm_id id m.running

deleted {ℓ} : {A : Type ℓ} (p : A → Bool) (xs : List A) → exists_where p (delete_where p xs) ≡ false
unfolding exists_where delete_where
deleted p [] = refl
deleted p (x ∷ xs) = elim (Bool-cases (p x)) [
  | inl gone ↦ rw gone (deleted p xs)
  | inr kept ↦ rw kept (rw kept (deleted p xs))
]

-- After Destroy the VM does not run, and the database has no row of it and no share of it; its disks
-- are gone where removing them worked.
pub destroy_lem :
    (now : ℕ) (o : StopOutcome) (rootfs_removed data_removed : Bool) (m : Manager) (vm_id : ℕ)
    → let after = destroy now o rootfs_removed data_removed m vm_id in
      (lookup vm_id after.running ≡ none)
      × (exists_where (λ v. v.id == vm_id) after.db.vms ≡ false)
      × (exists_where (λ s. s.vm_id == vm_id) after.db.shares ≡ false)
      × (rootfs_removed ≡ true → exists_where (λ id. id == vm_id) after.rootfs_disks ≡ false)
      × (data_removed ≡ true → exists_where (λ id. id == vm_id) after.data_disks ≡ false)
unfolding destroy delete_vm
destroy_lem now o rootfs_removed data_removed m vm_id =
    let stopped = (stop now o m vm_id).1 in
    (
      ground (arith, stop-lookup now o m vm_id vm_id, beq_iff vm_id vm_id),
      deleted (λ v. v.id == vm_id) stopped.db.vms,
      deleted (λ s. s.vm_id == vm_id) stopped.db.shares,
      (λ h. rw h (deleted (λ id. id == vm_id) stopped.rootfs_disks)),
      (λ h. rw h (deleted (λ id. id == vm_id) stopped.data_disks)),
    )
