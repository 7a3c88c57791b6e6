-- ===== src/Vm/Ending/Rows.antt =====
-- The rows that stopping and copying write (internal/vm/manager.go: Stop, CloneDisks).
use ussycode.Base.{
  ℕ, ◌≡◌, refl, String, Option, none, Bool, Text, lookup, nat_eq, Bool-cases, Option-cases, inl,
  inr,
}
use ussycode.Db.Models.{Db}
use ussycode.Db.Vms.{update_vm_status}
use ussycode.Vm.Manager.{
  Manager, FileOutcome, written, nothing_written, partly_written, has_disk, set_status,
}
use ussycode.Vm.Ending.{StopOutcome, stop, release_vm, clone_data, clone_disks}

pub stop-keeps :
    (P : Db → Type 0) (vm_id : ℕ)
    → ((now : ℕ) (db : Db) (status : String) (tap ip mac : Option Text) (pid : Option ℕ)
        → P db
        → P (update_vm_status now db vm_id status tap ip mac pid))
    → (now : ℕ) (o : StopOutcome) (m : Manager) → P m.db
    → P (stop now o m vm_id).1.db
unfolding stop release_vm set_status
stop-keeps P vm_id closed now o m h = elim (Option-cases (lookup vm_id m.running)) [
  | inl missing ↦ rw (missing, stop) h
  | inr found ↦ rw (found.1, stop) (closed now m.db "stopped" none none none none h)
]

clone_data-db :
    (copied : FileOutcome) (removed : Bool) (m : Manager) (src dst : ℕ)
    → (clone_data copied removed m src dst).1.db ≡ m.db
unfolding clone_data
clone_data-db written removed m src dst = elim (Bool-cases (has_disk src m.data_disks)) [
  | inr missing ↦ rw (missing, clone_data) refl
  | inl there ↦ rw (there, clone_data) refl
]
clone_data-db nothing_written removed m src dst = elim (Bool-cases (has_disk src m.data_disks)) [
  | inr missing ↦ rw (missing, clone_data) refl
  | inl there ↦ rw (there, clone_data) refl
]
clone_data-db partly_written removed m src dst = elim (Bool-cases (has_disk src m.data_disks)) [
  | inr missing ↦ rw (missing, clone_data) refl
  | inl there ↦ rw (there, clone_data) refl
]

pub clone_disks-db :
    (rootfs data_disk : FileOutcome) (removed : Bool) (m : Manager) (src dst : ℕ)
    → (clone_disks rootfs data_disk removed m src dst).1.db ≡ m.db
unfolding clone_disks
clone_disks-db written data_disk removed m src dst =
    elim (Bool-cases (has_disk src m.rootfs_disks)) [
      | inr missing ↦ rw (missing, clone_disks) (clone_data-db data_disk removed m src dst)
      | inl there ↦ rw (there, clone_disks) (clone_data-db data_disk removed _ src dst)
    ]
clone_disks-db nothing_written data_disk removed m src dst =
    elim (Bool-cases (has_disk src m.rootfs_disks)) [
      | inr missing ↦ rw (missing, clone_disks) (clone_data-db data_disk removed m src dst)
      | inl there ↦ rw (there, clone_disks) refl
    ]
clone_disks-db partly_written data_disk removed m src dst =
    elim (Bool-cases (has_disk src m.rootfs_disks)) [
      | inr missing ↦ rw (missing, clone_disks) (clone_data-db data_disk removed m src dst)
      | inl there ↦ rw (there, clone_disks) refl
    ]
