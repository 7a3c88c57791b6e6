-- ===== src/Vm/Ending.antt =====
-- Stopping, destroying and copying VMs (internal/vm/manager.go: Stop, Destroy, ShutdownAll,
-- GetRunning, CloneDisks), on the state of Vm.Manager. A call runs as one step.
pub mod Shutdown
pub mod Rows
use ussycode.Base.{
  ℕ, Bool, true, false, not, ◌&&◌, ◌||◌, String, Option, none, some, List, [], ◌∷◌, ◌++◌,
  if◌then◌else◌, nat_eq, list_eq, ◌==◌, Result, ok, err, GoMap, lookup, insert, delete, Text,
  decimal, has_prefix,
}
use ussycode.Db.Models.{Db}
use ussycode.Db.Vms.{delete_where, exists_where, update_vm_status, delete_vm}
use ussycode.Vm.Network.{
  NetworkManager, NetworkConfig, NetworkError, TapOutcome, allocate_network, release_network,
}
use ussycode.Vm.Manager.{
  Manager, RunningVm, ManagerError, FileOutcome, written, nothing_written, partly_written,
  not_running, copy_rootfs, copy_data_disk, has_disk, write_disk, set_status,
}

-- Whether `RemoveVMRules` deletes a rule that names a VM, and what `ip link del` answers; an error of
-- `StopVM` is only logged.
pub record StopOutcome : Type 0 where
  pub rule_removed : Text → Bool
  pub tap_deleted : Bool

-- `RemoveVMRules` takes the rules whose line contains vm- and the id: also those of VMs whose ids
-- begin with it.
unfoldable pub release_vm : ℕ → StopOutcome → Manager → ℕ → RunningVm → Manager
release_vm now o m vm_id rv =
    let key = decimal vm_id in
    set_status now
      (record m {
        running = delete vm_id m.running;
        rules = delete_where (λ id. has_prefix id key && o.rule_removed id) m.rules;
        network = release_network o.tap_deleted m.network key rv.network_config.tap_device;
      })
      vm_id "stopped"

unfoldable pub stop : ℕ → StopOutcome → Manager → ℕ → Result ManagerError (Unit {0}) × Manager
stop now o m vm_id = elim (lookup vm_id m.running) [
  | none ↦ (err not_running, m)
  | some rv ↦ (ok tt, release_vm now o m vm_id rv)
]

-- `removed` says for the two disks whether `os.Remove` worked.
unfoldable pub destroy : ℕ → StopOutcome → Bool → Bool → Manager → ℕ → Manager
destroy now o rootfs_removed data_removed m vm_id =
    let stopped = (stop now o m vm_id).1 in
    record stopped {
      rootfs_disks =
          if rootfs_removed
          then delete_where (λ id. id == vm_id) stopped.rootfs_disks
          else stopped.rootfs_disks;
      data_disks =
          if data_removed
          then delete_where (λ id. id == vm_id) stopped.data_disks
          else stopped.data_disks;
      db = delete_vm stopped.db vm_id;
    }

unfoldable pub get_running : Manager → ℕ → Option RunningVm
get_running m vm_id = lookup vm_id m.running

unfoldable pub keys : GoMap ℕ RunningVm → List ℕ
keys [] = []
keys ((id, rv) ∷ rest) = id ∷ keys rest

unfoldable pub stop_each : ℕ → (ℕ → StopOutcome) → Manager → List ℕ → Manager
stop_each now o m [] = m
stop_each now o m (id ∷ ids) = stop_each now o (stop now (o id) m id).1 ids

unfoldable pub shutdown_all : ℕ → (ℕ → StopOutcome) → Manager → Manager
shutdown_all now o m = stop_each now o m (keys m.running)

-- `CloneDisks`: a failure on the data disk takes the copy of the root disk away again.
unfoldable pub clone_data :
    FileOutcome → Bool → Manager → ℕ → ℕ → Result ManagerError (Unit {0}) × Manager
clone_data copied removed m src dst =
    let made = record m { data_disks = write_disk copied dst m.data_disks } in
    let undone = record made {
      rootfs_disks =
          if removed then delete_where (λ id. id == dst) m.rootfs_disks else m.rootfs_disks;
    } in
    if not (has_disk src m.data_disks) then (ok tt, m) else elim copied [
      | written ↦ (ok tt, made)
      | nothing_written ↦ (err copy_data_disk, undone)
      | partly_written ↦ (err copy_data_disk, undone)
    ]

unfoldable pub clone_disks :
    FileOutcome → FileOutcome → Bool → Manager → ℕ → ℕ → Result ManagerError (Unit {0}) × Manager
clone_disks rootfs data_disk removed m src dst =
    let made = record m { rootfs_disks = write_disk rootfs dst m.rootfs_disks } in
    if not (has_disk src m.rootfs_disks)
    then clone_data data_disk removed m src dst
    else elim rootfs [
      | written ↦ clone_data data_disk removed made src dst
      | nothing_written ↦ (err copy_rootfs, made)
      | partly_written ↦ (err copy_rootfs, made)
    ]
