-- ===== src/Vm/Manager.antt =====
-- The state of the VM manager and its starts (internal/vm/manager.go). What the image manager,
-- debugfs, mkfs, the network commands, nft and Firecracker answer is an argument of each operation.
-- `rules` lists the VMs that a rule of the firewall names (internal/vm/nftables.go). Faults of the
-- database are left out. A call runs as one step.
pub mod Boot
pub mod Rows
pub mod Starting
use ussycode.Base.{
  ℕ, Bool, true, false, not, ◌&&◌, ◌||◌, String, Option, none, some, List, [], ◌∷◌, ◌++◌,
  if◌then◌else◌, nat_eq, list_eq, ◌==◌, Result, ok, err, GoMap, lookup, insert, delete, Text,
  decimal,
}
use ussycode.Db.Models.{Db}
use ussycode.Db.Vms.{delete_where, exists_where, update_vm_status, delete_vm}
use ussycode.Vm.Network.{
  NetworkManager, NetworkConfig, NetworkError, TapOutcome, allocate_network, release_network,
}

pub record RunningVm : Type 0 where
  pub vm_id : ℕ
  pub name : Text
  pub pid : ℕ
  pub network_config : NetworkConfig
  pub image_config : Option String

-- The disks are kept by the ids of their VMs.
pub record Manager : Type 0 where
  pub db : Db
  pub network : NetworkManager
  pub rules : List Text
  pub rootfs_disks : List ℕ
  pub data_disks : List ℕ
  pub running : GoMap ℕ RunningVm

pub data ManagerError : Type 0 where
  ensure_rootfs copy_rootfs seed_keys create_data_disk setup_bridge add_rules start_vm :
      ManagerError
  rootfs_missing not_running copy_data_disk : ManagerError
  allocate : NetworkError → ManagerError

-- A file that is created: whole, or with an error that leaves none, or leaves a part.
pub data FileOutcome : Type 0 where
  written nothing_written partly_written : FileOutcome

-- `SetupBridge` fails before `SetupNAT`, fails in it, or works; and the two rules of `AddVMRules`.
pub data BridgeOutcome : Type 0 where
  link_failed nat_failed ready : BridgeOutcome

pub data RulesOutcome : Type 0 where
  both_added first_added none_added : RulesOutcome

-- `rootfs` is the image's configuration, `table_deleted` says whether `nft delete table` worked, whose
-- error `SetupNAT` ignores, and `booted` is the process id.
pub record Attempt : Type 0 where
  pub rootfs : Option String
  pub copied : FileOutcome
  pub keys_seeded : Bool
  pub data_disk : FileOutcome
  pub bridge : BridgeOutcome
  pub table_deleted : Bool
  pub tap : TapOutcome
  pub rules_added : RulesOutcome
  pub booted : Option ℕ
  pub tap_released : Bool

abbrev pub has_disk : ℕ → List ℕ → Bool
has_disk vm_id disks = exists_where (λ id. id == vm_id) disks

-- The file after the attempt to write it.
unfoldable pub write_disk : FileOutcome → ℕ → List ℕ → List ℕ
write_disk nothing_written vm_id disks = disks
write_disk written vm_id disks = if has_disk vm_id disks then disks else vm_id ∷ disks
write_disk partly_written vm_id disks = if has_disk vm_id disks then disks else vm_id ∷ disks

-- `UpdateVMStatus` with no runtime information.
unfoldable pub set_status : ℕ → Manager → ℕ → String → Manager
set_status now m vm_id status = record m {
  db = update_vm_status now m.db vm_id status none none none none;
}

-- The error paths.
unfoldable pub fail_with : ℕ → Manager → ℕ → ManagerError → Result ManagerError (Unit {0}) × Manager
unfolding set_status
fail_with now m vm_id e = (err e, set_status now m vm_id "error")

-- The state in which the VM runs: its row, and the map of running VMs.
unfoldable pub track : ℕ → Manager → ℕ → Text → Option String → NetworkConfig → ℕ → Manager
track now m vm_id name image_config cfg pid = record m {
  db =
      update_vm_status now m.db vm_id "running" (some cfg.tap_device) (some cfg.guest_ip)
        (some cfg.mac_address) (some pid);
  running =
      insert vm_id
        (record {
          vm_id = vm_id;
          name = name;
          pid = pid;
          network_config = cfg;
          image_config = image_config;
        })
        m.running;
}

-- The network is given back.
unfoldable pub give_back : Attempt → Manager → ℕ → NetworkConfig → Manager
give_back a m vm_id cfg = record m {
  network = release_network a.tap_released m.network (decimal vm_id) cfg.tap_device;
}

-- Step 5 of `CreateAndStart`, and the same lines of `Start`.
unfoldable pub boot :
    ℕ
    → Attempt
    → Manager
    → ℕ
    → Text
    → Option String
    → NetworkConfig
    → Result ManagerError (Unit {0}) × Manager
unfolding give_back
boot now a m vm_id name image_config cfg =
    let named = record m { rules = decimal vm_id ∷ m.rules } in
    elim a.rules_added [
      | none_added ↦ fail_with now (give_back a m vm_id cfg) vm_id add_rules
      | first_added ↦ fail_with now (give_back a named vm_id cfg) vm_id add_rules
      | both_added ↦ elim a.booted [
        | none ↦ fail_with now (give_back a named vm_id cfg) vm_id start_vm
        | some pid ↦ (ok tt, track now named vm_id name image_config cfg pid)
      ]
    ]

unfoldable pub after_allocation :
    ℕ
    → Attempt
    → Manager
    → ℕ
    → Text
    → Option String
    → Result NetworkError NetworkConfig × NetworkManager
    → Result ManagerError (Unit {0}) × Manager
after_allocation now a m vm_id name image_config (err e, network) =
    fail_with now (record m { network = network }) vm_id (allocate e)
after_allocation now a m vm_id name image_config (ok cfg, network) =
    boot now a (record m { network = network }) vm_id name image_config cfg

-- The rules that are left of the old ones.
abbrev pub left_of : Attempt → List Text → List Text
left_of a rules = if a.table_deleted then [] else rules

-- Step 4: `SetupNAT` deletes the table of rules, where it can, and then writes it anew.
unfoldable pub after_bridge :
    ℕ
    → Attempt
    → Manager
    → ℕ
    → Text
    → Option String
    → BridgeOutcome
    → Result ManagerError (Unit {0}) × Manager
unfolding after_allocation
after_bridge now a m vm_id name image_config link_failed = fail_with now m vm_id setup_bridge
after_bridge now a m vm_id name image_config nat_failed =
    fail_with now (record m { rules = left_of a m.rules }) vm_id setup_bridge
after_bridge now a m vm_id name image_config ready =
    after_allocation now a (record m { rules = left_of a m.rules }) vm_id name image_config
      (allocate_network a.tap m.network (decimal vm_id))

unfoldable pub with_network :
    ℕ → Attempt → Manager → ℕ → Text → Option String → Result ManagerError (Unit {0}) × Manager
with_network now a m vm_id name image_config = after_bridge now a m vm_id name image_config a.bridge

-- Step 3: the data disk is made only where there is none.
unfoldable pub make_data_disk :
    ℕ
    → Attempt
    → Manager
    → ℕ
    → Text
    → Option String
    → FileOutcome
    → Result ManagerError (Unit {0}) × Manager
make_data_disk now a m vm_id name image_config written =
    with_network now a (record m { data_disks = write_disk written vm_id m.data_disks }) vm_id name
      image_config
make_data_disk now a m vm_id name image_config failed =
    fail_with now (record m { data_disks = write_disk failed vm_id m.data_disks }) vm_id
      create_data_disk

unfoldable pub with_data_disk :
    ℕ → Attempt → Manager → ℕ → Text → Option String → Result ManagerError (Unit {0}) × Manager
with_data_disk now a m vm_id name image_config =
    if has_disk vm_id m.data_disks
    then with_network now a m vm_id name image_config
    else make_data_disk now a m vm_id name image_config a.data_disk

-- Step 2: the copy of the image, and the keys.
unfoldable pub copy_image :
    ℕ
    → Attempt
    → Manager
    → ℕ
    → Text
    → Option String
    → FileOutcome
    → Result ManagerError (Unit {0}) × Manager
copy_image now a m vm_id name image_config written =
    let made = record m { rootfs_disks = write_disk written vm_id m.rootfs_disks } in
    if a.keys_seeded
    then with_data_disk now a made vm_id name image_config
    else fail_with now made vm_id seed_keys
copy_image now a m vm_id name image_config failed =
    fail_with now (record m { rootfs_disks = write_disk failed vm_id m.rootfs_disks }) vm_id
      copy_rootfs

-- Step 1: the image, with its configuration.
unfoldable pub with_image :
    ℕ → Attempt → Manager → ℕ → Text → Option String → Result ManagerError (Unit {0}) × Manager
with_image now a m vm_id name none = fail_with now m vm_id ensure_rootfs
with_image now a m vm_id name (some image_config) =
    copy_image now a m vm_id name (some image_config) a.copied

unfoldable pub create_and_start :
    ℕ → Attempt → Manager → ℕ → Text → Result ManagerError (Unit {0}) × Manager
create_and_start now a m vm_id name =
    with_image now a (set_status now m vm_id "creating") vm_id name a.rootfs

unfoldable pub start : ℕ → Attempt → Manager → ℕ → Text → Result ManagerError (Unit {0}) × Manager
start now a m vm_id name =
    if not (has_disk vm_id m.rootfs_disks)
    then (err rootfs_missing, m)
    else if not a.keys_seeded
    then fail_with now m vm_id seed_keys
    else with_network now a (set_status now m vm_id "creating") vm_id name none
