-- ===== src/Shell/Services.antt =====
-- What a session of the shell keeps and changes besides the database (internal/ssh/shell.go: vmSSHKeys,
-- registerVMMetadata, unregisterVMMetadata, addProxyRoute, removeProxyRoute), with the metadata server
-- and the proxy present.
pub mod Rows
use ussycode.Base.{
  ℕ, Bool, true, false, not, ◌&&◌, ◌||◌, String, Option, none, some, List, [], ◌∷◌, ◌++◌, map,
  if◌then◌else◌, nat_eq, list_eq, string_eq, ◌==◌, Result, ok, err, GoMap, lookup, insert, delete,
  Text, bytes, is_empty, decimal, leb,
}
use ussycode.Api.Words.{trim_space}
use ussycode.Db.Models.{User, Vm, SshKey, Db, DbError, TrustLimits, get_trust_limits}
use ussycode.Db.Vms.{
  vms_by_user, vm_by_user_and_name, vm_count_by_user, create_vm, update_vm_status, delete_vm,
  rename_vm, add_tag, remove_tag, tags_by_vm,
}
use ussycode.Db.ApiTokens.{ssh_keys_by_user}
use ussycode.Vm.Manager.{Manager, ManagerError, Attempt, FileOutcome, start}
use ussycode.Vm.Ending.{StopOutcome, stop, destroy, clone_disks}
use ussycode.Gateway.Registry.{VmMetadata, Registry, register_vm, unregister_vm}
use ussycode.Proxy.Routes.{CaddyOutcome, Routes, add_route, remove_route}
use ussycode.Shell.Commands.{valid_name, to_lower, over_limit}

-- `env_vars` is what `buildVMEnvVars` gives with the public domain, less the name of the VM.
pub record Session : Type 0 where
  pub user : User
  pub host_key : Text
  pub env_vars : GoMap Text Text

pub record System : Type 0 where
  pub manager : Manager
  pub metadata : Registry
  pub routes : Routes

-- What the programs, Caddy and the user's terminal answer to one command. `random` is what
-- `randomName` gives, and `typed` the line that confirms a deletion.
pub record Answers : Type 0 where
  pub now : ℕ
  pub attempt : Attempt
  pub stopped : StopOutcome
  pub rootfs_copied : FileOutcome
  pub data_copied : FileOutcome
  pub copy_removed : Bool
  pub rootfs_removed : Bool
  pub data_removed : Bool
  pub route_added : CaddyOutcome
  pub route_removed : CaddyOutcome
  pub random : Text
  pub typed : Option Text

abbrev first_ip : Bool → Option Text → Option Text → Option Text
first_ip true (some ip) rest = some ip
first_ip own ip rest = rest

-- The loop over the user's rows, for the address of one of them.
unfoldable pub address_of : ℕ → List Vm → Option Text
address_of vm_id [] = none
address_of vm_id (v ∷ vms) = first_ip (v.id == vm_id) v.ip_address (address_of vm_id vms)

unfoldable pub vm_ssh_keys : Session → Db → List Text
vm_ssh_keys session db =
    let keys = map (λ k. k.public_key) (ssh_keys_by_user db session.user.id) in
    let host = trim_space session.host_key in if is_empty host then keys else keys ++ host ∷ []

unfoldable pub vm_metadata : Session → Db → ℕ → Text → Text → Text → VmMetadata
vm_metadata session db vm_id vm_name image ip = record {
  instance_id = bytes "vm-" ++ decimal vm_id;
  local_ipv4 = ip;
  hostname = vm_name;
  user_id = session.user.id;
  user_handle = bytes session.user.handle;
  vm_name = vm_name;
  image = image;
  ssh_keys = vm_ssh_keys session db;
  gateway = bytes "10.0.0.1";
  env_vars = insert (bytes "USSYCODE_VM_NAME") vm_name session.env_vars;
}

unfoldable pub register_vm_metadata : Session → System → ℕ → Text → Text → System
register_vm_metadata session s vm_id vm_name image =
    let db = s.manager.db in
    elim (address_of vm_id (vms_by_user db session.user.id)) [
      | none ↦ s
      | some ip ↦ record s {
        metadata = register_vm s.metadata ip (vm_metadata session db vm_id vm_name image ip);
      }
    ]

unfoldable pub unregister_vm_metadata : Session → System → ℕ → System
unregister_vm_metadata session s vm_id =
    elim (address_of vm_id (vms_by_user s.manager.db session.user.id)) [
      | none ↦ s
      | some ip ↦ record s { metadata = unregister_vm s.metadata ip }
    ]

unfoldable pub add_proxy_route : CaddyOutcome → Session → System → ℕ → Text → System
add_proxy_route caddy session s vm_id vm_name =
    elim (address_of vm_id (vms_by_user s.manager.db session.user.id)) [
      | none ↦ s
      | some ip ↦ record s { routes = (add_route caddy s.routes vm_name ip).1 }
    ]

unfoldable pub remove_proxy_route : CaddyOutcome → System → Text → System
remove_proxy_route caddy s vm_name = record s { routes = (remove_route caddy s.routes vm_name).1 }

-- Metadata and route are taken away.
unfoldable pub unpublish : Answers → Session → System → ℕ → Text → System
unpublish a session s vm_id name =
    remove_proxy_route a.route_removed (unregister_vm_metadata session s vm_id) name

-- Metadata and route of a VM that has been started.
unfoldable pub publish : Answers → Session → System → Vm → Text → System
publish a session s vm name =
    add_proxy_route a.route_added session (register_vm_metadata session s vm.id name vm.image) vm.id
      name

abbrev pub with_manager : System → Manager → System
with_manager s m = record s { manager = m }

abbrev pub with_db : System → Db → System
with_db s db = record s { manager = record s.manager { db = db } }

abbrev pub lookup_vm : Session → System → Text → Result DbError Vm
lookup_vm session s name = vm_by_user_and_name s.manager.db session.user.id name
