-- ===== src/Gateway/Registry.antt =====
-- The metadata of the VMs by their addresses (internal/gateway/metadata.go: RegisterVM, UnregisterVM,
-- metadataForRequest). The lock makes a call one step.
use ussycode.Base.{
  ℕ, Option, none, some, list_eq, nat_eq, GoMap, lookup, insert, delete, Text, List,
}

pub record VmMetadata : Type 0 where
  pub instance_id : Text
  pub local_ipv4 : Text
  pub hostname : Text
  pub user_id : ℕ
  pub user_handle : Text
  pub vm_name : Text
  pub image : Text
  pub ssh_keys : List Text
  pub gateway : Text
  pub env_vars : GoMap Text Text

abbrev pub Registry : Type 0
Registry = GoMap Text VmMetadata

unfoldable pub register_vm : Registry → Text → VmMetadata → Registry
register_vm vms ip meta = insert ip meta vms

unfoldable pub unregister_vm : Registry → Text → Registry
unregister_vm vms ip = delete ip vms

-- `host` is the host of the request's remote address, `none` where it has no port.
unfoldable pub metadata_for_request : Registry → Option Text → Option VmMetadata
metadata_for_request vms none = none
metadata_for_request vms (some host) = lookup host vms
