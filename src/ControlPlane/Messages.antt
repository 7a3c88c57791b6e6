-- ===== src/ControlPlane/Messages.antt =====
-- The messages between nodes and the control plane (internal/proto/nodev1/node.go). `F` stands for
-- Go's `float64`; byte slices are lists of numbers; the integers are stored and never computed with.
use ussycode.Base.{ℕ, Bool, String, Option, List, GoMap}

pub record NodeCapabilities : Type 0 where
  pub cpu_cores : ℕ
  pub ram_bytes : ℕ
  pub disk_bytes : ℕ
  pub kvm_available : Bool
  pub zfs_available : Bool
  pub os_version : String
  pub agent_version : String

pub record NodeStatus (F : Type 0) : Type 0 where
  pub cpu_usage : F
  pub ram_used : ℕ
  pub ram_total : ℕ
  pub disk_used : ℕ
  pub disk_total : ℕ
  pub vm_count : ℕ
  pub network_rx_bytes : ℕ
  pub network_tx_bytes : ℕ

pub data CommandType : Type 0 where
  unknown create_vm stop_vm destroy_vm drain update_config : CommandType

pub record VmCreateCommand : Type 0 where
  pub vm_id : String
  pub user_id : String
  pub base_image : String
  pub vcpu_count : ℕ
  pub mem_bytes : ℕ
  pub disk_bytes : ℕ
  pub metadata : GoMap String String

pub record VmStopCommand : Type 0 where
  pub vm_id : String

pub record VmDestroyCommand : Type 0 where
  pub vm_id : String

pub record DrainCommand : Type 0 where
  pub deadline_seconds : ℕ

pub record UpdateConfigCommand : Type 0 where
  pub config : GoMap String String

-- A nil pointer is `none`.
pub record Command : Type 0 where
  pub kind : CommandType
  pub create_vm : Option VmCreateCommand
  pub stop_vm : Option VmStopCommand
  pub destroy_vm : Option VmDestroyCommand
  pub drain : Option DrainCommand
  pub update_config : Option UpdateConfigCommand

pub record HeartbeatRequest (F : Type 0) : Type 0 where
  pub node_id : String
  pub status : Option (NodeStatus F)

pub record HeartbeatResponse : Type 0 where
  pub commands : List Command
