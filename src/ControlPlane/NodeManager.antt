-- ===== src/ControlPlane/NodeManager.antt =====
-- The node manager (internal/controlplane/nodemanager.go). A time is a number of nanoseconds, and
-- each operation takes the time that `time.Now` gives it. The lock makes each call one step; what
-- `CheckTimeouts` defers is kept as the list of actions in the order in which Go runs them.
pub mod History
pub mod Health
pub mod Delivery
pub mod Deaths
use ussycode.Base.{
  ℕ, ◌+◌, ◌-◌, ◌*◌, Bool, true, false, not, ◌&&◌, String, Option, none, some, List, [], ◌∷◌, ◌++◌,
  map, GoMap, lookup, insert, delete, length, leb, if◌then◌else◌, Result, ok, err, string_eq, ◌==◌,
}
use ussycode.ControlPlane.Messages.{
  NodeCapabilities, NodeStatus, Command, HeartbeatRequest, HeartbeatResponse,
}

pub data NodeHealth : Type 0 where
  healthy unknown offline dead : NodeHealth

-- `NodeHealth.String`.
unfoldable pub health_string : NodeHealth → String
health_string healthy = "healthy"
health_string unknown = "unknown"
health_string offline = "offline"
health_string dead = "dead"

abbrev pub health_eq : NodeHealth → NodeHealth → Bool
health_eq healthy healthy = true
health_eq unknown unknown = true
health_eq offline offline = true
health_eq dead dead = true
health_eq _ _ = false

abbrev pub timeout_unknown : ℕ
timeout_unknown = 30_000_000_000

abbrev pub timeout_offline : ℕ
timeout_offline = 300_000_000_000

abbrev pub timeout_dead : ℕ
timeout_dead = 3_600_000_000_000

pub record TrackedNode (F : Type 0) : Type 0 where
  pub id : String
  pub health : NodeHealth
  pub capabilities : Option NodeCapabilities
  pub last_status : Option (NodeStatus F)
  pub last_seen : ℕ
  pub registered_at : ℕ
  pub pending_commands : List Command

-- `on_node_dead` says whether a callback is set.
pub record NodeManager (F : Type 0) : Type 0 where
  pub nodes : GoMap String (TrackedNode F)
  pub on_node_dead : Bool

pub data NodeError : Type 0 where
  unknown_node : String → NodeError

-- What Go runs when `CheckTimeouts` returns.
pub data Deferred : Type 0 where
  unlock : Deferred
  call_on_node_dead : String → Deferred

-- The `switch` of `CheckTimeouts`; `none` is its `default`, which leaves the node as it is. A clock
-- that has gone backwards gives an elapsed time below every threshold, as 0 does.
unfoldable pub timed_out : ℕ → Option NodeHealth
timed_out elapsed =
    if leb timeout_dead elapsed
    then some dead
    else if leb timeout_offline elapsed
    then some offline
    else if leb timeout_unknown elapsed
    then some unknown
    else none

module _ {F : Type 0} where
  -- `NewNodeManager`, with or without the option `WithOnNodeDead`.
  unfoldable pub new_node_manager : Bool → NodeManager F
  new_node_manager callback = record { nodes = []; on_node_dead = callback }

  unfoldable pub register_node :
      ℕ → NodeManager F → String → Option NodeCapabilities → NodeManager F
  register_node now nm node_id caps = record nm {
    nodes =
        insert node_id
          (record {
            id = node_id;
            health = healthy;
            capabilities = caps;
            last_status = none;
            last_seen = now;
            registered_at = now;
            pending_commands = [];
          })
          nm.nodes;
  }

  unfoldable pub remove_node : NodeManager F → String → NodeManager F
  remove_node nm node_id = record nm { nodes = delete node_id nm.nodes }

  unfoldable pub process_heartbeat :
      ℕ → NodeManager F → HeartbeatRequest F → Result NodeError HeartbeatResponse × NodeManager F
  process_heartbeat now nm req = elim (lookup req.node_id nm.nodes) [
    | none ↦ (err (unknown_node req.node_id), nm)
    | some node ↦ (
      ok (record { commands = node.pending_commands }),
      record nm {
        nodes =
            insert req.node_id
              (record node {
                health = healthy;
                last_seen = now;
                last_status = req.status;
                pending_commands = [];
              })
              nm.nodes;
      },
    )
  ]

  unfoldable pub enqueue_command :
      NodeManager F → String → Command → Result NodeError (Unit {0}) × NodeManager F
  enqueue_command nm node_id cmd = elim (lookup node_id nm.nodes) [
    | none ↦ (err (unknown_node node_id), nm)
    | some node ↦ (
      ok tt,
      record nm {
        nodes =
            insert node_id (record node { pending_commands = node.pending_commands ++ cmd ∷ [] })
              nm.nodes;
      },
    )
  ]

  unfoldable pub get_node : NodeManager F → String → Option (TrackedNode F)
  get_node nm node_id = lookup node_id nm.nodes

  unfoldable pub values : GoMap String (TrackedNode F) → List (TrackedNode F)
  values [] = []
  values ((id, node) ∷ rest) = node ∷ values rest

  unfoldable pub list_nodes : NodeManager F → List (TrackedNode F)
  unfolding values
  list_nodes nm = values nm.nodes

  unfoldable pub healthy_values : GoMap String (TrackedNode F) → List (TrackedNode F)
  healthy_values [] = []
  healthy_values ((id, node) ∷ rest) =
      if health_eq node.health healthy then node ∷ healthy_values rest else healthy_values rest

  unfoldable pub list_healthy_nodes : NodeManager F → List (TrackedNode F)
  unfolding healthy_values
  list_healthy_nodes nm = healthy_values nm.nodes

  -- The body of the loop for one node, and what it defers.
  unfoldable pub check_node : ℕ → TrackedNode F → TrackedNode F
  unfolding timed_out
  check_node now node = elim (timed_out (now - node.last_seen)) [
    | none ↦ node
    | some health ↦ record node { health = health }
  ]

  unfoldable pub dies : ℕ → TrackedNode F → Bool
  unfolding timed_out
  dies now node = elim (timed_out (now - node.last_seen)) [
    | none ↦ false
    | some health ↦ not (health_eq health node.health) && health_eq health dead
  ]

  -- The loop over the nodes. `deferred` is Go's stack of deferred calls, its top first.
  unfoldable pub check_loop :
      ℕ
      → Bool
      → GoMap String (TrackedNode F)
      → List Deferred
      → GoMap String (TrackedNode F) × List Deferred
  unfolding check_node dies
  check_loop now callback [] deferred = ([], deferred)
  check_loop now callback ((key, node) ∷ rest) deferred =
      let (rest', deferred') =
        check_loop now callback rest
          (if dies now node && callback then call_on_node_dead node.id ∷ deferred else deferred) in
      ((key, check_node now node) ∷ rest', deferred')

  -- `CheckTimeouts`: the new state, and the deferred calls in the order in which they run.
  unfoldable pub check_timeouts : ℕ → NodeManager F → NodeManager F × List Deferred
  unfolding check_loop
  check_timeouts now nm =
      let (nodes', deferred) = check_loop now nm.on_node_dead nm.nodes (unlock ∷ []) in
      (record nm { nodes = nodes' }, deferred)

  unfoldable pub node_count : NodeManager F → ℕ
  node_count nm = length nm.nodes
