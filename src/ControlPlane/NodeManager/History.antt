-- ===== src/ControlPlane/NodeManager/History.antt =====
-- The node manager's calls (internal/controlplane/nodemanager.go) as events of a history, and what
-- each does to the entry of one node.
use mathlib.Core.Option
use ussycode.Base.{
  ℕ, ◌≤◌, ◌≡◌, refl, Bool, String, Option, List, [], ◌∷◌, lookup, string_eq, if◌then◌else◌, ◌&&◌,
  arith, GoMap,
}
use ussycode.ControlPlane.Messages.{NodeCapabilities, Command, HeartbeatRequest}
use ussycode.ControlPlane.NodeManager.{
  NodeManager, TrackedNode, Deferred, unlock, call_on_node_dead, register_node, remove_node,
  process_heartbeat, enqueue_command, check_node, check_loop, check_timeouts, dies,
}

pub data Event (F : Type 0) : Type 0 where
  registers : ℕ → String → Option NodeCapabilities → Event F
  removes : String → Event F
  beats : ℕ → HeartbeatRequest F → Event F
  enqueues : String → Command → Event F
  checks : ℕ → Event F

module _ {F : Type 0} where
  unfoldable pub step : NodeManager F → Event F → NodeManager F
  step nm (registers now id caps) = register_node now nm id caps
  step nm (removes id) = remove_node nm id
  step nm (beats now req) = (process_heartbeat now nm req).1
  step nm (enqueues id cmd) = (enqueue_command nm id cmd).1
  step nm (checks now) = (check_timeouts now nm).0

  unfoldable pub run : NodeManager F → List (Event F) → NodeManager F
  run nm [] = nm
  run nm (e ∷ es) = run (step nm e) es

  -- The time after an event, where it was `clock` before.
  abbrev pub time_after : ℕ → Event F → ℕ
  time_after clock (registers now id caps) = now
  time_after clock (removes id) = clock
  time_after clock (beats now req) = now
  time_after clock (enqueues id cmd) = clock
  time_after clock (checks now) = now

  -- The clock never goes backwards.
  abbrev pub Monotone : ℕ → List (Event F) → Type 0
  Monotone clock [] = Unit {0}
  Monotone clock (e ∷ es) = (clock ≤ time_after clock e) × Monotone (time_after clock e) es

  unfoldable pub end_time : ℕ → List (Event F) → ℕ
  end_time clock [] = clock
  end_time clock (e ∷ es) = end_time (time_after clock e) es

  pub lookup-check_loop :
      (now : ℕ) (callback : Bool) (id : String) (nodes : GoMap String (TrackedNode F))
      (deferred : List Deferred)
      → lookup id (check_loop now callback nodes deferred).0
        ≡ Option.map (check_node now) (lookup id nodes)
  unfolding check_loop lookup
  lookup-check_loop now callback id [] deferred = refl
  lookup-check_loop now callback id ((key, node) ∷ rest) deferred = ground (
    arith,
    lookup-check_loop now callback id rest
        (if dies now node && callback then call_on_node_dead node.id ∷ deferred else deferred),
  )

  pub lookup-check_timeouts :
      (now : ℕ) (id : String) (nm : NodeManager F)
      → lookup id (check_timeouts now nm).0.nodes ≡ Option.map (check_node now) (lookup id nm.nodes)
  unfolding check_timeouts
  lookup-check_timeouts now id nm = lookup-check_loop now nm.on_node_dead id nm.nodes (unlock ∷ [])
