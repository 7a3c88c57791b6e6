-- ===== src/ControlPlane/NodeManager/Health.antt =====
-- The health of a node (internal/controlplane/nodemanager.go, CheckTimeouts) against the time
-- since its last heartbeat.
use ussycode.Base.{
  ℕ, ◌≤◌, ◌<◌, ◌-◌, ◌≡◌, refl, ◌⊎◌, inl, inr, Bool, String, some, List, [], ◌∷◌, lookup,
  insert-cases, delete-cases, string_eq, arith, Option-cases,
}
use ussycode.ControlPlane.Messages.{Command, HeartbeatRequest}
use ussycode.ControlPlane.NodeManager.{
  NodeManager, TrackedNode, NodeHealth, healthy, unknown, offline, dead, timeout_unknown,
  timeout_offline, timeout_dead, register_node, remove_node, process_heartbeat, enqueue_command,
  check_node, check_timeouts, get_node, new_node_manager,
}
use ussycode.ControlPlane.NodeManager.History.{
  Event, registers, removes, beats, enqueues, checks, step, run, time_after, Monotone, end_time,
  lookup-check_timeouts,
}

-- The documented thresholds: 30 seconds, 5 minutes, 1 hour.
abbrev pub HealthAt : ℕ → NodeHealth → Type 0
HealthAt elapsed healthy = elapsed < timeout_unknown
HealthAt elapsed unknown = (timeout_unknown ≤ elapsed) × (elapsed < timeout_offline)
HealthAt elapsed offline = (timeout_offline ≤ elapsed) × (elapsed < timeout_dead)
HealthAt elapsed dead = timeout_dead ≤ elapsed

-- A node that is not healthy has been silent for 30 seconds at least.
abbrev NodeInv : {F : Type 0} → ℕ → TrackedNode F → Type 0
NodeInv clock node =
    (node.last_seen ≤ clock)
    × ((node.health ≡ healthy) ⊎ (timeout_unknown ≤ clock - node.last_seen))

module _ {F : Type 0} where
  abbrev Inv : ℕ → NodeManager F → Type 0
  Inv clock nm =
      (id : String) (node : TrackedNode F) → lookup id nm.nodes ≡ some node → NodeInv clock node

  check_node-HealthAt :
      (now clock : ℕ) (node : TrackedNode F)
      → clock ≤ now
      → NodeInv clock node
      → HealthAt (now - (check_node now node).last_seen) (check_node now node).health
  unfolding check_node
  check_node-HealthAt now clock node le v = ground arith

  check_node-NodeInv :
      (now clock : ℕ) (node : TrackedNode F)
      → clock ≤ now
      → NodeInv clock node
      → NodeInv now (check_node now node)
  unfolding check_node
  check_node-NodeInv now clock node le v = ground arith

  heartbeat-Inv :
      (clock now : ℕ) (nm : NodeManager F) (req : HeartbeatRequest F)
      → clock ≤ now
      → Inv clock nm
      → Inv now (process_heartbeat now nm req).1
  unfolding process_heartbeat
  heartbeat-Inv clock now nm req le v id node = elim (Option-cases (lookup req.node_id nm.nodes)) [
    | inl missing ↦ rw (missing, process_heartbeat) (λ h. ground (arith, v id node))
    | inr (was, found) ↦
        rw (found, process_heartbeat)
          (λ h. elim (insert-cases req.node_id id nm.nodes h) [
            | inl (_, new) ↦ rw (← new) (omega arith, inl refl)
            | inr (_, old) ↦ ground (arith, v id node old)
          ])
  ]

  enqueue-Inv :
      (clock : ℕ) (nm : NodeManager F) (key : String) (cmd : Command)
      → Inv clock nm
      → Inv clock (enqueue_command nm key cmd).1
  unfolding enqueue_command
  enqueue-Inv clock nm key cmd v id node = elim (Option-cases (lookup key nm.nodes)) [
    | inl missing ↦ rw (missing, enqueue_command) (v id node)
    | inr (was, found) ↦
        rw (found, enqueue_command)
          (λ h. elim (insert-cases key id nm.nodes h) [
            | inl (_, new) ↦ rw (← new) (v key was found)
            | inr (_, old) ↦ v id node old
          ])
  ]

  checked_entry :
      (now : ℕ) (nm : NodeManager F) (id : String) {node : TrackedNode F}
      → lookup id (check_timeouts now nm).0.nodes ≡ some node
      → (was : TrackedNode F) × (lookup id nm.nodes ≡ some was) × (check_node now was ≡ node)
  checked_entry now nm id h = elim (Option-cases (lookup id nm.nodes)) [
    | inl missing ↦ absurd (ground (arith, lookup-check_timeouts now id nm))
    | inr (was, found) ↦ (was, found, ground (arith, lookup-check_timeouts now id nm))
  ]

  step-Inv :
      (clock : ℕ) (nm : NodeManager F) (e : Event F)
      → clock ≤ time_after clock e
      → Inv clock nm
      → Inv (time_after clock e) (step nm e)
  unfolding step register_node remove_node
  step-Inv clock nm (registers now key caps) le v id node h =
      elim (insert-cases key id nm.nodes h) [
        | inl (_, new) ↦ rw (← new) (omega arith, inl refl)
        | inr (_, old) ↦ ground (arith, v id node old)
      ]
  step-Inv clock nm (removes key) le v id node h = v id node (delete-cases key id nm.nodes h).1
  step-Inv clock nm (beats now req) le v id node h = heartbeat-Inv clock now nm req le v id node h
  step-Inv clock nm (enqueues key cmd) le v id node h = enqueue-Inv clock nm key cmd v id node h
  step-Inv clock nm (checks now) le v id node h =
      let (was, found, e) = checked_entry now nm id h in
      rw (← e) (check_node-NodeInv now clock was le (v id was found))

  run-Inv :
      (clock : ℕ) (nm : NodeManager F) (es : List (Event F))
      → Monotone clock es
      → Inv clock nm
      → Inv (end_time clock es) (run nm es)
  unfolding run end_time
  run-Inv clock nm [] m v = v
  run-Inv clock nm (e ∷ es) m v =
      run-Inv (time_after clock e) (step nm e) es m.1 (step-Inv clock nm e m.0 v)

  -- After any history whose clock never goes backwards, a timeout check leaves each node with
  -- exactly the health that the time since it was last seen stands for: healthy below 30 seconds,
  -- unknown from there, offline from 5 minutes and dead from 1 hour on.
  pub check_timeouts-HealthAt :
      (callback : Bool) (es : List (Event F)) (now : ℕ) (id : String) (node : TrackedNode F)
      → Monotone 0 es
      → end_time 0 es ≤ now
      → get_node (check_timeouts now (run (new_node_manager callback) es)).0 id ≡ some node
      → HealthAt (now - node.last_seen) node.health
  unfolding get_node new_node_manager lookup
  check_timeouts-HealthAt callback es now id node m le h =
      let nm = run (new_node_manager {F = F} callback) es in
      let start : Inv 0 (new_node_manager {F = F} callback) = λ id node h. absurd (cc) in
      let v = run-Inv 0 (new_node_manager callback) es m start in
      let (was, found, e) = checked_entry now nm id h in
      rw (← e) (check_node-HealthAt now (end_time 0 es) was le (v id was found))
