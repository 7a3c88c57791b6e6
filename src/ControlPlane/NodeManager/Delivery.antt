-- ===== src/ControlPlane/NodeManager/Delivery.antt =====
-- The commands queued for a node (internal/controlplane/nodemanager.go, EnqueueCommand and
-- ProcessHeartbeat): each is handed over once, in the order in which it came.
use mathlib.Core.List.{append-nil, append_assoc}
use mathlib.Core.Option
use ussycode.Base.{
  ℕ, ◌≡◌, refl, sym, ap, ◌∙◌, ◌≢◌, inl, inr, String, Option, some, List, [], ◌∷◌, ◌++◌, lookup,
  insert, lookup-insert, lookup-insert_ne, lookup-delete, subst, beq_iff, string_eq, ◌==◌, arith,
  Option-cases, Bool-cases, if◌then◌else◌, ok, err, Result,
}
use ussycode.ControlPlane.Messages.{Command, HeartbeatRequest, HeartbeatResponse}
use ussycode.ControlPlane.NodeManager.{
  NodeManager, TrackedNode, NodeError, register_node, remove_node, process_heartbeat,
  enqueue_command, check_node, check_timeouts, healthy,
}
use ussycode.ControlPlane.NodeManager.History.{
  Event, registers, removes, beats, enqueues, checks, step, run, lookup-check_timeouts,
}

-- What the node finds in a response.
abbrev response : Result NodeError HeartbeatResponse → List Command
response (ok r) = r.commands
response (err e) = []

module _ {F : Type 0} where
  -- The commands that wait for a node.
  abbrev pub pending : NodeManager F → String → Option (List Command)
  pending nm id = Option.map (λ node. node.pending_commands) (lookup id nm.nodes)

  -- The commands that an event hands over to the node `id`, and those that it queues for it.
  unfoldable pub hands_over : NodeManager F → Event F → String → List Command
  hands_over nm (beats now req) id =
      if req.node_id == id then response (process_heartbeat now nm req).0 else []
  hands_over nm _ id = []

  unfoldable pub queues : Event F → String → List Command
  queues (enqueues key cmd) id = if key == id then cmd ∷ [] else []
  queues _ id = []

  unfoldable pub handed_over : NodeManager F → List (Event F) → String → List Command
  unfolding hands_over
  handed_over nm [] id = []
  handed_over nm (e ∷ es) id = hands_over nm e id ++ handed_over (step nm e) es id

  unfoldable pub queued : List (Event F) → String → List Command
  unfolding queues
  queued [] id = []
  queued (e ∷ es) id = queues e id ++ queued es id

  -- The event neither registers the node anew nor removes it.
  abbrev Keeps : String → Event F → Type 0
  Keeps id (registers now key caps) = key ≢ id
  Keeps id (removes key) = key ≢ id
  Keeps id _ = Unit {0}

  abbrev pub AllKeep : String → List (Event F) → Type 0
  AllKeep id [] = Unit {0}
  AllKeep id (e ∷ es) = Keeps id e × AllKeep id es

  -- The commands of the entry that an update leaves for a node.
  pending_self :
      (nm : NodeManager F) {key id : String} (node : TrackedNode F)
      → key ≡ id
      → pending (record nm { nodes = insert key node nm.nodes }) id ≡ some node.pending_commands
  pending_self nm {key} {id} node same =
      ground (arith, lookup-insert key id node nm.nodes, beq_iff key id)

  pending_other :
      (nm : NodeManager F) {key id : String} (node : TrackedNode F)
      → key ≢ id
      → pending (record nm { nodes = insert key node nm.nodes }) id ≡ pending nm id
  pending_other nm {key} {id} node other =
      ap (Option.map (λ node. node.pending_commands)) (lookup-insert_ne key id node nm.nodes other)

  -- A node after its heartbeat, and one with a command more.
  abbrev seen : ℕ → HeartbeatRequest F → TrackedNode F → TrackedNode F
  seen now req node = record node {
    health = healthy;
    last_seen = now;
    last_status = req.status;
    pending_commands = [];
  }

  abbrev with_command : Command → TrackedNode F → TrackedNode F
  with_command cmd node = record node { pending_commands = node.pending_commands ++ cmd ∷ [] }

  heartbeat_known :
      (now : ℕ) (nm : NodeManager F) (req : HeartbeatRequest F) {was : TrackedNode F}
      → lookup req.node_id nm.nodes ≡ some was
      → process_heartbeat now nm req ≡ (
        ok (record { commands = was.pending_commands }),
        record nm { nodes = insert req.node_id (seen now req was) nm.nodes },
      )
  unfolding process_heartbeat
  heartbeat_known now nm req found = rw (found, process_heartbeat)

  enqueue_known :
      (nm : NodeManager F) (key : String) (cmd : Command) {was : TrackedNode F}
      → lookup key nm.nodes ≡ some was
      → enqueue_command nm key cmd
        ≡ (ok tt, record nm { nodes = insert key (with_command cmd was) nm.nodes })
  unfolding enqueue_command
  enqueue_known nm key cmd found = rw (found, enqueue_command)

  pending_found :
      (nm : NodeManager F) (id : String) {cs : List Command}
      → pending nm id ≡ some cs
      → (was : TrackedNode F) × (lookup id nm.nodes ≡ some was) × (was.pending_commands ≡ cs)
  pending_found nm id p = ground arith

  -- A heartbeat on the queue of a known node: its own empties the queue into the response.
  own_heartbeat :
      (now : ℕ) (nm : NodeManager F) (req : HeartbeatRequest F) {cs : List Command}
      → pending nm req.node_id ≡ some cs
      → (pending (process_heartbeat now nm req).1 req.node_id ≡ some [])
        × (response (process_heartbeat now nm req).0 ≡ cs)
  own_heartbeat now nm req p =
      let (was, found, e) = pending_found nm req.node_id p in
      rw (heartbeat_known now nm req found) (pending_self nm (seen now req was) refl, e)

  other_heartbeat :
      (now : ℕ) (nm : NodeManager F) (req : HeartbeatRequest F) {id : String}
      → req.node_id ≢ id
      → pending (process_heartbeat now nm req).1 id ≡ pending nm id
  unfolding process_heartbeat
  other_heartbeat now nm req other = elim (Option-cases (lookup req.node_id nm.nodes)) [
    | inl missing ↦ rw (missing, process_heartbeat)
    | inr (was, found) ↦
        rw (heartbeat_known now nm req found) (pending_other nm (seen now req was) other)
  ]

  own_enqueue :
      (nm : NodeManager F) (key : String) (cmd : Command) {cs : List Command}
      → pending nm key ≡ some cs
      → pending (enqueue_command nm key cmd).1 key ≡ some (cs ++ cmd ∷ [])
  own_enqueue nm key cmd p =
      let (was, found, e) = pending_found nm key p in
      rw (enqueue_known nm key cmd found, ← e) (pending_self nm (with_command cmd was) refl)

  other_enqueue :
      (nm : NodeManager F) (key : String) (cmd : Command) {id : String}
      → key ≢ id
      → pending (enqueue_command nm key cmd).1 id ≡ pending nm id
  unfolding enqueue_command
  other_enqueue nm key cmd other = elim (Option-cases (lookup key nm.nodes)) [
    | inl missing ↦ rw (missing, enqueue_command)
    | inr (was, found) ↦
        rw (enqueue_known nm key cmd found) (pending_other nm (with_command cmd was) other)
  ]

  check_node-pending :
      (now : ℕ) (node : TrackedNode F)
      → (check_node now node).pending_commands ≡ node.pending_commands
  unfolding check_node
  check_node-pending now node = ground arith

  checked_pending :
      (now : ℕ) (nm : NodeManager F) (id : String) {cs : List Command}
      → pending nm id ≡ some cs
      → pending (check_timeouts now nm).0 id ≡ some cs
  checked_pending now nm id p =
      let (was, found, e) = pending_found nm id p in
      ground (arith, lookup-check_timeouts now id nm, check_node-pending now was)

  -- One event on the queue of a known node.
  abbrev Moves : NodeManager F → Event F → String → List Command → Type 0
  Moves nm e id cs =
      (cs' : List Command) × (pending (step nm e) id ≡ some cs')
      × (cs ++ queues e id ≡ hands_over nm e id ++ cs')

  step_pending :
      (nm : NodeManager F) (e : Event F) (id : String) {cs : List Command}
      → Keeps id e
      → pending nm id ≡ some cs
      → Moves nm e id cs
  unfolding step register_node remove_node queues hands_over
  step_pending nm (registers now key caps) id {cs} keep p =
      (cs, pending_other nm _ keep ∙ p, append-nil cs)
  step_pending nm (removes key) id {cs} keep p =
      (cs, ground (arith, lookup-delete key id nm.nodes, beq_iff key id), append-nil cs)
  step_pending nm (beats now req) id {cs} keep p = elim (Bool-cases (req.node_id == id)) [
    | inl own ↦
        let same : req.node_id ≡ id = (beq_iff req.node_id id).0 own in
        let (empty, all) = own_heartbeat now nm req (rw same p) in
        (
          [],
          subst (λ x. pending (process_heartbeat now nm req).1 x ≡ some []) same empty,
          append-nil cs ∙ sym (rw own (append-nil _ ∙ all)),
        )
    | inr other ↦
        let differ : req.node_id ≢ id = ground (arith, beq_iff req.node_id id) in
        (cs, other_heartbeat now nm req differ ∙ p, rw other (append-nil cs))
  ]
  step_pending nm (enqueues key cmd) id {cs} keep p = elim (Bool-cases (key == id)) [
    | inl own ↦
        let same : key ≡ id = (beq_iff key id).0 own in
        (cs ++ cmd ∷ [], rw (← same) (own_enqueue nm key cmd (rw same p)), rw own)
    | inr other ↦
        let differ : key ≢ id = ground (arith, beq_iff key id) in
        (cs, other_enqueue nm key cmd differ ∙ p, rw other (append-nil cs))
  ]
  step_pending nm (checks now) id {cs} keep p = (cs, checked_pending now nm id p, append-nil cs)

  -- From any state in which a node is known, over any history that neither registers it anew nor
  -- removes it: the commands waiting at the start, followed by those queued since, are those handed
  -- over in heartbeats, followed by those still waiting. None is lost, repeated or overtaken.
  pub commands_in_order :
      (nm : NodeManager F) (es : List (Event F)) (id : String) {cs : List Command}
      → AllKeep id es
      → pending nm id ≡ some cs
      → (cs' : List Command) × (pending (run nm es) id ≡ some cs')
        × (cs ++ queued es id ≡ handed_over nm es id ++ cs')
  unfolding run queued handed_over
  commands_in_order nm [] id {cs} keep p = (cs, p, append-nil cs)
  commands_in_order nm (e ∷ es) id {cs} keep p =
      let (ms, there, moved) = step_pending nm e id keep.0 p in
      let (cs', after, rest) = commands_in_order (step nm e) es id keep.1 there in
      (
        cs',
        after,
        sym (append_assoc cs (queues e id) (queued es id))
            ∙ ap (λ xs. xs ++ queued es id) moved
            ∙ append_assoc (hands_over nm e id) ms (queued es id)
            ∙ ap (λ xs. hands_over nm e id ++ xs) rest
            ∙ sym (append_assoc (hands_over nm e id) (handed_over (step nm e) es id) cs'),
      )
