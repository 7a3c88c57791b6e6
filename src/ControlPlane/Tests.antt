-- ===== src/ControlPlane/Tests.antt =====
-- The node manager's theorems at concrete histories; a float is a natural number here.
use ussycode.Base.{
  ℕ, ◌-◌, ◌≤◌, ◌≡◌, refl, ◌↔◌, Bool, true, String, none, some, List, [], ◌∷◌, ◌++◌, lookup, insert,
  string_eq, Any, here, arith,
}
use ussycode.ControlPlane.Messages.{Command, HeartbeatRequest, stop_vm, drain}
use ussycode.ControlPlane.NodeManager.{
  NodeManager, TrackedNode, healthy, offline, call_on_node_dead, new_node_manager, register_node,
  process_heartbeat, get_node, check_timeouts, check_loop, check_node, dies, timed_out,
}
use ussycode.ControlPlane.NodeManager.History.{
  Event, registers, beats, enqueues, checks, step, run, Monotone, end_time,
}
use ussycode.ControlPlane.NodeManager.Health.{HealthAt, check_timeouts-HealthAt}
use ussycode.ControlPlane.NodeManager.Delivery.{
  pending, queued, handed_over, AllKeep, commands_in_order,
}
use ussycode.ControlPlane.NodeManager.Deaths.{
  Dies, check_timeouts-calls_iff, run_deferred, locking_callback_deadlocks,
}

abbrev stop : Command
stop = record {
  kind = stop_vm;
  create_vm = none;
  stop_vm = some (record { vm_id = "vm" });
  destroy_vm = none;
  drain = none;
  update_config = none;
}

abbrev drains : Command
drains = record {
  kind = drain;
  create_vm = none;
  stop_vm = none;
  destroy_vm = none;
  drain = some (record { deadline_seconds = 60 });
  update_config = none;
}

abbrev beat : HeartbeatRequest ℕ
beat = record { node_id = "n"; status = none }

-- The node "n" as it was last seen at a time.
abbrev seen : ℕ → List Command → TrackedNode ℕ
seen time commands = record {
  id = "n";
  health = healthy;
  capabilities = none;
  last_status = none;
  last_seen = time;
  registered_at = 5;
  pending_commands = commands;
}

abbrev start : NodeManager ℕ
start = record { nodes = ("n", seen 5 (stop ∷ [])) ∷ []; on_node_dead = true }

abbrev events : List (Event ℕ)
events = enqueues "n" drains ∷ beats 70 beat ∷ enqueues "n" stop ∷ []

events_keep : AllKeep "n" events
events_keep = (tt, (tt, (tt, tt)))

start-pending : pending start "n" ≡ some (stop ∷ [])
unfolding lookup
start-pending = refl

commands_in_order_example :
    (cs' : List Command) × (pending (run start events) "n" ≡ some cs')
    × ((stop ∷ []) ++ queued events "n" ≡ handed_over start events "n" ++ cs')
commands_in_order_example =
    commands_in_order start events "n" {cs = stop ∷ []} events_keep start-pending

abbrev past : List (Event ℕ)
past = registers 5 "n" none ∷ checks 40_000_000_005 ∷ beats 50_000_000_000 beat ∷ []

past_ordered : Monotone 0 past
past_ordered = (omega arith, (omega arith, (omega arith, tt)))

past_end : end_time 0 past ≤ 400_000_000_000
unfolding end_time
past_end = omega arith

past_node :
    get_node (check_timeouts 400_000_000_000 (run (new_node_manager true) past)).0 "n"
    ≡ some (record (seen 50_000_000_000 []) { health = offline })
unfolding get_node check_timeouts check_loop check_node timed_out dies run step new_node_manager
    register_node process_heartbeat lookup insert
past_node = refl

check_timeouts-HealthAt_example : HealthAt (400_000_000_000 - 50_000_000_000) offline
check_timeouts-HealthAt_example =
    check_timeouts-HealthAt true past 400_000_000_000 "n"
      (record (seen 50_000_000_000 []) { health = offline }) past_ordered past_end past_node

seen-Dies : Dies 3_600_000_000_005 (seen 5 (stop ∷ []))
seen-Dies = ((λ e. cc), omega arith)

check_timeouts-calls_iff_example :
    Any (λ d. d ≡ call_on_node_dead "n") (check_timeouts 3_600_000_000_005 start).1 ↔ (
      (true ≡ true)
      × Any (λ entry. (entry.1.id ≡ "n") × Dies 3_600_000_000_005 entry.1) start.nodes)
check_timeouts-calls_iff_example = check_timeouts-calls_iff 3_600_000_000_005 start "n"

-- A callback that calls a method of the manager, such as `RemoveNode`.
abbrev removing : String → Bool
removing id = true

locking_callback_deadlocks_example :
    run_deferred removing true (check_timeouts 3_600_000_000_005 start).1 ≡ none
locking_callback_deadlocks_example =
    locking_callback_deadlocks removing 3_600_000_000_005 start refl (here (refl, seen-Dies))
