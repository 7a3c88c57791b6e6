-- ===== src/ControlPlane/NodeManager/Deaths.antt =====
-- The callbacks that a timeout check makes (internal/controlplane/nodemanager.go, CheckTimeouts and
-- callOnNodeDead), and the lock that it holds meanwhile.
use ussycode.Base.{
  ℕ, ◌≤◌, ◌-◌, ◌≡◌, refl, ◌≢◌, ◌⊎◌, inl, inr, ◌↔◌, Bool, true, false, ◌&&◌, String, Option, none,
  some, List, [], ◌∷◌, arith, GoMap, if◌then◌else◌, Any, here, there, Bool-cases,
}
use ussycode.ControlPlane.NodeManager.{
  NodeManager, TrackedNode, dead, timeout_dead, Deferred, unlock, call_on_node_dead, dies,
  check_loop, check_timeouts,
}

-- The node was not dead, and has been silent for an hour.
abbrev pub Dies : {F : Type 0} → ℕ → TrackedNode F → Type 0
Dies now node = (node.health ≢ dead) × (timeout_dead ≤ now - node.last_seen)

pushed-only :
    (test : Bool) (name id : String) (deferred : List Deferred)
    → Any
        (λ d. d ≡ call_on_node_dead id)
        (if test then call_on_node_dead name ∷ deferred else deferred)
    → ((test ≡ true) × (name ≡ id)) ⊎ Any (λ d. d ≡ call_on_node_dead id) deferred
pushed-only true name id deferred (here e) = inl (refl, cc)
pushed-only true name id deferred (there a) = inr a
pushed-only false name id deferred a = inr a

module _ {F : Type 0} where
  dies_iff : (now : ℕ) (node : TrackedNode F) → (dies now node ≡ true) ↔ Dies now node
  unfolding dies
  dies_iff now node = ground arith

  abbrev DiesAs : ℕ → String → String × TrackedNode F → Type 0
  DiesAs now id entry = (entry.1.id ≡ id) × Dies now entry.1

  -- Calls that are deferred already stay deferred.
  check_loop-keeps :
      (now : ℕ) (callback : Bool) (nodes : GoMap String (TrackedNode F)) (deferred : List Deferred)
      (id : String)
      → Any (λ d. d ≡ call_on_node_dead id) deferred
      → Any (λ d. d ≡ call_on_node_dead id) (check_loop now callback nodes deferred).1
  unfolding check_loop
  check_loop-keeps now callback [] deferred id a = a
  check_loop-keeps now callback ((key, node) ∷ rest) deferred id a =
      check_loop-keeps now callback rest _ id (elim (Bool-cases (dies now node && callback)) [
        | inl yes' ↦ rw yes' (there a)
        | inr no' ↦ rw no' a
      ])

  check_loop-calls :
      (now : ℕ) (nodes : GoMap String (TrackedNode F)) (deferred : List Deferred) (id : String)
      → Any (DiesAs now id) nodes
      → Any (λ d. d ≡ call_on_node_dead id) (check_loop now true nodes deferred).1
  unfolding check_loop
  check_loop-calls now [] deferred id a = elim a [ ]
  check_loop-calls now ((key, node) ∷ rest) deferred id (here (e, d)) =
      check_loop-keeps now true rest _ id (rw ((dies_iff now node).1 d, e) (here refl))
  check_loop-calls now ((key, node) ∷ rest) deferred id (there a) = check_loop-calls now rest _ id a

  -- Every call comes from a node that dies, or was there before.
  check_loop-only :
      (now : ℕ) (callback : Bool) (nodes : GoMap String (TrackedNode F)) (deferred : List Deferred)
      (id : String)
      → Any (λ d. d ≡ call_on_node_dead id) (check_loop now callback nodes deferred).1
      → ((callback ≡ true) × Any (DiesAs now id) nodes)
        ⊎ Any (λ d. d ≡ call_on_node_dead id) deferred
  unfolding check_loop
  check_loop-only now callback [] deferred id a = inr a
  check_loop-only now callback ((key, node) ∷ rest) deferred id a =
      elim (check_loop-only now callback rest _ id a) [
        | inl (set, among) ↦ inl (set, there among)
        | inr before ↦ elim (pushed-only (dies now node && callback) node.id id deferred before) [
          | inr old ↦ inr old
          | inl (test, e) ↦ inl (ground arith, here (e, (dies_iff now node).0 (ground arith)))
        ]
      ]

  -- A check calls back for exactly the nodes that it finds dead and that were not dead before,
  -- provided that a callback is set.
  pub check_timeouts-calls_iff :
      (now : ℕ) (nm : NodeManager F) (id : String)
      → Any (λ d. d ≡ call_on_node_dead id) (check_timeouts now nm).1
        ↔ ((nm.on_node_dead ≡ true) × Any (λ entry. (entry.1.id ≡ id) × Dies now entry.1) nm.nodes)
  unfolding check_timeouts
  check_timeouts-calls_iff now nm id = (
    λ a. elim (check_loop-only now nm.on_node_dead nm.nodes (unlock ∷ []) id a) [
      | inl found ↦ found
      | inr (here e) ↦ cc
      | inr (there none_left) ↦ elim none_left [ ]
    ],
    λ h. rw h.0 (check_loop-calls now nm.nodes (unlock ∷ []) id h.1),
  )

-- The deferred calls run one after the other. `locks id` says whether the callback for `id` takes
-- the manager's lock, as any call of a method of the manager does; `none` is a deadlock, and the
-- result says whether the lock is held at the end.
unfoldable pub run_deferred : (String → Bool) → Bool → List Deferred → Option Bool
run_deferred locks held [] = some held
run_deferred locks held (unlock ∷ rest) = run_deferred locks false rest
run_deferred locks held (call_on_node_dead id ∷ rest) =
    let after = run_deferred locks held rest in if held && locks id then none else after

module _ {F : Type 0} (locks : String → Bool) where
  deadlock_stays :
      (now : ℕ) (callback : Bool) (nodes : GoMap String (TrackedNode F)) (deferred : List Deferred)
      → run_deferred locks true deferred ≡ none
      → run_deferred locks true (check_loop now callback nodes deferred).1 ≡ none
  unfolding check_loop run_deferred
  deadlock_stays now callback [] deferred h = h
  deadlock_stays now callback ((key, node) ∷ rest) deferred h =
      deadlock_stays now callback rest _ (ground arith)

  loop_deadlocks :
      (now : ℕ) (nodes : GoMap String (TrackedNode F)) (deferred : List Deferred)
      → Any (λ entry. (locks entry.1.id ≡ true) × Dies now entry.1) nodes
      → run_deferred locks true (check_loop now true nodes deferred).1 ≡ none
  unfolding check_loop run_deferred
  loop_deadlocks now [] deferred a = elim a [ ]
  loop_deadlocks now ((key, node) ∷ rest) deferred (here (l, d)) =
      deadlock_stays now true rest _ (ground (arith, (dies_iff now node).1 d))
  loop_deadlocks now ((key, node) ∷ rest) deferred (there a) = loop_deadlocks now rest _ a

  -- The callbacks run before the deferred unlock: when a check finds a node newly dead whose
  -- callback takes the manager's lock, the check never returns.
  pub locking_callback_deadlocks :
      (now : ℕ) (nm : NodeManager F)
      → nm.on_node_dead ≡ true
      → Any (λ entry. (locks entry.1.id ≡ true) × Dies now entry.1) nm.nodes
      → run_deferred locks true (check_timeouts now nm).1 ≡ none
  unfolding check_timeouts
  locking_callback_deadlocks now nm set a = rw set (loop_deadlocks now nm.nodes (unlock ∷ []) a)
