-- ===== src/Scheduler.antt =====
-- The two-phase scheduler (internal/scheduler/scheduler.go). Go's `float64` is the parameter
-- `Float`, and `sort.Slice`, which promises no stability, is a parameter of the placement. Byte
-- counts, core counts and trust levels are natural numbers; a time is a number of nanoseconds.
pub mod Filter
pub mod Spread
pub mod Placement
mod Tests
use ussycode.Base.{
  ℕ, ◌+◌, ◌-◌, Bool, true, false, not, ◌&&◌, ◌||◌, String, Option, none, some, List, [], ◌∷◌, map,
  ltb, leb, if◌then◌else◌, Result, ok, err, string_eq, nat_eq, ◌==◌, ◌>>=◌,
}

-- The operations on `float64` that the scores use. `lit a b` is the literal a/b, `hours` is
-- `Duration.Hours`, and `gt` is `>`.
pub record Float : Type 1 where
  pub F : Type 0
  pub lit : ℕ → ℕ → F
  pub of_int : ℕ → F
  pub hours : ℕ → F
  pub add : F → F → F
  pub sub : F → F → F
  pub mul : F → F → F
  pub div : F → F → F
  pub max : F → F → F
  pub min : F → F → F
  pub gt : F → F → Bool

pub record VmSpec : Type 0 where
  pub vm_id : String
  pub user_id : String
  pub base_image : String
  pub vcpus : ℕ
  pub mem_bytes : ℕ
  pub disk_bytes : ℕ
  pub prefer_node_ids : List String
  pub min_trust_level : ℕ

-- A zero `RegisteredAt` is `none`.
pub record NodeStatus (F : Type 0) : Type 0 where
  pub id : String
  pub ready : Bool
  pub health : String
  pub trust_level : ℕ
  pub cpu_cores : ℕ
  pub ram_total : ℕ
  pub disk_total : ℕ
  pub cpu_used : F
  pub ram_used : ℕ
  pub disk_used : ℕ
  pub vm_count : ℕ
  pub registered_at : Option ℕ
  pub user_ids : List String
  pub draining : Bool

pub record ScoreWeights (F : Type 0) : Type 0 where
  pub bin_packing : F
  pub spread : F
  pub locality : F
  pub freshness : F
  pub trust : F

pub data PlaceError : Type 0 where
  fetching_nodes : String → PlaceError
  no_nodes : VmSpec → PlaceError
  index_fault : PlaceError

module _ {F : Type 0} where
  unfoldable pub available_ram : NodeStatus F → ℕ
  available_ram n = if ltb n.ram_total n.ram_used then 0 else n.ram_total - n.ram_used

  unfoldable pub available_disk : NodeStatus F → ℕ
  available_disk n = if ltb n.disk_total n.disk_used then 0 else n.disk_total - n.disk_used

  -- The body of `filter`'s loop: each test is a `continue`.
  unfoldable pub passes : VmSpec → NodeStatus F → Bool
  unfolding available_ram available_disk
  passes spec n =
      if not n.ready
      then false
      else if not (n.health == "healthy")
      then false
      else if n.draining
      then false
      else if ltb (available_ram n) spec.mem_bytes
      then false
      else if ltb 0 spec.disk_bytes && ltb (available_disk n) spec.disk_bytes
      then false
      else if ltb 0 spec.min_trust_level && ltb n.trust_level spec.min_trust_level
      then false
      else true

  unfoldable pub filter : List (NodeStatus F) → VmSpec → List (NodeStatus F)
  filter [] spec = []
  filter (n ∷ ns) spec = let rest = filter ns spec in if passes spec n then n ∷ rest else rest

  -- The loop of `scoreSpread` over the candidates.
  unfoldable pub max_vms_from : ℕ → List (NodeStatus F) → ℕ
  max_vms_from max_vms [] = max_vms
  max_vms_from max_vms (c ∷ cs) =
      max_vms_from (if ltb max_vms c.vm_count then c.vm_count else max_vms) cs

unfoldable pub contains : String → List String → Bool
contains x [] = false
contains x (y ∷ ys) = y == x || contains x ys

module _ (float : Float) where
  open float use {F, lit, of_int, hours, add, sub, mul, div, max, min, gt}

  unfoldable pub default_weights : ScoreWeights F
  default_weights = record {
    bin_packing = lit 4 10;
    spread = lit 2 10;
    locality = lit 2 10;
    freshness = lit 1 10;
    trust = lit 1 10;
  }

  unfoldable pub score_bin_packing : NodeStatus F → VmSpec → F
  score_bin_packing node spec =
      let future_used = div (of_int (node.ram_used + spec.mem_bytes)) (of_int node.ram_total) in
      if node.ram_total == 0
      then lit 0 1
      else if gt future_used (lit 1 1)
      then lit 1 1
      else future_used

  unfoldable pub score_spread : NodeStatus F → List (NodeStatus F) → F
  score_spread node [] = lit 0 1
  score_spread node (c ∷ cs) =
      sub (lit 1 1) (div (of_int node.vm_count) (of_int (max_vms_from 1 (c ∷ cs))))

  unfoldable pub score_locality : NodeStatus F → VmSpec → F
  unfolding contains
  score_locality node spec =
      if contains spec.user_id node.user_ids
      then lit 1 1
      else if contains node.id spec.prefer_node_ids
      then lit 8 10
      else lit 0 1

  -- An age below 0 scores as an age of 0 does, so subtraction may stop at 0.
  unfoldable pub score_freshness : ℕ → NodeStatus F → F
  score_freshness now node = elim node.registered_at [
    | none ↦ lit 5 10
    | some registered ↦ max (lit 0 1) (
        min (lit 1 1) (sub (lit 1 1) (div (div (hours (now - registered)) (lit 24 1)) (lit 365 1))))
  ]

  unfoldable pub score_trust : NodeStatus F → F
  score_trust node = div (of_int node.trust_level) (lit 100 1)

  unfoldable pub score : ℕ → ScoreWeights F → NodeStatus F → VmSpec → List (NodeStatus F) → F
  unfolding score_bin_packing score_spread score_locality score_freshness score_trust
  score now w node spec candidates =
      let total0 = lit 0 1 in
      let total1 = add total0 (mul w.bin_packing (score_bin_packing node spec)) in
      let total2 = add total1 (mul w.spread (score_spread node candidates)) in
      let total3 = add total2 (mul w.locality (score_locality node spec)) in
      let total4 = add total3 (mul w.freshness (score_freshness now node)) in
      add total4 (mul w.trust (score_trust node))

  pub record ScoredNode : Type 0 where
    pub node : NodeStatus F
    pub value : F

  -- The less function handed to `sort.Slice`.
  unfoldable pub before : ScoredNode → ScoredNode → Bool
  before s t = gt s.value t.value

  unfoldable pub score_all :
      ℕ → ScoreWeights F → VmSpec → List (NodeStatus F) → List (NodeStatus F) → List ScoredNode
  score_all now w spec candidates [] = []
  score_all now w spec candidates (n ∷ ns) =
      record { node = n; value = score now w n spec candidates }
      ∷ score_all now w spec candidates ns

  -- `scored[0]`: an empty slice is an index fault.
  unfoldable pub first : List ScoredNode → Result PlaceError (NodeStatus F)
  first [] = err index_fault
  first (s ∷ ss) = ok s.node

  -- Phase 2 on the candidates of phase 1.
  unfoldable pub place_among :
      (List ScoredNode → List ScoredNode)
      → ℕ
      → ScoreWeights F
      → VmSpec
      → List (NodeStatus F)
      → Result PlaceError (NodeStatus F)
  unfolding score_all first
  place_among sort now w spec [] = err (no_nodes spec)
  place_among sort now w spec (c ∷ cs) = first (sort (score_all now w spec (c ∷ cs) (c ∷ cs)))

  -- `PlaceVM`, with the provider's answer: its nodes, or the text of its error.
  unfoldable pub place_vm :
      (List ScoredNode → List ScoredNode)
      → ℕ
      → ScoreWeights F
      → Result String (List (NodeStatus F))
      → VmSpec
      → Result PlaceError (NodeStatus F)
  unfolding place_among
  place_vm sort now w (err message) spec = err (fetching_nodes message)
  place_vm sort now w (ok nodes) spec = place_among sort now w spec (filter nodes spec)
