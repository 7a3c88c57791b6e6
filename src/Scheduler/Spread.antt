-- ===== src/Scheduler/Spread.antt =====
-- The divisor of the spread score (internal/scheduler/scheduler.go, scoreSpread).
use ussycode.Base.{ℕ, ◌≤◌, List, [], ◌∷◌, All, arith, ltb, if◌then◌else◌}
use ussycode.Scheduler.{NodeStatus, max_vms_from}

module _ {F : Type 0} where
  max_vms_from-ge : (m : ℕ) (cs : List (NodeStatus F)) → m ≤ max_vms_from m cs
  unfolding max_vms_from
  max_vms_from-ge m [] = omega arith
  max_vms_from-ge m (c ∷ cs) =
      ground (arith, max_vms_from-ge (if ltb m c.vm_count then c.vm_count else m) cs)

  max_vms_from-All :
      (m : ℕ) (cs : List (NodeStatus F)) → All (λ c. c.vm_count ≤ max_vms_from m cs) cs
  unfolding max_vms_from
  max_vms_from-All m [] = tt
  max_vms_from-All m (c ∷ cs) = (
    ground (arith, max_vms_from-ge (if ltb m c.vm_count then c.vm_count else m) cs),
    max_vms_from-All (if ltb m c.vm_count then c.vm_count else m) cs,
  )

  -- The spread score divides by a number that is at least 1 and at least each candidate's VM count,
  -- so it divides by no zero and its fraction is at most 1.
  pub max_vms_bounds :
      (cs : List (NodeStatus F))
      → (1 ≤ max_vms_from 1 cs) × All (λ c. c.vm_count ≤ max_vms_from 1 cs) cs
  max_vms_bounds cs = (max_vms_from-ge 1 cs, max_vms_from-All 1 cs)
