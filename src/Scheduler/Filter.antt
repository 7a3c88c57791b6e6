-- ===== src/Scheduler/Filter.antt =====
-- Phase 1 of the scheduler (internal/scheduler/scheduler.go, filter) against the hard constraints.
use ussycode.Base.{
  ◌+◌, ◌≤◌, ◌≡◌, refl, sym, subst, ◌↔◌, ◌⊎◌, inl, inr, Bool, true, false, List, [], ◌∷◌, here,
  there, Mem, arith, Bool-cases, beq_iff, string_eq, if◌then◌else◌,
}
use ussycode.Scheduler.{VmSpec, NodeStatus, passes, filter}

-- What a node must offer: it is ready, healthy and not draining, its free RAM and disk hold what the
-- VM wants, and it is trusted enough.
pub record Qualifies {F : Type 0} (spec : VmSpec) (n : NodeStatus F) : Type 0 where
  pub is_ready : n.ready ≡ true
  pub is_healthy : n.health ≡ "healthy"
  pub is_kept : n.draining ≡ false
  pub ram : n.ram_used + spec.mem_bytes ≤ n.ram_total ⊎ spec.mem_bytes ≡ 0
  pub disk : n.disk_used + spec.disk_bytes ≤ n.disk_total ⊎ spec.disk_bytes ≡ 0
  pub trusted : spec.min_trust_level ≤ n.trust_level

module _ {F : Type 0} where
  pub passes_iff : (spec : VmSpec) (n : NodeStatus F) → (passes spec n ≡ true) ↔ Qualifies spec n
  unfolding passes
  passes_iff spec n = ground (arith, beq_iff n.health "healthy")

  first_or_later :
      (b : Bool) (spec : VmSpec) (x n : NodeStatus F) (ns rest : List (NodeStatus F))
      → b ≡ passes spec x
      → Mem n (if b then x ∷ rest else rest)
      → ((x ≡ n) × Qualifies spec n) ⊎ Mem n rest
  first_or_later true spec x n ns rest e (here same) =
      inl (same, subst (Qualifies spec) same ((passes_iff spec x).0 (sym e)))
  first_or_later true spec x n ns rest e (there m) = inr m
  first_or_later false spec x n ns rest e m = inr m

  filter_sound :
      (ns : List (NodeStatus F)) (spec : VmSpec) (n : NodeStatus F)
      → Mem n (filter ns spec)
      → Mem n ns × Qualifies spec n
  unfolding filter
  filter_sound [] spec n m = elim m [ ]
  filter_sound (x ∷ ns) spec n m =
      elim (first_or_later (passes spec x) spec x n ns (filter ns spec) refl m) [
        | inl (same, q) ↦ (here same, q)
        | inr later ↦ let (among, q) = filter_sound ns spec n later in (there among, q)
      ]

  filter_complete :
      (ns : List (NodeStatus F)) (spec : VmSpec) (n : NodeStatus F)
      → Mem n ns
      → Qualifies spec n
      → Mem n (filter ns spec)
  unfolding filter
  filter_complete [] spec n m q = elim m [ ]
  filter_complete (x ∷ ns) spec n (here e) q =
      let pass : passes spec x ≡ true = rw e ((passes_iff spec n).1 q) in rw pass (here e)
  filter_complete (x ∷ ns) spec n (there m) q =
      let rest = filter_complete ns spec n m q in
      elim (Bool-cases (passes spec x)) [
        | inl pass ↦ rw pass (there rest)
        | inr fail ↦ rw fail rest
      ]

  -- Filtering keeps exactly the nodes that qualify.
  pub filter_iff :
      (nodes : List (NodeStatus F)) (spec : VmSpec) (n : NodeStatus F)
      → Mem n (filter nodes spec) ↔ (Mem n nodes × Qualifies spec n)
  filter_iff nodes spec n = (filter_sound nodes spec n, λ h. filter_complete nodes spec n h.0 h.1)
