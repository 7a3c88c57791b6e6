-- ===== src/Mesh/Allocator/Answers.antt =====
-- What the allocator's calls (internal/mesh/allocator.go) answer, and what they leave alone.
use ussycode.Base.{
  ℕ, ◌<◌, ◌≡◌, refl, sym, ◌∙◌, ◌≢◌, inl, inr, some, none, String, List, Option-cases, lookup,
  lookup-insert, ok, arith, beq_iff, string_eq, nat_eq, ◌==◌, if◌then◌else◌,
}
use ussycode.Mesh.Net.{IpNet}
use ussycode.Mesh.Allocator.{
  Allocator, max_subnet_index, subnet_size, subnet_for_index, free_index, take_index, allocate,
  get_allocation, new_allocator_custom,
}
use ussycode.Mesh.Allocator.Invariant.{free_index-some, free_index_lowest}
use ussycode.Mesh.Allocator.Taking.{allocate_again, allocate_full, allocate_found}
use ussycode.Mesh.Allocator.History.{Call, run, run-new-Inv, run-SameConfig, new_lem}

take_index-get_allocation :
    (a : Allocator) (n m : String) (i : ℕ)
    → get_allocation (take_index a n i) m
      ≡ (if n == m then some (subnet_for_index a i) else get_allocation a m)
unfolding get_allocation take_index
take_index-get_allocation a n m i = lookup-insert n m (subnet_for_index a i) a.allocated

-- A node that is answered with a subnet holds it; asking again gives the same answer and changes
-- nothing; and no other node's subnet has changed.
pub allocate-get_allocation :
    (a : Allocator) (n m : String) (s : IpNet)
    → (allocate a n).0 ≡ ok s
    → let b = (allocate a n).1 in
      (get_allocation b n ≡ some s)
      × (allocate b n ≡ (ok s, b))
      × (n ≢ m → get_allocation b m ≡ get_allocation a m)
unfolding get_allocation
allocate-get_allocation a n m s h = elim (Option-cases (lookup n a.allocated)) [
  | inr (t, old) ↦
      let same : t ≡ s = cc (allocate_again a n old) in
      rw (allocate_again a n old) (cc, cc (allocate_again a n old), λ ne. refl)
  | inl new ↦ elim (Option-cases (free_index a.used (max_subnet_index a) 0)) [
    | inl full ↦ absurd (cc (allocate_full a n new full))
    | inr (i, found) ↦
        let same : subnet_for_index a i ≡ s = cc (allocate_found a n new found) in
        let after = take_index a n i in
        let held : lookup n after.allocated ≡ some s =
          ground (arith, take_index-get_allocation a n n i, beq_iff n n) in
        rw (allocate_found a n new found) (
          held,
          allocate_again after n held,
          λ ne. ground (arith, take_index-get_allocation a n m i, beq_iff n m),
        )
  ]
]

-- A node without a subnet gets the one of the lowest free index.
pub allocate_lowest :
    (a : Allocator) (n : String) (s : IpNet)
    → get_allocation a n ≡ none
    → (allocate a n).0 ≡ ok s
    → (i : ℕ) × (s ≡ subnet_for_index a i)
      × (i < max_subnet_index a)
      × (lookup i a.used ≡ none)
      × ((j : ℕ) → j < i → lookup j a.used ≢ none)
unfolding get_allocation
allocate_lowest a n s new h = elim (Option-cases (free_index a.used (max_subnet_index a) 0)) [
  | inl full ↦ absurd (cc (allocate_full a n new full))
  | inr (i, found) ↦
      let (_, below, free) = free_index-some a.used (max_subnet_index a) 0 i found in
      (
        i,
        cc (allocate_found a n new found),
        omega arith,
        free,
        λ j lt. free_index_lowest a.used (max_subnet_index a) 0 i j found (omega arith) lt,
      )
]

overlong-size : (a : Allocator) → 32 < a.subnet_bits → subnet_size a ≡ 0
unfolding subnet_size
overlong-size a h = ground arith

overlong-subnet :
    (a : Allocator) (i j : ℕ) → 32 < a.subnet_bits → subnet_for_index a i ≡ subnet_for_index a j
unfolding subnet_for_index
overlong-subnet a i j h = ground (arith, overlong-size a h)

-- `NewAllocatorCustom` accepts subnet lengths above 32. Then, whatever the calls, all nodes that hold
-- a subnet hold the same one.
pub overlong_subnets_collide :
    (base : IpNet) (bits : ℕ) {a : Allocator} (cs : List Call) (n m : String) (s t : IpNet)
    → new_allocator_custom (some base) bits ≡ ok a
    → 32 < bits
    → get_allocation (run a cs) n ≡ some s
    → get_allocation (run a cs) m ≡ some t
    → s ≡ t
unfolding get_allocation
overlong_subnets_collide base bits {a} cs n m s t h over hn hm =
    let v = run-new-Inv base bits cs h in
    let (i, _, e) = v.indexed n s hn in
    let (j, _, e') = v.indexed m t hm in
    let (_, _, _, eb, _) = new_lem base bits h in
    let (_, rb) = run-SameConfig a cs in e ∙ overlong-subnet (run a cs) i j (omega arith) ∙ sym e'
