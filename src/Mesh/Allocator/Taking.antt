-- ===== src/Mesh/Allocator/Taking.antt =====
-- `Allocate` keeps the allocator's invariant (internal/mesh/allocator.go).
use ussycode.Base.{
  ℕ, ◌<◌, ◌≡◌, refl, inl, inr, String, none, some, ok, err, ◌==◌, lookup, insert-Distinct,
  lookup-insert, beq_iff, nat_eq, string_eq, Option-cases, arith, Bool-cases,
}
use ussycode.Mesh.Net.{IpNet}
use ussycode.Mesh.Allocator.{
  Allocator, no_free_subnets, max_subnet_index, subnet_size, subnet_for_index, free_index,
  take_index, allocate_new, allocate,
}
use ussycode.Mesh.Allocator.Invariant.{Inv, free_index-some}

-- The operations change the two maps alone, so the numbering of the subnets stays.
abbrev SameNumbering : Allocator → Allocator → Type 0
SameNumbering a b =
    (max_subnet_index b ≡ max_subnet_index a)
    × ((i : ℕ) → subnet_for_index b i ≡ subnet_for_index a i)

SameNumbering-take_index :
    (a : Allocator) (n : String) (idx : ℕ) → SameNumbering a (take_index a n idx)
unfolding take_index max_subnet_index subnet_for_index subnet_size
SameNumbering-take_index a n idx = (refl, λ i. refl)

module _ (a : Allocator) (v : Inv a) (n : String) (idx : ℕ) (new : lookup n a.allocated ≡ none)
    (free : lookup idx a.used ≡ none) (below : idx < max_subnet_index a) where
  take_index-in_range :
      (i : ℕ) (m : String)
      → lookup i (take_index a n idx).used ≡ some m
      → i < max_subnet_index (take_index a n idx)
  unfolding take_index
  take_index-in_range i m h = ground (
    arith,
    (SameNumbering-take_index a n idx).0,
    lookup-insert idx i n a.used,
    v.in_range i m,
    beq_iff idx i,
  )

  take_index-owned :
      (i : ℕ) (m : String)
      → lookup i (take_index a n idx).used ≡ some m
      → lookup m (take_index a n idx).allocated ≡ some (subnet_for_index (take_index a n idx) i)
  unfolding take_index
  take_index-owned i m h = ground (
    arith,
    (SameNumbering-take_index a n idx).1 i,
    lookup-insert idx i n a.used,
    lookup-insert n m (subnet_for_index a idx) a.allocated,
    v.owned i m,
    beq_iff idx i,
    beq_iff n m,
  )

  take_index-one_each :
      (i j : ℕ) (m : String)
      → lookup i (take_index a n idx).used ≡ some m
      → lookup j (take_index a n idx).used ≡ some m
      → i ≡ j
  unfolding take_index
  take_index-one_each i j m h k = ground (
    arith,
    lookup-insert idx i n a.used,
    lookup-insert idx j n a.used,
    v.owned i n,
    v.owned j n,
    v.one_each i j m,
    beq_iff idx i,
    beq_iff idx j,
  )

  take_index-indexed :
      (m : String) (s : IpNet)
      → lookup m (take_index a n idx).allocated ≡ some s
      → (i : ℕ) × (lookup i (take_index a n idx).used ≡ some m)
        × (s ≡ subnet_for_index (take_index a n idx) i)
  unfolding take_index
  take_index-indexed m s h = elim (Bool-cases (n == m)) [
    | inl same ↦ (
      idx,
      ground (arith, lookup-insert idx idx n a.used, beq_iff idx idx, beq_iff n m),
      ground (
        arith,
        (SameNumbering-take_index a n idx).1 idx,
        lookup-insert n m (subnet_for_index a idx) a.allocated,
      ),
    )
    | inr other ↦
        let old : lookup m a.allocated ≡ some s =
          ground (arith, lookup-insert n m (subnet_for_index a idx) a.allocated) in
        let (i, used, e) = v.indexed m s old in
        (
          i,
          ground (arith, lookup-insert idx i n a.used, beq_iff idx i),
          ground (arith, (SameNumbering-take_index a n idx).1 i),
        )
  ]

  pub take_index-Inv : Inv (take_index a n idx)
  unfolding take_index
  take_index-Inv = record {
    used_distinct = insert-Distinct idx n a.used v.used_distinct;
    allocated_distinct =
        insert-Distinct n (subnet_for_index a idx) a.allocated v.allocated_distinct;
    in_range = take_index-in_range;
    owned = take_index-owned;
    one_each = take_index-one_each;
    indexed = take_index-indexed;
  }

-- The three ways in which `allocate` runs.
module _ (a : Allocator) (n : String) where
  pub allocate_again : {s : IpNet} → lookup n a.allocated ≡ some s → allocate a n ≡ (ok s, a)
  unfolding allocate
  allocate_again old = rw (old, allocate)

  pub allocate_full :
      lookup n a.allocated ≡ none
      → free_index a.used (max_subnet_index a) 0 ≡ none
      → allocate a n ≡ (err (no_free_subnets (max_subnet_index a)), a)
  unfolding allocate allocate_new
  allocate_full new full = rw (new, allocate) (rw (full, allocate_new))

  pub allocate_found :
      {idx : ℕ}
      → lookup n a.allocated ≡ none
      → free_index a.used (max_subnet_index a) 0 ≡ some idx
      → allocate a n ≡ (ok (subnet_for_index a idx), take_index a n idx)
  unfolding allocate allocate_new
  allocate_found new found = rw (new, allocate) (rw (found, allocate_new))

pub allocate-Inv : (a : Allocator) (n : String) → Inv a → Inv (allocate a n).1
allocate-Inv a n v = elim (Option-cases (lookup n a.allocated)) [
  | inr (s, old) ↦ rw (allocate_again a n old) v
  | inl new ↦ elim (Option-cases (free_index a.used (max_subnet_index a) 0)) [
    | inl full ↦ rw (allocate_full a n new full) v
    | inr (idx, found) ↦
        let (_, below, free) = free_index-some a.used (max_subnet_index a) 0 idx found in
        rw (allocate_found a n new found) (take_index-Inv a v n idx new free (omega arith))
  ]
]
