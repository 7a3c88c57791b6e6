-- ===== src/Mesh/Allocator/Counting.antt =====
-- How many subnets are left (internal/mesh/allocator.go: FreeCount, AllocatedCount, and when
-- Allocate fails).
use ussycode.Base.{
  ℕ, zero, suc, ◌+◌, ◌<◌, ◌≤◌, ◌≡◌, refl, ◌≢◌, ◌⊎◌, inl, inr, none, some, String, List, [], ◌∷◌,
  GoMap, lookup, insert, delete, Distinct, delete-Distinct, insert-Distinct, lookup-delete,
  lookup-insert, length-delete, length-insert_new, length, beq_iff, nat_eq, string_eq, Option-cases,
  arith, ok, err, is_ok, true,
}
use ussycode.Mesh.Net.{IpNet, u32_mod}
use ussycode.Mesh.Allocator.History.{Call, run, run-new-Inv}
use ussycode.Mesh.Allocator.{
  Allocator, no_free_subnets, max_subnet_index, free_index, take_index, allocate, release,
  free_count, allocated_count, get_allocation, no_allocation, new_allocator_custom,
}
use ussycode.Mesh.Allocator.Invariant.{Inv, free_index-some, free_index-none}
use ussycode.Mesh.Allocator.Taking.{take_index-Inv, allocate_full, allocate_found}
use ussycode.Mesh.Allocator.Giving.{release_lem, release-none, without, without-Inv, without-max}

length-le :
    (n : ℕ) (used : GoMap ℕ String)
    → Distinct used
    → ((i : ℕ) (x : String) → lookup i used ≡ some x → i < n)
    → length used ≤ n
unfolding lookup
length-le zero [] d below = omega arith
length-le zero ((i, x) ∷ used) d below =
    absurd (omega (arith, below i x (ground (arith, beq_iff i i))))
length-le (suc n) used d below = elim (Option-cases (lookup n used)) [
  | inl free ↦ let rest = length-le n used d (λ i x h. ground (arith, below i x h)) in omega arith
  | inr (y, taken) ↦
      let rest =
        length-le n (delete n used) (delete-Distinct n used d)
          (λ i x h. ground (arith, lookup-delete n i used, below i x, beq_iff n i)) in
      omega (arith, length-delete n used d taken)
]

length_full :
    (n : ℕ) (used : GoMap ℕ String)
    → Distinct used
    → ((i : ℕ) → i < n → lookup i used ≢ none)
    → n ≤ length used
length_full zero used d full = omega arith
length_full (suc n) used d full = elim (Option-cases (lookup n used)) [
  | inl free ↦ absurd (full n (omega arith) free)
  | inr (y, taken) ↦
      let rest =
        length_full n (delete n used) (delete-Distinct n used d)
          (λ i h e. ground (arith, lookup-delete n i used, full i, beq_iff n i)) in
      omega (arith, length-delete n used d taken)
]

length_room :
    (n i : ℕ) (used : GoMap ℕ String)
    → Distinct used
    → ((j : ℕ) (x : String) → lookup j used ≡ some x → j < n)
    → i < n
    → lookup i used ≡ none
    → length used < n
length_room n i used d below h free =
    let more =
      length-le n (insert i "" used) (insert-Distinct i "" used d)
        (λ j x e. ground (arith, lookup-insert i j "" used, below j x, beq_iff i j)) in
    omega (arith, length-insert_new i "" used free)

max_subnet_index-lt : (a : Allocator) → max_subnet_index a < u32_mod
unfolding max_subnet_index
max_subnet_index-lt a = ground arith

-- The counts never wrap: they are what is left, and what is taken, of the maximum.
counts :
    (a : Allocator)
    → Inv a
    → (free_count a + length a.used ≡ max_subnet_index a) × (allocated_count a ≡ length a.used)
unfolding free_count allocated_count
counts a v =
    let top = max_subnet_index-lt a in
    let most = length-le (max_subnet_index a) a.used v.used_distinct v.in_range in
    (omega arith, omega arith)

take_index-lengths :
    (a : Allocator) (n : String) (idx : ℕ)
    → lookup idx a.used ≡ none
    → (length (take_index a n idx).used ≡ suc (length a.used))
      × (max_subnet_index (take_index a n idx) ≡ max_subnet_index a)
unfolding take_index max_subnet_index
take_index-lengths a n idx free = (length-insert_new idx n a.used free, refl)

-- The same from any state that keeps the invariant.
subnet_counted :
    (a : Allocator) (n : String)
    → Inv a
    → get_allocation a n ≡ none
    → ((free_count a ≡ 0) × (allocate a n ≡ (err (no_free_subnets (max_subnet_index a)), a)))
      ⊎ ((0 < free_count a)
          × (is_ok (allocate a n).0 ≡ true)
          × (suc (free_count (allocate a n).1) ≡ free_count a))
unfolding get_allocation
subnet_counted a n v new = elim (Option-cases (free_index a.used (max_subnet_index a) 0)) [
  | inl full ↦
      let taken =
        length_full (max_subnet_index a) a.used v.used_distinct (λ i h.
          free_index-none a.used (max_subnet_index a) 0 i full (omega arith) (omega arith)) in
      inl (omega (arith, counts a v), allocate_full a n new full)
  | inr (idx, found) ↦
      let (_, below, free) = free_index-some a.used (max_subnet_index a) 0 idx found in
      let room =
        length_room (max_subnet_index a) idx a.used v.used_distinct v.in_range (omega arith) free in
      let after = take_index-Inv a v n idx new free (omega arith) in
      let (longer, same) = take_index-lengths a n idx free in
      rw (allocate_found a n new found) (
        inr (
          omega (arith, counts a v),
          refl,
          omega (arith, counts a v, counts (take_index a n idx) after),
        ))
]

-- After any calls of `Allocate` and `Release` on a new allocator: a node with no subnet is given one
-- exactly when a subnet is free; then one less is free. When none is free the call reports so and
-- changes nothing.
pub allocate-free_count :
    (base : IpNet) (bits : ℕ) {a : Allocator} (cs : List Call) (n : String)
    → new_allocator_custom (some base) bits ≡ ok a
    → get_allocation (run a cs) n ≡ none
    → ((free_count (run a cs) ≡ 0)
        × (allocate (run a cs) n ≡ (err (no_free_subnets (max_subnet_index (run a cs))), run a cs)))
      ⊎ ((0 < free_count (run a cs))
          × (is_ok (allocate (run a cs) n).0 ≡ true)
          × (suc (free_count (allocate (run a cs) n).1) ≡ free_count (run a cs)))
allocate-free_count base bits {a} cs n made new =
    subnet_counted (run a cs) n (run-new-Inv base bits cs made) new

-- Releasing a subnet frees exactly one, and releasing none reports so and changes nothing.
pub release-free_count :
    (a : Allocator) (n : String)
    → Inv a
    → ((get_allocation a n ≡ none) × (release a n ≡ (err (no_allocation n), a)))
      ⊎ ((release a n).0 ≡ ok tt)
        × (get_allocation (release a n).1 n ≡ none)
        × (free_count (release a n).1 ≡ suc (free_count a))
unfolding get_allocation
release-free_count a n v = elim (Option-cases (lookup n a.allocated)) [
  | inl lost ↦ inl (lost, release-none a n lost)
  | inr (s, held) ↦
      let (k, at, e) = release_lem a v n s held in
      let after = without-Inv a v n k at in
      rw e (
        inr (
          refl,
          ground (arith, lookup-delete n n a.allocated, beq_iff n n),
          omega (
            arith,
            counts a v,
            counts (without a n k) after,
            without-max a v n k at,
            length-delete k a.used v.used_distinct at,
          ),
        ))
]
