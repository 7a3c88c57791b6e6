-- ===== src/Mesh/Allocator/Giving.antt =====
-- `Release` keeps the allocator's invariant (internal/mesh/allocator.go).
use ussycode.Base.{
  ℕ, ◌<◌, ◌≡◌, refl, ◌≢◌, inl, inr, String, none, some, [], ◌∷◌, GoMap, lookup, delete,
  delete-Distinct, lookup-delete, Distinct, beq_iff, nat_eq, string_eq, Option-cases, arith, ok,
  err,
}
use ussycode.Mesh.Net.{IpNet}
use ussycode.Mesh.Allocator.{
  Allocator, max_subnet_index, subnet_size, subnet_for_index, index_of, release_index, release,
  no_allocation,
}
use ussycode.Mesh.Allocator.Invariant.{Inv}

index_of-some :
    (n : String) (used : GoMap ℕ String) (i : ℕ)
    → Distinct used
    → index_of n used ≡ some i
    → lookup i used ≡ some n
unfolding index_of lookup
index_of-some n [] i d h = cc
index_of-some n ((j, m) ∷ used) i d h =
    ground (arith, index_of-some n used i d.1, beq_iff m n, beq_iff j i)

index_of-none :
    (n : String) (used : GoMap ℕ String) (i : ℕ) → index_of n used ≡ none → lookup i used ≢ some n
unfolding index_of lookup
index_of-none n [] i h e = cc
index_of-none n ((j, m) ∷ used) i h e = ground (arith, index_of-none n used i, beq_iff m n)

-- The allocator without node `n` and index `k`.
abbrev pub without : Allocator → String → ℕ → Allocator
without a n k = record a { used = delete k a.used; allocated = delete n a.allocated }

module _ (a : Allocator) (v : Inv a) (n : String) (k : ℕ) (at : lookup k a.used ≡ some n) where
  pub without-max : max_subnet_index (without a n k) ≡ max_subnet_index a
  unfolding max_subnet_index
  without-max = refl

  without-subnet : (i : ℕ) → subnet_for_index (without a n k) i ≡ subnet_for_index a i
  unfolding subnet_for_index subnet_size
  without-subnet i = refl

  without-in_range :
      (i : ℕ) (m : String)
      → lookup i (delete k a.used) ≡ some m
      → i < max_subnet_index (without a n k)
  without-in_range i m h = ground (arith, without-max, lookup-delete k i a.used, v.in_range i m)

  without-owned :
      (i : ℕ) (m : String)
      → lookup i (delete k a.used) ≡ some m
      → lookup m (delete n a.allocated) ≡ some (subnet_for_index (without a n k) i)
  without-owned i m h = ground (
    arith,
    without-subnet i,
    lookup-delete k i a.used,
    lookup-delete n m a.allocated,
    v.owned i m,
    v.one_each i k n,
    beq_iff n m,
    beq_iff k i,
  )

  without-one_each :
      (i j : ℕ) (m : String)
      → lookup i (delete k a.used) ≡ some m
      → lookup j (delete k a.used) ≡ some m
      → i ≡ j
  without-one_each i j m h e =
      ground (arith, lookup-delete k i a.used, lookup-delete k j a.used, v.one_each i j m)

  without-indexed :
      (m : String) (s : IpNet)
      → lookup m (delete n a.allocated) ≡ some s
      → (i : ℕ) × (lookup i (delete k a.used) ≡ some m) × (s ≡ subnet_for_index (without a n k) i)
  without-indexed m s h =
      let old : lookup m a.allocated ≡ some s = ground (arith, lookup-delete n m a.allocated) in
      let (i, used, e) = v.indexed m s old in
      (
        i,
        ground (
          arith,
          lookup-delete k i a.used,
          lookup-delete n m a.allocated,
          beq_iff k i,
          beq_iff n m,
        ),
        ground (arith, without-subnet i),
      )

  pub without-Inv : Inv (without a n k)
  without-Inv = record {
    used_distinct = delete-Distinct k a.used v.used_distinct;
    allocated_distinct = delete-Distinct n a.allocated v.allocated_distinct;
    in_range = without-in_range;
    owned = without-owned;
    one_each = without-one_each;
    indexed = without-indexed;
  }

-- A node that holds a subnet loses it together with the index that the subnet stands for.
pub release_lem :
    (a : Allocator) (v : Inv a) (n : String) (s : IpNet)
    → lookup n a.allocated ≡ some s
    → (k : ℕ) × (lookup k a.used ≡ some n) × (release a n ≡ (ok tt, without a n k))
unfolding release release_index
release_lem a v n s h = elim (Option-cases (index_of n a.used)) [
  | inl lost ↦ let (i, used, e) = v.indexed n s h in absurd (index_of-none n a.used i lost used)
  | inr (k, found) ↦ (
    k,
    index_of-some n a.used k v.used_distinct found,
    rw (h, release) (rw (found, release_index)),
  )
]

pub release-none :
    (a : Allocator) (n : String)
    → lookup n a.allocated ≡ none
    → release a n ≡ (err (no_allocation n), a)
unfolding release
release-none a n lost = rw (lost, release)

pub release-Inv : (a : Allocator) (n : String) → Inv a → Inv (release a n).1
release-Inv a n v = elim (Option-cases (lookup n a.allocated)) [
  | inl lost ↦ rw (release-none a n lost) v
  | inr (s, held) ↦ let (k, at, e) = release_lem a v n s held in rw e (without-Inv a v n k at)
]
