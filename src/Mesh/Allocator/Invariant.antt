-- ===== src/Mesh/Allocator/Invariant.antt =====
-- What holds of the allocator between two calls.
use ussycode.Base.{
  ℕ, zero, suc, ◌+◌, ◌<◌, ◌≤◌, ◌≡◌, ◌≢◌, String, none, some, GoMap, lookup, Distinct, nat_eq,
  string_eq, arith,
}
use ussycode.Mesh.Net.{IpNet}
use ussycode.Mesh.Allocator.{Allocator, max_subnet_index, subnet_for_index, free_index}

-- The two maps are one bijection between nodes and indices below the maximum, and a node's subnet
-- is the one that its index stands for.
pub record Inv (a : Allocator) : Type 0 where
  pub used_distinct : Distinct a.used
  pub allocated_distinct : Distinct a.allocated
  pub in_range : (i : ℕ) (n : String) → lookup i a.used ≡ some n → i < max_subnet_index a
  pub owned :
      (i : ℕ) (n : String)
      → lookup i a.used ≡ some n
      → lookup n a.allocated ≡ some (subnet_for_index a i)
  pub one_each :
      (i j : ℕ) (n : String) → lookup i a.used ≡ some n → lookup j a.used ≡ some n → i ≡ j
  pub indexed :
      (n : String) (s : IpNet)
      → lookup n a.allocated ≡ some s
      → (i : ℕ) × (lookup i a.used ≡ some n) × (s ≡ subnet_for_index a i)

-- A free index lies in the searched range, is free, and is the lowest such.
pub free_index-some :
    (used : GoMap ℕ String) (rounds idx i : ℕ)
    → free_index used rounds idx ≡ some i
    → (idx ≤ i) × (i < idx + rounds) × (lookup i used ≡ none)
unfolding free_index
free_index-some used zero idx i h = cc
free_index-some used (suc rounds) idx i h = ground (arith, free_index-some used rounds (suc idx) i)

pub free_index_lowest :
    (used : GoMap ℕ String) (rounds idx i j : ℕ)
    → free_index used rounds idx ≡ some i
    → idx ≤ j
    → j < i
    → lookup j used ≢ none
unfolding free_index
free_index_lowest used zero idx i j h p q e = cc
free_index_lowest used (suc rounds) idx i j h p q e =
    ground (arith, free_index_lowest used rounds (suc idx) i j)

pub free_index-none :
    (used : GoMap ℕ String) (rounds idx j : ℕ)
    → free_index used rounds idx ≡ none
    → idx ≤ j
    → j < idx + rounds
    → lookup j used ≢ none
unfolding free_index
free_index-none used zero idx j h p q e = absurd (omega arith)
free_index-none used (suc rounds) idx j h p q e =
    ground (arith, free_index-none used rounds (suc idx) j)
