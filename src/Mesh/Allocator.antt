-- ===== src/Mesh/Allocator.antt =====
-- The subnet allocator (internal/mesh/allocator.go): the state, and one function for each
-- operation. The lock makes each call one step; the log calls are left out.
pub mod Invariant
pub mod Taking
pub mod Giving
pub mod Numbering
pub mod Counting
pub mod History
pub mod Answers
use ussycode.Base.{
  ℕ, zero, suc, ◌+◌, ◌-◌, ◌*◌, ◌/◌, ◌%◌, String, Option, none, some, List, [], ◌∷◌, GoMap, lookup,
  insert, delete, length, leb, if◌then◌else◌, ◌==◌, nat_eq, string_eq, Result, ok, err,
}
use ussycode.Mesh.Net.{IpNet, u32_mod, shl_one, cidr_mask, mask_size}

pub record Allocator : Type 0 where
  pub base_net : IpNet
  pub subnet_bits : ℕ
  pub allocated : GoMap String IpNet
  pub used : GoMap ℕ String

pub data AllocatorError : Type 0 where
  bad_base_cidr : AllocatorError
  bad_subnet_bits : ℕ → ℕ → AllocatorError
  no_free_subnets : ℕ → AllocatorError
  no_allocation : String → AllocatorError

-- `maxSubnetIndex`: a negative shift count turns into one that shifts everything out.
unfoldable pub max_subnet_index : Allocator → ℕ
unfolding shl_one mask_size
max_subnet_index a =
    let base_bits = mask_size a.base_net.mask in
    if leb base_bits a.subnet_bits then shl_one (a.subnet_bits - base_bits) else 0

-- The width of a subnet, `uint32(1) << uint(32-a.subnetBits)`.
unfoldable pub subnet_size : Allocator → ℕ
unfolding shl_one
subnet_size a = if leb a.subnet_bits 32 then shl_one (32 - a.subnet_bits) else 0

unfoldable pub subnet_for_index : Allocator → ℕ → IpNet
unfolding cidr_mask
subnet_for_index a idx = record {
  ip = (a.base_net.ip + idx * subnet_size a % u32_mod) % u32_mod;
  mask = cidr_mask a.subnet_bits;
}

unfoldable pub index_for_subnet : Allocator → IpNet → ℕ
index_for_subnet a subnet =
    if subnet_size a == 0
    then 0
    else (subnet.ip + u32_mod - a.base_net.ip) % u32_mod / subnet_size a

-- `NewAllocatorCustom` behind `net.ParseCIDR`, whose result is `base`.
unfoldable pub new_allocator_custom : Option IpNet → ℕ → Result AllocatorError Allocator
unfolding mask_size
new_allocator_custom none subnet_bits = err bad_base_cidr
new_allocator_custom (some base) subnet_bits =
    if leb subnet_bits (mask_size base.mask)
    then err (bad_subnet_bits subnet_bits (mask_size base.mask))
    else ok (record { base_net = base; subnet_bits = subnet_bits; allocated = []; used = [] })

-- `NewAllocator`: 100.64.0.0/10 in subnets of /24.
unfoldable pub new_allocator : Allocator
new_allocator = record {
  base_net = record { ip = 1681915904; mask = some 10 };
  subnet_bits = 24;
  allocated = [];
  used = [];
}

-- The loop of `Allocate`, with `rounds` indices from `idx` on left to try.
unfoldable pub free_index : GoMap ℕ String → ℕ → ℕ → Option ℕ
free_index used zero idx = none
free_index used (suc rounds) idx = elim (lookup idx used) [
  | none ↦ some idx
  | some _ ↦ free_index used rounds (suc idx)
]

-- The assignments of the loop's body.
unfoldable pub take_index : Allocator → String → ℕ → Allocator
take_index a node_id idx = record a {
  allocated = insert node_id (subnet_for_index a idx) a.allocated;
  used = insert idx node_id a.used;
}

unfoldable pub allocate_new :
    Allocator → String → Option ℕ → Result AllocatorError IpNet × Allocator
unfolding take_index
allocate_new a node_id none = (err (no_free_subnets (max_subnet_index a)), a)
allocate_new a node_id (some idx) = (ok (subnet_for_index a idx), take_index a node_id idx)

unfoldable pub allocate : Allocator → String → Result AllocatorError IpNet × Allocator
unfolding allocate_new
allocate a node_id = elim (lookup node_id a.allocated) [
  | some subnet ↦ (ok subnet, a)
  | none ↦ allocate_new a node_id (free_index a.used (max_subnet_index a) 0)
]

-- The loop of `Release` over `used`: the first index found for the node goes.
unfoldable pub index_of : String → GoMap ℕ String → Option ℕ
index_of node_id [] = none
index_of node_id ((idx, nid) ∷ rest) = if nid == node_id then some idx else index_of node_id rest

unfoldable pub release_index : String → GoMap ℕ String → GoMap ℕ String
release_index node_id used = elim (index_of node_id used) [
  | none ↦ used
  | some idx ↦ delete idx used
]

unfoldable pub release : Allocator → String → Result AllocatorError (Unit {0}) × Allocator
unfolding release_index
release a node_id = elim (lookup node_id a.allocated) [
  | none ↦ (err (no_allocation node_id), a)
  | some subnet ↦ (
    ok tt,
    record a { used = release_index node_id a.used; allocated = delete node_id a.allocated },
  )
]

unfoldable pub get_allocation : Allocator → String → Option IpNet
get_allocation a node_id = lookup node_id a.allocated

-- `uint32` subtraction of the number of entries.
unfoldable pub free_count : Allocator → ℕ
free_count a = (max_subnet_index a + u32_mod - length a.used % u32_mod) % u32_mod

unfoldable pub allocated_count : Allocator → ℕ
allocated_count a = length a.used % u32_mod
