-- ===== src/Mesh/Allocator/Numbering.antt =====
-- The arithmetic of the subnet numbers (internal/mesh/allocator.go: subnetForIndex,
-- indexForSubnet): within a well-formed base network nothing wraps.
use native.Mathlib.Nat.{
  mul-le-mul_right, div-add-mod, div-lt_iff_lt-mul, mul-div_cancel, mod-eq_of_lt, mod-le,
  pow-le-pow_right,
}
use ussycode.Base.{
  ℕ, suc, ◌+◌, ◌-◌, ◌*◌, ◌/◌, ◌%◌, ◌^◌, ◌<◌, ◌≤◌, ◌≡◌, some, pow-pos, pow-mul-sub, arith,
}
use ussycode.Mesh.Net.{IpNet, u32_mod}
use ussycode.Mesh.Allocator.{
  Allocator, max_subnet_index, subnet_size, subnet_for_index, index_for_subnet,
}

-- An aligned IPv4 network of prefix length `bits`, as `net.ParseCIDR` returns one.
pub record IsNetwork (net : IpNet) (bits : ℕ) : Type 0 where
  pub masked : net.mask ≡ some bits
  pub word : net.ip < 2 ^ 32
  pub aligned : net.ip % 2 ^ (32 - bits) ≡ 0

-- The subnets are longer prefixes than the base network's, of at most 32 bits.
pub record IsNumbered (a : Allocator) (bits : ℕ) : Type 0 where
  pub network : IsNetwork a.base_net bits
  pub open network use *
  pub longer : bits < a.subnet_bits
  pub fits : a.subnet_bits ≤ 32

-- An aligned block that begins below 2 ^ 32 ends there at the latest.
aligned-le :
    (ip bits : ℕ)
    → bits ≤ 32
    → ip < 2 ^ 32
    → ip % 2 ^ (32 - bits) ≡ 0
    → ip + 2 ^ (32 - bits) ≤ 2 ^ 32
aligned-le ip bits h lt al =
    let size = 2 ^ (32 - bits) in
    let whole : 2 ^ bits * size ≡ 2 ^ 32 = pow-mul-sub 32 bits h in
    let quotient : ip / size < 2 ^ bits =
      (div-lt_iff_lt-mul (pow-pos (32 - bits))).1 (omega (arith, whole)) in
    let scaled : suc (ip / size) * size ≤ 2 ^ bits * size = mul-le-mul_right size quotient in
    omega (arith, div-add-mod ip size, whole, scaled)

module _ (a : Allocator) (bits : ℕ) (ok : IsNumbered a bits) where
  pub subnet_size_lem : subnet_size a ≡ 2 ^ (32 - a.subnet_bits)
  unfolding subnet_size
  subnet_size_lem =
      let small : 2 ^ (32 - a.subnet_bits) ≤ 2 ^ 31 =
        pow-le-pow_right {n = 2} (omega arith) {j = 31} (omega (arith, ok)) in
      ground
        (arith, ok.fits, mod-eq_of_lt {n = 2 ^ (32 - a.subnet_bits)} {m = u32_mod} (omega arith))

  max_subnet_index-le : max_subnet_index a ≤ 2 ^ (a.subnet_bits - bits)
  unfolding max_subnet_index
  max_subnet_index-le =
      ground (arith, ok.longer, ok.masked, mod-le (2 ^ (a.subnet_bits - bits)) u32_mod)

  pub subnet_size-pos : 0 < subnet_size a
  subnet_size-pos = rw subnet_size_lem (pow-pos (32 - a.subnet_bits))

  -- The subnet of an index below the maximum lies inside the base network.
  pub numbered-le :
      (i : ℕ) → i < max_subnet_index a → i * subnet_size a + subnet_size a ≤ 2 ^ (32 - bits)
  numbered-le i h =
      let size = 2 ^ (32 - a.subnet_bits) in
      let many : suc i * size ≤ 2 ^ (a.subnet_bits - bits) * size =
        mul-le-mul_right size (omega (arith, max_subnet_index-le)) in
      let gap : 32 - bits - (32 - a.subnet_bits) ≡ a.subnet_bits - bits = omega (arith, ok) in
      let whole : size * 2 ^ (32 - bits - (32 - a.subnet_bits)) ≡ 2 ^ (32 - bits) =
        pow-mul-sub (32 - bits) (32 - a.subnet_bits) (omega (arith, ok)) in
      rw subnet_size_lem (omega (arith, rw gap at whole))

  numbered_bound :
      (i : ℕ) → i < max_subnet_index a → a.base_net.ip + i * subnet_size a + subnet_size a ≤ 2 ^ 32
  numbered_bound i h =
      let base : a.base_net.ip + 2 ^ (32 - bits) ≤ 2 ^ 32 =
        aligned-le a.base_net.ip bits (omega (arith, ok)) ok.word ok.aligned in
      omega (arith, numbered-le i h)

  pub subnet_for_index-ip :
      (i : ℕ)
      → i < max_subnet_index a
      → (subnet_for_index a i).ip ≡ a.base_net.ip + i * subnet_size a
  unfolding subnet_for_index
  subnet_for_index-ip i h =
      let bound = numbered_bound i h in
      let pos = subnet_size-pos in
      rw (mod-eq_of_lt {n = i * subnet_size a} {m = u32_mod} (omega arith))
        (mod-eq_of_lt (omega arith))

  -- A subnet's index is read back from its address.
  pub index_for_subnet-subnet_for_index :
      (i : ℕ) → i < max_subnet_index a → index_for_subnet a (subnet_for_index a i) ≡ i
  unfolding index_for_subnet
  index_for_subnet-subnet_for_index i h =
      let bound = numbered_bound i h in
      let pos = subnet_size-pos in
      let shifted : (a.base_net.ip + i * subnet_size a + u32_mod - a.base_net.ip) % u32_mod
          ≡ i * subnet_size a =
        omega arith in
      let divided : i * subnet_size a / subnet_size a ≡ i = mul-div_cancel i pos in
      rw (subnet_for_index-ip i h, shifted, divided) (ground arith)
