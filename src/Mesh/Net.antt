-- ===== src/Mesh/Net.antt =====
-- IPv4 networks as the allocator (internal/mesh/allocator.go) uses them: Go's `net.IPNet` with
-- the address as the 32-bit number that `ipToUint32` reads. `uint32` arithmetic wraps.
use ussycode.Base.{ℕ, ◌%◌, ◌^◌, Option, none, some, leb, if◌then◌else◌}

-- `mask` is the prefix length, or `none` for the nil mask that `net.CIDRMask` returns for a
-- length above 32.
pub record IpNet : Type 0 where
  pub ip : ℕ
  pub mask : Option ℕ

abbrev pub u32_mod : ℕ
u32_mod = 4294967296

-- `uint32(1) << uint(n)`, for a shift count that Go's conversion leaves as it is.
unfoldable pub shl_one : ℕ → ℕ
shl_one n = 2 ^ n % u32_mod

-- `net.CIDRMask(ones, 32)`.
unfoldable pub cidr_mask : ℕ → Option ℕ
cidr_mask ones = if leb ones 32 then some ones else none

-- `Mask.Size()`, its first result.
unfoldable pub mask_size : Option ℕ → ℕ
mask_size none = 0
mask_size (some ones) = ones
