-- ===== src/Vm/Network/Addresses.antt =====
-- The addresses over histories of calls (internal/vm/network.go: AllocateNetwork, ReleaseNetwork).
use native.Mathlib.Nat.{le-div_iff_mul-le, mod-eq_of_lt}
use ussycode.Base.{
  pow-pos, ap, ℕ, suc, ◌+◌, ◌-◌, ◌/◌, ◌%◌, ◌^◌, ◌<◌, ◌≤◌, ◌≡◌, refl, Bool, false, List, [], ◌∷◌,
  length, nat_eq, err, Text, arith, beq_iff,
}
use ussycode.Mesh.Net.{IpNet, u32_mod, mask_size}
use ussycode.Vm.Network.{
  NetworkManager, subnet_exhausted, TapOutcome, contains, allocate_network, release_network,
}

pub data NetworkCall : Type 0 where
  allocates : TapOutcome → Text → NetworkCall
  releases : Bool → Text → Text → NetworkCall

unfoldable pub network_step : NetworkManager → NetworkCall → NetworkManager
network_step nm (allocates o vm_id) = (allocate_network o nm vm_id).1
network_step nm (releases deleted vm_id tap) = release_network deleted nm vm_id tap

unfoldable pub network_run : NetworkManager → List NetworkCall → NetworkManager
network_run nm [] = nm
network_run nm (c ∷ cs) = network_run (network_step nm c) cs

-- No address at or above this one is of the subnet.
abbrev pub IsPast : IpNet → ℕ → Type 0
IsPast net ip = net.ip / 2 ^ (32 - mask_size net.mask) < ip / 2 ^ (32 - mask_size net.mask)

outside :
    (o : TapOutcome) (nm : NetworkManager) (vm_id : Text)
    → contains nm.subnet nm.next_ip ≡ false
    → allocate_network o nm vm_id
      ≡ (err subnet_exhausted, record nm { next_ip = (nm.next_ip + 1) % u32_mod })
unfolding allocate_network
outside o nm vm_id h = rw h refl

past_outside :
    (nm : NetworkManager) → IsPast nm.subnet nm.next_ip → contains nm.subnet nm.next_ip ≡ false
unfolding contains
past_outside nm h = ground (
  arith,
  beq_iff (nm.next_ip / 2 ^ (32 - mask_size nm.subnet.mask))
      (nm.subnet.ip / 2 ^ (32 - mask_size nm.subnet.mask)),
)

next-IsPast :
    (net : IpNet) (ip : ℕ) → IsPast net ip → suc ip < u32_mod → IsPast net ((ip + 1) % u32_mod)
next-IsPast net ip h small =
    let size = 2 ^ (32 - mask_size net.mask) in
    let positive = pow-pos (32 - mask_size net.mask) in
    let below = (le-div_iff_mul-le positive).0 h in
    rw (mod-eq_of_lt {n = ip + 1} {m = u32_mod} (omega (arith, small)))
      ((le-div_iff_mul-le positive).1 (omega (arith, below)))

allocate-IsPast :
    (nm : NetworkManager) (o : TapOutcome) (vm_id : Text)
    → IsPast nm.subnet nm.next_ip
    → suc nm.next_ip < u32_mod
    → IsPast (allocate_network o nm vm_id).1.subnet (allocate_network o nm vm_id).1.next_ip
      × ((allocate_network o nm vm_id).1.next_ip ≤ suc nm.next_ip)
allocate-IsPast nm o vm_id h small =
    let next = next-IsPast nm.subnet nm.next_ip h small in
    rw (outside o nm vm_id (past_outside nm h))
      (next, omega (arith, mod-eq_of_lt {n = nm.next_ip + 1} {m = u32_mod} (omega (arith, small))))

step-IsPast :
    (nm : NetworkManager) (c : NetworkCall)
    → IsPast nm.subnet nm.next_ip
    → suc nm.next_ip < u32_mod
    → IsPast (network_step nm c).subnet (network_step nm c).next_ip
      × ((network_step nm c).next_ip ≤ suc nm.next_ip)
unfolding network_step release_network
step-IsPast nm (releases deleted vm_id tap) h small = (h, omega arith)
step-IsPast nm (allocates o vm_id) h small = allocate-IsPast nm o vm_id h small

run-IsPast :
    (cs : List NetworkCall) (nm : NetworkManager)
    → IsPast nm.subnet nm.next_ip
    → nm.next_ip + length cs < u32_mod
    → IsPast (network_run nm cs).subnet (network_run nm cs).next_ip
unfolding network_run
run-IsPast [] nm h small = h
run-IsPast (c ∷ cs) nm h small =
    let after = step-IsPast nm c h (omega arith) in
    run-IsPast cs (network_step nm c) after.0 (omega (arith, after.1))

-- Once the next address lies past the subnet, every allocation fails as exhausted, whatever is
-- released in between and whatever the commands answer, until the 32-bit counter wraps around.
pub exhausted_for_good :
    (nm : NetworkManager) (cs : List NetworkCall) (o : TapOutcome) (vm_id : Text)
    → IsPast nm.subnet nm.next_ip
    → nm.next_ip + length cs < u32_mod
    → (allocate_network o (network_run nm cs) vm_id).0 ≡ err subnet_exhausted
exhausted_for_good nm cs o vm_id past small =
    let outside_it = past_outside (network_run nm cs) (run-IsPast cs nm past small) in
    ap (λ p. p.0) (outside o (network_run nm cs) vm_id outside_it)
