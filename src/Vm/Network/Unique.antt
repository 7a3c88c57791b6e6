-- ===== src/Vm/Network/Unique.antt =====
-- No address is handed out twice (internal/vm/network.go: AllocateNetwork).
use ussycode.Base.{
  ℕ, suc, ◌+◌, ◌/◌, ◌%◌, ◌^◌, ◌<◌, ◌≤◌, ◌≡◌, ◌≢◌, refl, sym, ◌∙◌, Bool, List, [], ◌∷◌, ◌++◌, length,
  nat_eq, ok, Text, decimal, decimal_injective, decimal_dotless, cut_injective, arith, Bool-cases,
  inl, inr,
}
use native.Mathlib.Nat.{mod-eq_of_lt}
use ussycode.Mesh.Net.{u32_mod}
use ussycode.Vm.Network.{
  NetworkManager, NetworkConfig, TapOutcome, contains, allocate_network, release_network, undo_tap,
  ip_string,
}
use ussycode.Vm.Network.Addresses.{NetworkCall, allocates, releases, network_step, network_run}

abbrev dot : ℕ
dot = 46

-- The texts from the third byte of an address on, and from the second.
abbrev last_two : ℕ → Text
last_two ip = decimal (ip / 2 ^ 8 % 256) ++ dot ∷ decimal (ip % 256)

abbrev last_three : ℕ → Text
last_three ip = decimal (ip / 2 ^ 16 % 256) ++ dot ∷ last_two ip

ip_string-parts : (ip : ℕ) → ip_string ip ≡ decimal (ip / 2 ^ 24) ++ dot ∷ last_three ip
unfolding ip_string
ip_string-parts ip = refl

ip_string_injective : (a b : ℕ) → ip_string a ≡ ip_string b → a ≡ b
ip_string_injective a b e =
    let parts = sym (ip_string-parts a) ∙ e ∙ ip_string-parts b in
    let one =
      cut_injective dot (decimal (a / 2 ^ 24)) (decimal (b / 2 ^ 24)) (last_three a) (last_three b)
        (decimal_dotless (a / 2 ^ 24)) (decimal_dotless (b / 2 ^ 24)) parts in
    let two =
      cut_injective dot (decimal (a / 2 ^ 16 % 256)) (decimal (b / 2 ^ 16 % 256)) (last_two a)
        (last_two b) (decimal_dotless (a / 2 ^ 16 % 256)) (decimal_dotless (b / 2 ^ 16 % 256))
        one.1 in
    let three =
      cut_injective dot (decimal (a / 2 ^ 8 % 256)) (decimal (b / 2 ^ 8 % 256)) (decimal (a % 256))
        (decimal (b % 256)) (decimal_dotless (a / 2 ^ 8 % 256)) (decimal_dotless (b / 2 ^ 8 % 256))
        two.1 in
    let byte1 = decimal_injective _ _ one.0 in
    let byte2 = decimal_injective _ _ two.0 in
    let byte3 = decimal_injective _ _ three.0 in
    let byte4 = decimal_injective _ _ three.1 in omega (arith, byte1, byte2, byte3, byte4)

undo_tap-next_ip :
    (deleted : Bool) (nm : NetworkManager) (vm_id tap : Text)
    → (undo_tap deleted nm vm_id tap).next_ip ≡ nm.next_ip
unfolding undo_tap
undo_tap-next_ip deleted nm vm_id tap = elim (Bool-cases deleted) [
  | inl gone ↦ rw gone refl
  | inr left ↦ rw left refl
]

-- The counter moves on whatever happens; a success answers with where it stood.
allocate-next_ip :
    (o : TapOutcome) (nm : NetworkManager) (vm_id : Text)
    → ((allocate_network o nm vm_id).1.next_ip ≡ (nm.next_ip + 1) % u32_mod)
      × ((cfg : NetworkConfig)
          → (allocate_network o nm vm_id).0 ≡ ok cfg
          → cfg.guest_ip ≡ ip_string nm.next_ip)
unfolding allocate_network
allocate-next_ip o nm vm_id = elim (Bool-cases (contains nm.subnet nm.next_ip)) [
  | inr outside ↦ rw outside (refl, λ cfg h. cc)
  | inl inside ↦ elim (Bool-cases o.created) [
    | inr refused ↦ rw (inside, refused) (refl, λ cfg h. cc)
    | inl created ↦ elim (Bool-cases o.attached) [
      | inr refused ↦
          rw (inside, created, refused) (undo_tap-next_ip o.deleted _ vm_id _, λ cfg h. cc)
      | inl attached ↦ elim (Bool-cases o.raised) [
        | inr refused ↦
            rw (inside, created, attached, refused)
              (undo_tap-next_ip o.deleted _ vm_id _, λ cfg h. cc)
        | inl raised ↦ rw (inside, created, attached, raised) (refl, λ cfg h. cc)
      ]
    ]
  ]
]

step-next_ip :
    (nm : NetworkManager) (c : NetworkCall)
    → suc nm.next_ip < u32_mod
    → (nm.next_ip ≤ (network_step nm c).next_ip) × ((network_step nm c).next_ip ≤ suc nm.next_ip)
unfolding network_step release_network
step-next_ip nm (releases deleted vm_id tap) small = (omega arith, omega arith)
step-next_ip nm (allocates o vm_id) small =
    let moved =
      (allocate-next_ip o nm vm_id).0
      ∙ mod-eq_of_lt {n = nm.next_ip + 1} {m = u32_mod} (omega arith) in
    (omega (arith, moved), omega (arith, moved))

run-next_ip :
    (cs : List NetworkCall) (nm : NetworkManager)
    → nm.next_ip + length cs < u32_mod
    → nm.next_ip ≤ (network_run nm cs).next_ip
unfolding network_run
run-next_ip [] nm small = omega arith
run-next_ip (c ∷ cs) nm small =
    let moved = step-next_ip nm c (omega arith) in
    let rest = run-next_ip cs (network_step nm c) (omega (arith, moved.1)) in
    omega (arith, moved.0, rest)

-- Two allocations that work are answered with different addresses, whatever calls come between
-- them, until the 32-bit counter wraps around.
pub addresses_differ :
    (nm : NetworkManager) (o o' : TapOutcome) (vm_id vm_id' : Text) (cs : List NetworkCall)
    (cfg cfg' : NetworkConfig)
    → suc nm.next_ip + length cs < u32_mod
    → (allocate_network o nm vm_id).0 ≡ ok cfg
    → (allocate_network o' (network_run (allocate_network o nm vm_id).1 cs) vm_id').0 ≡ ok cfg'
    → cfg.guest_ip ≢ cfg'.guest_ip
addresses_differ nm o o' vm_id vm_id' cs cfg cfg' small first second same =
    let later = network_run (allocate_network o nm vm_id).1 cs in
    let moved =
      (allocate-next_ip o nm vm_id).0
      ∙ mod-eq_of_lt {n = nm.next_ip + 1} {m = u32_mod} (omega (arith, small)) in
    let above = run-next_ip cs (allocate_network o nm vm_id).1 (omega (arith, moved, small)) in
    let answer = (allocate-next_ip o nm vm_id).1 cfg first in
    let answer' = (allocate-next_ip o' later vm_id').1 cfg' second in
    let equal = ip_string_injective nm.next_ip later.next_ip (sym answer ∙ same ∙ answer') in
    omega (arith, moved, above, equal)
