-- ===== src/Mesh/Allocator/History.antt =====
-- What holds of the allocator (internal/mesh/allocator.go) after any calls of Allocate and Release
-- on a new one.
use native.Mathlib.Nat.{mul-le-mul_right}
use native.Mathlib.Decide.{dec_lt}
use ussycode.Base.{
  ℕ, suc, ◌+◌, ◌-◌, ◌*◌, ◌^◌, ◌<◌, ◌≤◌, ◌≡◌, refl, ◌∙◌, ◌≢◌, ◌⊎◌, inl, inr, some, String, List, [],
  ◌∷◌, Option-cases, Bool-cases, beq_iff, ◌==◌, lookup, ok, arith, string_eq, nat_eq,
}
use ussycode.Mesh.Net.{IpNet, mask_size}
use ussycode.Mesh.Allocator.{
  Allocator, max_subnet_index, subnet_size, free_index, take_index, allocate, release,
  get_allocation, new_allocator_custom,
}
use ussycode.Mesh.Allocator.Invariant.{Inv}
use ussycode.Mesh.Allocator.Taking.{allocate-Inv, allocate_again, allocate_full, allocate_found}
use ussycode.Mesh.Allocator.Giving.{release-Inv}
use ussycode.Mesh.Allocator.Numbering.{
  IsNumbered, IsNetwork, subnet_for_index-ip, subnet_size_lem, numbered-le,
}

pub data Call : Type 0 where
  allocates releases : String → Call

unfoldable pub step : Allocator → Call → Allocator
step a (allocates n) = (allocate a n).1
step a (releases n) = (release a n).1

unfoldable pub run : Allocator → List Call → Allocator
run a [] = a
run a (c ∷ cs) = run (step a c) cs

-- No call touches the base network or the subnet length.
abbrev pub SameConfig : Allocator → Allocator → Type 0
SameConfig a b = (b.base_net ≡ a.base_net) × (b.subnet_bits ≡ a.subnet_bits)

allocate-SameConfig : (a : Allocator) (n : String) → SameConfig a (allocate a n).1
unfolding take_index
allocate-SameConfig a n = elim (Option-cases (lookup n a.allocated)) [
  | inr (s, old) ↦ rw (allocate_again a n old) (refl, refl)
  | inl new ↦ elim (Option-cases (free_index a.used (max_subnet_index a) 0)) [
    | inl full ↦ rw (allocate_full a n new full) (refl, refl)
    | inr (idx, found) ↦ rw (allocate_found a n new found) (refl, refl)
  ]
]

release-SameConfig : (a : Allocator) (n : String) → SameConfig a (release a n).1
unfolding release
release-SameConfig a n = ground arith

step-SameConfig : (a : Allocator) (c : Call) → SameConfig a (step a c)
unfolding step
step-SameConfig a (allocates n) = allocate-SameConfig a n
step-SameConfig a (releases n) = release-SameConfig a n

pub run-SameConfig : (a : Allocator) (cs : List Call) → SameConfig a (run a cs)
unfolding run
run-SameConfig a [] = (refl, refl)
run-SameConfig a (c ∷ cs) =
    let (base, bits) = step-SameConfig a c in
    let (base', bits') = run-SameConfig (step a c) cs in (base' ∙ base, bits' ∙ bits)

step-Inv : (a : Allocator) (c : Call) → Inv a → Inv (step a c)
unfolding step
step-Inv a (allocates n) = allocate-Inv a n
step-Inv a (releases n) = release-Inv a n

run-Inv : (a : Allocator) (cs : List Call) → Inv a → Inv (run a cs)
unfolding run
run-Inv a [] v = v
run-Inv a (c ∷ cs) v = run-Inv (step a c) cs (step-Inv a c v)

pub new_lem :
    (base : IpNet) (bits : ℕ) {a : Allocator}
    → new_allocator_custom (some base) bits ≡ ok a
    → (a.used ≡ [])
      × (a.allocated ≡ [])
      × (a.base_net ≡ base)
      × (a.subnet_bits ≡ bits)
      × (mask_size base.mask < bits)
unfolding new_allocator_custom
new_lem base bits h = ground arith

empty-Inv : (a : Allocator) → a.used ≡ [] → a.allocated ≡ [] → Inv a
unfolding lookup
empty-Inv a u l = record {
  used_distinct = rw u tt;
  allocated_distinct = rw l tt;
  in_range = λ i n h. ground (arith, u);
  owned = λ i n h. ground (arith, u);
  one_each = λ i j n h k. ground (arith, u);
  indexed = λ n s h. absurd (ground (arith, l));
}

-- Whatever the calls, the maps of a new allocator stay a bijection between nodes and indices in range.
pub run-new-Inv :
    (base : IpNet) (bits : ℕ) {a : Allocator} (cs : List Call)
    → new_allocator_custom (some base) bits ≡ ok a
    → Inv (run a cs)
run-new-Inv base bits {a} cs h =
    let (u, l, _, _, _) = new_lem base bits h in run-Inv a cs (empty-Inv a u l)

blocks_apart : (size i j : ℕ) → i ≢ j → (i * size + size ≤ j * size) ⊎ (j * size + size ≤ i * size)
blocks_apart size i j h = elim (dec_lt i j) [
  | yes less ↦
      let scaled : suc i * size ≤ j * size = mul-le-mul_right size less in inl (omega arith)
  | no more ↦
      let least : suc j ≤ i = omega arith in
      let scaled : suc j * size ≤ i * size = mul-le-mul_right size least in inr (omega arith)
]

-- The addresses of two networks with `size` addresses each do not overlap.
abbrev pub Apart : ℕ → IpNet → IpNet → Type 0
Apart size s t = (s.ip + size ≤ t.ip) ⊎ (t.ip + size ≤ s.ip)

-- A network of `size` addresses lies within a network of `whole` addresses.
abbrev pub Within : ℕ → IpNet → ℕ → IpNet → Type 0
Within size s whole base = (base.ip ≤ s.ip) × (s.ip + size ≤ base.ip + whole)

module _ (a : Allocator) (bits : ℕ) (ok : IsNumbered a bits) (v : Inv a) where
  allocated-Within :
      (n : String) (s : IpNet)
      → get_allocation a n ≡ some s
      → Within (2 ^ (32 - a.subnet_bits)) s (2 ^ (32 - bits)) a.base_net
  unfolding get_allocation
  allocated-Within n s h =
      let (i, used, e) = v.indexed n s h in
      let below = v.in_range i n used in
      rw (e, subnet_for_index-ip a bits ok i below, ← subnet_size_lem a bits ok)
        (omega (arith, numbered-le a bits ok i below))

  allocated-Apart :
      (n m : String) (s t : IpNet)
      → n ≢ m
      → get_allocation a n ≡ some s
      → get_allocation a m ≡ some t
      → Apart (2 ^ (32 - a.subnet_bits)) s t
  unfolding get_allocation
  allocated-Apart n m s t ne h k =
      let (i, used, e) = v.indexed n s h in
      let (j, used', e') = v.indexed m t k in
      let differ : i ≢ j = λ same. ne (cc) in
      rw
        (
          e,
          e',
          subnet_for_index-ip a bits ok i (v.in_range i n used),
          subnet_for_index-ip a bits ok j (v.in_range j m used'),
          ← subnet_size_lem a bits ok,
        )
        (omega (arith, blocks_apart (subnet_size a) i j differ))

-- After any calls of `Allocate` and `Release` on a new allocator over a network as `net.ParseCIDR`
-- returns one, with subnets of at most 32 bits: every subnet handed out lies inside the base
-- network, and the subnets of two nodes share no address.
pub subnets_disjoint :
    (base : IpNet) (bits subnet_bits : ℕ) {a : Allocator} (cs : List Call)
    → IsNetwork base bits
    → subnet_bits ≤ 32
    → new_allocator_custom (some base) subnet_bits ≡ ok a
    → (n m : String) (s t : IpNet) → get_allocation (run a cs) n ≡ some s
    → get_allocation (run a cs) m ≡ some t
    → Within (2 ^ (32 - subnet_bits)) s (2 ^ (32 - bits)) base
      × ((n ≡ m) ⊎ Apart (2 ^ (32 - subnet_bits)) s t)
unfolding mask_size
subnets_disjoint base bits subnet_bits {a} cs net fit h n m s t hn hm =
    let (_, _, eb, es, lt) = new_lem base subnet_bits h in
    let (rb, rs) = run-SameConfig a cs in
    let same_base = rb ∙ eb in
    let same_bits = rs ∙ es in
    let v = run-new-Inv base subnet_bits cs h in
    let numbered : IsNumbered (run a cs) bits = record {
      network = rw same_base net;
      longer = rw same_bits (ground (arith, net.masked));
      fits = rw same_bits fit;
    } in
    rw (← same_base, ← same_bits)
      (
        allocated-Within (run a cs) bits numbered v n s hn,
        elim (Bool-cases (n == m)) [
          | inl same ↦ inl ((beq_iff n m).0 same)
          | inr differs ↦ inr (
              allocated-Apart (run a cs) bits numbered v n m s t
                (λ e. let same = (beq_iff n m).1 e in cc) hn hm)
        ],
      )
