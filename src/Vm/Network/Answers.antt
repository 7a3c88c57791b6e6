-- ===== src/Vm/Network/Answers.antt =====
-- What an allocation leaves (internal/vm/network.go: AllocateNetwork).
use ussycode.Base.{
  ◌≡◌, refl, ◌⊎◌, Bool, some, list_eq, nat_eq, ok, err, lookup, lookup-insert_self, Text,
  Bool-cases, inl, inr,
}
use ussycode.Vm.Network.{
  NetworkManager, NetworkConfig, NetworkError, TapOutcome, contains, allocate_network, undo_tap,
  ip_string,
}

undo_tap-allocated :
    (deleted : Bool) (nm : NetworkManager) (vm_id tap : Text)
    → (undo_tap deleted nm vm_id tap).allocated ≡ nm.allocated
unfolding undo_tap
undo_tap-allocated deleted nm vm_id tap = elim (Bool-cases deleted) [
  | inl gone ↦ rw gone refl
  | inr left ↦ rw left refl
]

-- An allocation that fails keeps no address; one that works keeps the address that it answers.
pub allocate_network-cases :
    (o : TapOutcome) (nm : NetworkManager) (vm_id : Text)
    → ((e : NetworkError) × ((allocate_network o nm vm_id).0 ≡ err e)
        × ((allocate_network o nm vm_id).1.allocated ≡ nm.allocated))
      ⊎ ((cfg : NetworkConfig) × ((allocate_network o nm vm_id).0 ≡ ok cfg)
          × (lookup vm_id (allocate_network o nm vm_id).1.allocated ≡ some cfg.guest_ip))
unfolding allocate_network
allocate_network-cases o nm vm_id = elim (Bool-cases (contains nm.subnet nm.next_ip)) [
  | inr outside ↦ rw outside (inl (_, refl, refl))
  | inl inside ↦ elim (Bool-cases o.created) [
    | inr refused ↦ rw (inside, refused) (inl (_, refl, refl))
    | inl created ↦ elim (Bool-cases o.attached) [
      | inr refused ↦
          rw (inside, created, refused) (inl (_, refl, undo_tap-allocated o.deleted _ vm_id _))
      | inl attached ↦ elim (Bool-cases o.raised) [
        | inr refused ↦
            rw (inside, created, attached, refused)
              (inl (_, refl, undo_tap-allocated o.deleted _ vm_id _))
        | inl raised ↦
            rw (inside, created, attached, raised)
              (inr (_, refl, lookup-insert_self vm_id (ip_string nm.next_ip) nm.allocated))
      ]
    ]
  ]
]
