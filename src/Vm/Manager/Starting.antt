-- ===== src/Vm/Manager/Starting.antt =====
-- The steps of starting a VM, one after the other (internal/vm/manager.go: CreateAndStart, Start).
use ussycode.Base.{
  ◌∙◌, ap, ℕ, ◌≡◌, refl, ◌⊎◌, true, false, Option, none, some, String, nat_eq, list_eq, Result, ok,
  err, lookup, Text, decimal, Bool-cases, inl, inr,
}
use ussycode.Vm.Network.{NetworkManager, NetworkConfig, NetworkError}
use ussycode.Vm.Network.Answers.{allocate_network-cases}
use ussycode.Vm.Manager.{
  Manager, Attempt, FileOutcome, written, nothing_written, partly_written, link_failed, nat_failed,
  ready, rootfs_missing, BridgeOutcome, allocate, setup_bridge, create_data_disk, copy_rootfs,
  seed_keys, ensure_rootfs, set_status, with_network, with_data_disk, after_allocation,
  after_bridge, make_data_disk, copy_image, with_image, left_of, create_and_start, start, has_disk,
}
use ussycode.Vm.Manager.Boot.{Settled, fail_with-Failed, boot-Settled}

after_allocation-Settled :
    (now : ℕ) (a : Attempt) (before m : Manager) (vm_id : ℕ) (name : Text) (image : Option String)
    (answer : Result NetworkError NetworkConfig) (network : NetworkManager)
    → m.running ≡ before.running
    → m.rules ≡ left_of a before.rules
    → (lookup (decimal vm_id) before.network.allocated ≡ none
        → lookup (decimal vm_id) m.network.allocated ≡ none)
    → ((e : NetworkError) × (answer ≡ err e) × (network.allocated ≡ m.network.allocated))
      ⊎ ((cfg : NetworkConfig) × (answer ≡ ok cfg)
          × (lookup (decimal vm_id) network.allocated ≡ some cfg.guest_ip))
    → Settled a vm_id before (after_allocation now a m vm_id name image (answer, network))
unfolding after_allocation
after_allocation-Settled now a before m vm_id name image (err e) network same flushed free
      (inl (e', h, kept)) =
    inl (
      fail_with-Failed now before _ vm_id (allocate e) same
        (λ k. ap (lookup (decimal vm_id)) kept ∙ free k))
after_allocation-Settled now a before m vm_id name image (err e) network same flushed free
      (inr (cfg, h, kept)) =
    absurd (cc h)
after_allocation-Settled now a before m vm_id name image (ok cfg) network same flushed free
      (inl (e', h, kept)) =
    absurd (cc h)
after_allocation-Settled now a before m vm_id name image (ok cfg) network same flushed free
      (inr (cfg', h, kept)) =
    let equal : cfg' ≡ cfg = cc h in
    boot-Settled now a before _ vm_id name image cfg same (rw equal at kept) flushed

after_bridge-Settled :
    (now : ℕ) (a : Attempt) (before m : Manager) (vm_id : ℕ) (name : Text) (image : Option String)
    (bridge : BridgeOutcome)
    → m.running ≡ before.running
    → m.rules ≡ before.rules
    → (lookup (decimal vm_id) before.network.allocated ≡ none
        → lookup (decimal vm_id) m.network.allocated ≡ none)
    → Settled a vm_id before (after_bridge now a m vm_id name image bridge)
unfolding after_bridge
after_bridge-Settled now a before m vm_id name image link_failed same ruled free =
    inl (fail_with-Failed now before m vm_id setup_bridge same free)
after_bridge-Settled now a before m vm_id name image nat_failed same ruled free =
    inl (fail_with-Failed now before _ vm_id setup_bridge same free)
after_bridge-Settled now a before m vm_id name image ready same ruled free =
    after_allocation-Settled now a before (record m { rules = left_of a m.rules }) vm_id name image
      _ _ same (ap (left_of a) ruled) free (allocate_network-cases a.tap m.network (decimal vm_id))

with_network-Settled :
    (now : ℕ) (a : Attempt) (before m : Manager) (vm_id : ℕ) (name : Text) (image : Option String)
    → m.running ≡ before.running
    → m.rules ≡ before.rules
    → (lookup (decimal vm_id) before.network.allocated ≡ none
        → lookup (decimal vm_id) m.network.allocated ≡ none)
    → Settled a vm_id before (with_network now a m vm_id name image)
unfolding with_network
with_network-Settled now a before m vm_id name image =
    after_bridge-Settled now a before m vm_id name image a.bridge

make_data_disk-Settled :
    (now : ℕ) (a : Attempt) (before m : Manager) (vm_id : ℕ) (name : Text) (image : Option String)
    (file : FileOutcome)
    → m.running ≡ before.running
    → m.rules ≡ before.rules
    → (lookup (decimal vm_id) before.network.allocated ≡ none
        → lookup (decimal vm_id) m.network.allocated ≡ none)
    → Settled a vm_id before (make_data_disk now a m vm_id name image file)
unfolding make_data_disk
make_data_disk-Settled now a before m vm_id name image written same ruled free =
    with_network-Settled now a before _ vm_id name image same ruled free
make_data_disk-Settled now a before m vm_id name image nothing_written same ruled free =
    inl (fail_with-Failed now before _ vm_id create_data_disk same free)
make_data_disk-Settled now a before m vm_id name image partly_written same ruled free =
    inl (fail_with-Failed now before _ vm_id create_data_disk same free)

with_data_disk-Settled :
    (now : ℕ) (a : Attempt) (before m : Manager) (vm_id : ℕ) (name : Text) (image : Option String)
    → m.running ≡ before.running
    → m.rules ≡ before.rules
    → (lookup (decimal vm_id) before.network.allocated ≡ none
        → lookup (decimal vm_id) m.network.allocated ≡ none)
    → Settled a vm_id before (with_data_disk now a m vm_id name image)
unfolding with_data_disk
with_data_disk-Settled now a before m vm_id name image same ruled free =
    elim (Bool-cases (has_disk vm_id m.data_disks)) [
      | inl old ↦ rw old (with_network-Settled now a before m vm_id name image same ruled free)
      | inr new ↦
          rw new
            (make_data_disk-Settled now a before m vm_id name image a.data_disk same ruled free)
    ]

copy_image-Settled :
    (now : ℕ) (a : Attempt) (before m : Manager) (vm_id : ℕ) (name : Text) (image : Option String)
    (file : FileOutcome)
    → m.running ≡ before.running
    → m.rules ≡ before.rules
    → (lookup (decimal vm_id) before.network.allocated ≡ none
        → lookup (decimal vm_id) m.network.allocated ≡ none)
    → Settled a vm_id before (copy_image now a m vm_id name image file)
unfolding copy_image
copy_image-Settled now a before m vm_id name image written same ruled free =
    elim (Bool-cases a.keys_seeded) [
      | inl seeded ↦
          simp seeded (with_data_disk-Settled now a before _ vm_id name image same ruled free)
      | inr failed ↦ simp failed (inl (fail_with-Failed now before _ vm_id seed_keys same free))
    ]
copy_image-Settled now a before m vm_id name image nothing_written same ruled free =
    inl (fail_with-Failed now before _ vm_id copy_rootfs same free)
copy_image-Settled now a before m vm_id name image partly_written same ruled free =
    inl (fail_with-Failed now before _ vm_id copy_rootfs same free)

with_image-Settled :
    (now : ℕ) (a : Attempt) (before m : Manager) (vm_id : ℕ) (name : Text) (image : Option String)
    → m.running ≡ before.running
    → m.rules ≡ before.rules
    → (lookup (decimal vm_id) before.network.allocated ≡ none
        → lookup (decimal vm_id) m.network.allocated ≡ none)
    → Settled a vm_id before (with_image now a m vm_id name image)
unfolding with_image
with_image-Settled now a before m vm_id name none same ruled free =
    inl (fail_with-Failed now before m vm_id ensure_rootfs same free)
with_image-Settled now a before m vm_id name (some image) same ruled free =
    copy_image-Settled now a before m vm_id name (some image) a.copied same ruled free

-- Whatever goes wrong outside, CreateAndStart ends in one of two ways. Either it reports an error,
-- then no VM runs that did not, the VM's row has status error and no runtime information, and no
-- address is kept for the VM unless one was kept before. Or it works, then the VM is tracked with
-- the address that is kept for it and that its row, with status running, states; the other running
-- VMs are as they were; and the firewall's rules name this VM, and those that they named before only
-- where the old table of rules could not be deleted.
pub create_and_start-Settled :
    (now : ℕ) (a : Attempt) (m : Manager) (vm_id : ℕ) (name : Text)
    → Settled a vm_id m (create_and_start now a m vm_id name)
unfolding create_and_start set_status
create_and_start-Settled now a m vm_id name =
    with_image-Settled now a m (set_status now m vm_id "creating") vm_id name a.rootfs refl refl
      (λ h. h)

start_without_disk :
    (now : ℕ) (a : Attempt) (m : Manager) (vm_id : ℕ) (name : Text)
    → has_disk vm_id m.rootfs_disks ≡ false
    → start now a m vm_id name ≡ (err rootfs_missing, m)
unfolding start
start_without_disk now a m vm_id name h = rw h refl

start-Settled_disk :
    (now : ℕ) (a : Attempt) (m : Manager) (vm_id : ℕ) (name : Text)
    → has_disk vm_id m.rootfs_disks ≡ true
    → Settled a vm_id m (start now a m vm_id name)
unfolding start set_status
start-Settled_disk now a m vm_id name h = elim (Bool-cases a.keys_seeded) [
  | inl seeded ↦
      simp (h, seeded)
        (with_network-Settled now a m (set_status now m vm_id "creating") vm_id name none refl refl
          (λ k. k))
  | inr failed ↦ simp (h, failed) (inl (fail_with-Failed now m m vm_id seed_keys refl (λ k. k)))
]

-- Start of a VM without a root disk reports that and changes nothing; with one it ends in one of the
-- two ways in which CreateAndStart ends.
pub start-Settled :
    (now : ℕ) (a : Attempt) (m : Manager) (vm_id : ℕ) (name : Text)
    → ((has_disk vm_id m.rootfs_disks ≡ false)
        × (start now a m vm_id name ≡ (err rootfs_missing, m)))
      ⊎ ((has_disk vm_id m.rootfs_disks ≡ true) × Settled a vm_id m (start now a m vm_id name))
start-Settled now a m vm_id name = elim (Bool-cases (has_disk vm_id m.rootfs_disks)) [
  | inl there ↦ inr (there, start-Settled_disk now a m vm_id name there)
  | inr missing ↦ inl (missing, start_without_disk now a m vm_id name missing)
]
