-- ===== src/Vm/Manager/Rows.antt =====
-- The rows that the VM manager writes are those of the VM that it is asked for (internal/vm/manager.go:
-- Start, Stop, CloneDisks).
use ussycode.Base.{
  ℕ, String, Option, none, some, ◌∷◌, Result, ok, err, Text, decimal, nat_eq, list_eq, Bool-cases,
  Option-cases, inl, inr,
}
use ussycode.Db.Models.{Db}
use ussycode.Db.Vms.{update_vm_status}
use ussycode.Vm.Network.{NetworkManager, NetworkConfig, NetworkError}
use ussycode.Vm.Manager.{
  Manager, ManagerError, Attempt, BridgeOutcome, link_failed, nat_failed, ready, none_added,
  first_added, both_added, set_status, fail_with, track, give_back, boot, after_allocation,
  after_bridge, with_network, start, start_vm, add_rules, has_disk, left_of,
}

-- A property of the database that a change of the VM's status keeps.
module _ (P : Db → Type 0) (vm_id : ℕ)
    (closed : (now : ℕ) (db : Db) (status : String) (tap ip mac : Option Text) (pid : Option ℕ)
      → P db
      → P (update_vm_status now db vm_id status tap ip mac pid)) where
  fail_with-keeps :
      (now : ℕ) (m : Manager) (e : ManagerError) → P m.db → P (fail_with now m vm_id e).1.db
  unfolding fail_with set_status
  fail_with-keeps now m e h = closed now m.db "error" none none none none h

  boot-keeps :
      (now : ℕ) (a : Attempt) (m : Manager) (name : Text) (image : Option String)
      (cfg : NetworkConfig)
      → P m.db
      → P (boot now a m vm_id name image cfg).1.db
  unfolding boot give_back track
  boot-keeps now a m name image cfg h =
      let named = record m { rules = decimal vm_id ∷ m.rules } in
      elim a.rules_added
        as (λ rules.
          P
            (elim rules as (λ r. Result ManagerError (Unit {0}) × Manager) [
              | none_added ↦ fail_with now (give_back a m vm_id cfg) vm_id add_rules
              | first_added ↦ fail_with now (give_back a named vm_id cfg) vm_id add_rules
              | both_added ↦ elim a.booted [
                | none ↦ fail_with now (give_back a named vm_id cfg) vm_id start_vm
                | some pid ↦ (ok tt, track now named vm_id name image cfg pid)
              ]
            ]).1.db) [
              | none_added ↦ fail_with-keeps now _ add_rules h
              | first_added ↦ fail_with-keeps now _ add_rules h
              | both_added ↦ elim (Option-cases a.booted) [
                | inl none_booted ↦ rw none_booted (fail_with-keeps now _ start_vm h)
                | inr up ↦ rw up.1 (closed now m.db "running" _ _ _ _ h)
              ]
            ]

  after_allocation-keeps :
      (now : ℕ) (a : Attempt) (m : Manager) (name : Text) (image : Option String)
      (answer : Result NetworkError NetworkConfig) (network : NetworkManager)
      → P m.db
      → P (after_allocation now a m vm_id name image (answer, network)).1.db
  unfolding after_allocation
  after_allocation-keeps now a m name image (err e) network h = fail_with-keeps now _ _ h
  after_allocation-keeps now a m name image (ok cfg) network h = boot-keeps now a _ name image cfg h

  after_bridge-keeps :
      (now : ℕ) (a : Attempt) (m : Manager) (name : Text) (image : Option String)
      (bridge : BridgeOutcome)
      → P m.db
      → P (after_bridge now a m vm_id name image bridge).1.db
  unfolding after_bridge
  after_bridge-keeps now a m name image link_failed h = fail_with-keeps now m _ h
  after_bridge-keeps now a m name image nat_failed h = fail_with-keeps now _ _ h
  after_bridge-keeps now a m name image ready h =
      after_allocation-keeps now a (record m { rules = left_of a m.rules }) name image _ _ h

  pub start-keeps :
      (now : ℕ) (a : Attempt) (m : Manager) (name : Text)
      → P m.db
      → P (start now a m vm_id name).1.db
  unfolding start set_status with_network
  start-keeps now a m name h = elim (Bool-cases (has_disk vm_id m.rootfs_disks)) [
    | inr missing ↦ rw missing h
    | inl there ↦ elim (Bool-cases a.keys_seeded) [
      | inr failed ↦ simp (there, failed) (fail_with-keeps now m _ h)
      | inl seeded ↦
          simp (there, seeded)
            (after_bridge-keeps now a _ name none a.bridge
              (closed now m.db "creating" none none none none h))
    ]
  ]
