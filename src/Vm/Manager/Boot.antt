-- ===== src/Vm/Manager/Boot.antt =====
-- What starting a VM leaves behind, on every path (internal/vm/manager.go: CreateAndStart, Start).
use ussycode.Base.{
  lookup-insert_self, lookup-insert_ne, ◌≢◌, ◌∙◌, ap, ℕ, ◌≡◌, refl, ◌⊎◌, true, false, Option, none,
  some, List, [], ◌∷◌, String, nat_eq, list_eq, ◌==◌, Result, ok, is_ok, lookup, lookup-delete,
  Text, decimal, All, arith, beq_iff, Bool-cases, inl, inr, Option-cases,
}
use ussycode.Db.Models.{Db, Vm}
use ussycode.Db.Vms.{update_where, update_vm_status}
use ussycode.Vm.Network.{NetworkConfig, release_network}
use ussycode.Vm.Manager.{
  Manager, RunningVm, ManagerError, Attempt, add_rules, start_vm, both_added, first_added,
  none_added, set_status, fail_with, track, give_back, boot, left_of,
}

-- The row of a VM that carries no runtime information.
abbrev pub Has : String → Vm → Type 0
Has status v =
    (v.status ≡ status)
    × (v.tap_device ≡ none)
    × (v.ip_address ≡ none)
    × (v.mac_address ≡ none)
    × (v.pid ≡ none)

abbrev pub RowsHave : ℕ → String → Db → Type 0
RowsHave vm_id status db = All (λ v. v.id ≡ vm_id → Has status v) db.vms

-- The call fails: no VM is running that was not, the VM's row says so, and no address is kept for it.
pub record Failed (vm_id : ℕ) (before : Manager) (p : Result ManagerError (Unit {0}) × Manager)
    : Type 0 where
  pub reported : is_ok p.0 ≡ false
  pub running_kept : p.1.running ≡ before.running
  pub marked : RowsHave vm_id "error" p.1.db
  pub address_free :
      lookup (decimal vm_id) before.network.allocated ≡ none
      → lookup (decimal vm_id) p.1.network.allocated ≡ none

-- The call works: the VM is tracked with the address that is kept for it, its rows state that
-- address, and the firewall names this VM, besides what is left of the old rules.
pub record Started (a : Attempt) (vm_id : ℕ) (before : Manager)
    (p : Result ManagerError (Unit {0}) × Manager) : Type 0 where
  pub reported : is_ok p.0 ≡ true
  pub vm : RunningVm
  pub tracked : lookup vm_id p.1.running ≡ some vm
  pub others_kept : (id : ℕ) → vm_id ≢ id → lookup id p.1.running ≡ lookup id before.running
  pub address_kept : lookup (decimal vm_id) p.1.network.allocated ≡ some vm.network_config.guest_ip
  pub marked :
      All
        (λ v.
          v.id ≡ vm_id → (v.status ≡ "running") × (v.ip_address ≡ some vm.network_config.guest_ip))
        p.1.db.vms
  pub new_rules : p.1.rules ≡ decimal vm_id ∷ left_of a before.rules

updated_rows :
    (P : Vm → Type 0) (vm_id : ℕ) (f : Vm → Vm) (vms : List Vm)
    → ((v : Vm) → P (f v))
    → All (λ v. v.id ≡ vm_id → P v) (update_where (λ v. v.id == vm_id) f vms)
unfolding update_where
updated_rows P vm_id f [] new = tt
updated_rows P vm_id f (v ∷ vms) new = elim (Bool-cases (v.id == vm_id)) [
  | inl same ↦ rw same ((λ h. new v), updated_rows P vm_id f vms new)
  | inr other ↦
      rw other
        ((λ h. absurd (cc (other, (beq_iff v.id vm_id).1 h))), updated_rows P vm_id f vms new)
]

pub set_status-RowsHave :
    (now : ℕ) (m : Manager) (vm_id : ℕ) (status : String)
    → RowsHave vm_id status (set_status now m vm_id status).db
unfolding set_status update_vm_status
set_status-RowsHave now m vm_id status =
    updated_rows (Has status) vm_id _ m.db.vms (λ v. (refl, refl, refl, refl, refl))

pub fail_with-Failed :
    (now : ℕ) (before m : Manager) (vm_id : ℕ) (e : ManagerError)
    → m.running ≡ before.running
    → (lookup (decimal vm_id) before.network.allocated ≡ none
        → lookup (decimal vm_id) m.network.allocated ≡ none)
    → Failed vm_id before (fail_with now m vm_id e)
unfolding fail_with set_status
fail_with-Failed now before m vm_id e same free = record {
  reported = refl;
  running_kept = same;
  marked = set_status-RowsHave now m vm_id "error";
  address_free = free;
}

given_back :
    (a : Attempt) (m : Manager) (vm_id : ℕ) (cfg : NetworkConfig)
    → lookup (decimal vm_id) (give_back a m vm_id cfg).network.allocated ≡ none
unfolding give_back release_network
given_back a m vm_id cfg = ground (
  arith,
  lookup-delete (decimal vm_id) (decimal vm_id) m.network.allocated,
  beq_iff (decimal vm_id) (decimal vm_id),
)

track-Started :
    (now : ℕ) (a : Attempt) (before m : Manager) (vm_id : ℕ) (name : Text) (image : Option String)
    (cfg : NetworkConfig) (pid : ℕ)
    → m.running ≡ before.running
    → lookup (decimal vm_id) m.network.allocated ≡ some cfg.guest_ip
    → m.rules ≡ decimal vm_id ∷ left_of a before.rules
    → Started a vm_id before (ok tt, track now m vm_id name image cfg pid)
unfolding track update_vm_status
track-Started now a before m vm_id name image cfg pid same kept rules = record {
  reported = refl;
  vm = record { vm_id = vm_id; name = name; pid = pid; network_config = cfg; image_config = image };
  tracked = lookup-insert_self vm_id _ m.running;
  others_kept = λ id h. lookup-insert_ne vm_id id _ m.running h ∙ ap (lookup id) same;
  address_kept = kept;
  marked =
      updated_rows (λ v. (v.status ≡ "running") × (v.ip_address ≡ some cfg.guest_ip)) vm_id _
        m.db.vms (λ v. (refl, refl));
  new_rules = rules;
}

-- Either way.
abbrev pub Settled : Attempt → ℕ → Manager → Result ManagerError (Unit {0}) × Manager → Type 0
Settled a vm_id before p = Failed vm_id before p ⊎ Started a vm_id before p

pub boot-Settled :
    (now : ℕ) (a : Attempt) (before m : Manager) (vm_id : ℕ) (name : Text) (image : Option String)
    (cfg : NetworkConfig)
    → m.running ≡ before.running
    → lookup (decimal vm_id) m.network.allocated ≡ some cfg.guest_ip
    → m.rules ≡ left_of a before.rules
    → Settled a vm_id before (boot now a m vm_id name image cfg)
unfolding boot
boot-Settled now a before m vm_id name image cfg same kept flushed =
    let named = record m { rules = decimal vm_id ∷ m.rules } in
    elim a.rules_added
      as (λ rules. Settled a vm_id before (elim rules [
        | none_added ↦ fail_with now (give_back a m vm_id cfg) vm_id add_rules
        | first_added ↦ fail_with now (give_back a named vm_id cfg) vm_id add_rules
        | both_added ↦ elim a.booted [
          | none ↦ fail_with now (give_back a named vm_id cfg) vm_id start_vm
          | some pid ↦ (ok tt, track now named vm_id name image cfg pid)
        ]
      ])) [
        | none_added ↦
            inl (fail_with-Failed now before _ vm_id _ same (λ h. given_back a m vm_id cfg))
        | first_added ↦
            inl (fail_with-Failed now before _ vm_id _ same (λ h. given_back a named vm_id cfg))
        | both_added ↦ elim (Option-cases a.booted) [
          | inl none_booted ↦
              rw none_booted (
                inl
                  (fail_with-Failed now before _ vm_id _ same (λ h. given_back a named vm_id cfg)))
          | inr up ↦ simp up.1 (
              inr (
                track-Started now a before named vm_id name image cfg up.0 same kept
                  (ap (λ r. decimal vm_id ∷ r) flushed)))
        ]
      ]
