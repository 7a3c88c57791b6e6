-- ===== src/Shell/Sharing/Isolation.antt =====
-- Who can change the shares and the domains of a VM (internal/ssh/commands.go: cmdShare).
use ussycode.Base.{
  ℕ, ◌≡◌, ◌≢◌, refl, ◌∙◌, sym, subst, Option, none, some, List, [], ◌∷◌, inl, inr, nat_eq, ◌==◌,
  beq_iff, Bool-cases, Result-cases, Text, Mem,
}
use ussycode.Db.Models.{User, Vm, Db}
use ussycode.Db.Vms.{select_where, vm_by_user_and_name}
use ussycode.Db.Owners.{Sound, Kept-rows}
use ussycode.Db.Owners.Creation.{found-Owns}
use ussycode.Shell.Sharing.{
  ShareError, ShareVerb, Outside, share_vm, share_checked, argument_fault, takes_vm_alone,
  cmd_share,
}
use ussycode.Shell.Sharing.Rows.{OneVm, Leaves, Leaves-same}
use ussycode.Shell.Sharing.Steps.{share_found-Leaves}

module _ (o : Outside) (db : Db) (user : User) (w : Vm) (sound : Sound db) (one : OneVm db)
    (stored_vm : Mem w db.vms) (not_own : w.user_id ≢ user.id) where
  share_vm-Leaves :
      (verb : ShareVerb) (arg name : Text)
      → Leaves w.id db (share_vm o db user verb arg (vm_by_user_and_name db user.id name)).1
  unfolding share_vm
  share_vm-Leaves verb arg name = elim (Result-cases (vm_by_user_and_name db user.id name)) [
    | inr missing ↦ rw missing.1 (Leaves-same db one w.id)
    | inl found ↦ rw found.1 (
        share_found-Leaves db one w.id found.0
          (elim (Bool-cases (found.0.id == w.id)) [
            | inr differs ↦ differs
            | inl same ↦
                let own = found-Owns user.id db name found.0 sound found.1 in
                absurd (not_own (own w stored_vm (sym ((beq_iff found.0.id w.id).0 same))))
          ])
          o user verb arg)
  ]

  share_checked-Leaves :
      (verb : ShareVerb) (name arg : Text) (fault : Option ShareError)
      → Leaves w.id db (share_checked o db user verb name arg fault).1
  unfolding share_checked
  share_checked-Leaves verb name arg (some fault) = Leaves-same db one w.id
  share_checked-Leaves verb name arg none = share_vm-Leaves verb arg name

  cmd_share-Leaves :
      (verb : ShareVerb) (args : List Text) → Leaves w.id db (cmd_share o db user verb args).1
  unfolding cmd_share
  cmd_share-Leaves verb [] = Leaves-same db one w.id
  cmd_share-Leaves verb (name ∷ []) = elim (Bool-cases (takes_vm_alone verb)) [
    | inl alone ↦ rw (alone, cmd_share) (share_checked-Leaves verb name [] none)
    | inr pair ↦ rw (pair, cmd_share) (Leaves-same db one w.id)
  ]
  cmd_share-Leaves verb (name ∷ arg ∷ args) =
      share_checked-Leaves verb name arg (argument_fault verb arg)

pub record ShareRequest : Type 0 where
  pub user : User
  pub outside : Outside
  pub verb : ShareVerb
  pub args : List Text

unfoldable pub share_all : Db → List ShareRequest → Db
share_all db [] = db
share_all db (r ∷ requests) = share_all (cmd_share r.outside db r.user r.verb r.args).1 requests

-- None of the requests is by the user.
abbrev pub NotBy : ℕ → List ShareRequest → Type 0
NotBy user_id [] = Unit
NotBy user_id (r ∷ requests) = (user_id ≢ r.user.id) × NotBy user_id requests

-- Where ids of VMs tell their owners and a domain stands for one VM: over every history of the
-- commands on shares and custom domains that users give who do not own a stored VM, the VM's shares
-- and its domains, with what is verified of them, stay as they were, whatever the DNS answers; and a
-- domain still stands for one VM.
pub share_all-Isolated :
    (w : Vm) (requests : List ShareRequest) (db : Db)
    → Sound db
    → OneVm db
    → Mem w db.vms
    → NotBy w.user_id requests
    → (select_where (λ s. s.vm_id == w.id) (share_all db requests).shares
        ≡ select_where (λ s. s.vm_id == w.id) db.shares)
      × (select_where (λ d. d.vm_id == w.id) (share_all db requests).domains
          ≡ select_where (λ d. d.vm_id == w.id) db.domains)
      × OneVm (share_all db requests)
unfolding share_all
share_all-Isolated w [] db sound one mem others = (refl, refl, one)
share_all-Isolated w (r ∷ requests) db sound one mem (other, others) =
    let after = (cmd_share r.outside db r.user r.verb r.args).1 in
    let step = cmd_share-Leaves r.outside db r.user w sound one mem other r.verb r.args in
    let (shares, domains, still) =
      share_all-Isolated w requests after
        (Kept-rows r.user.id db after sound step.vms step.next).sound step.one_vm
        (subst (Mem w) (sym step.vms) mem) others in
    (shares ∙ step.shares, domains ∙ step.domains, still)
