-- ===== src/Db/Vms.antt =====
-- Users and VMs (internal/db/queries.go). A query for one row returns the first that matches, or
-- `no_rows`.
use ussycode.Base.{
  Mem, here, there, Bool-cases, arith, true, inl, inr, ℕ, suc, ◌≡◌, Bool, false, not, ◌&&◌, ◌||◌,
  String, Option, none, some, List, [], ◌∷◌, ◌++◌, if◌then◌else◌, length, string_eq, nat_eq,
  list_eq, ◌==◌, Result, ok, err,
}
use ussycode.Db.Models.{Text, User, Vm, Db, DbError, no_rows, constraint_failed, stored}

-- `SELECT ... WHERE p`, its first row.
unfoldable pub first_where {ℓ} : {A : Type ℓ} → (A → Bool) → List A → Option A
first_where p [] = none
first_where p (x ∷ xs) = if p x then some x else first_where p xs

-- `SELECT ... WHERE p`, all its rows.
unfoldable pub select_where {ℓ} : {A : Type ℓ} → (A → Bool) → List A → List A
select_where p [] = []
select_where p (x ∷ xs) = let rest = select_where p xs in if p x then x ∷ rest else rest

-- `DELETE ... WHERE p`.
unfoldable pub delete_where {ℓ} : {A : Type ℓ} → (A → Bool) → List A → List A
delete_where p [] = []
delete_where p (x ∷ xs) = let rest = delete_where p xs in if p x then rest else x ∷ rest

-- `UPDATE ... WHERE p`.
unfoldable pub update_where {ℓ} : {A : Type ℓ} → (A → Bool) → (A → A) → List A → List A
update_where p f [] = []
update_where p f (x ∷ xs) = (if p x then f x else x) ∷ update_where p f xs

-- `SELECT EXISTS(SELECT 1 ... WHERE p)`.
unfoldable pub exists_where {ℓ} : {A : Type ℓ} → (A → Bool) → List A → Bool
exists_where p [] = false
exists_where p (x ∷ xs) = p x || exists_where p xs

-- The scan of one row.
abbrev pub row {ℓ} : {A : Type ℓ} → Option A → Result DbError A
row none = err no_rows
row (some a) = ok a

pub row-ok {ℓ} : {A : Type ℓ} (o : Option A) {a : A} → row o ≡ ok a → o ≡ some a
row-ok none h = cc
row-ok (some b) h = cc

pub first_where-Mem {ℓ} :
    {A : Type ℓ} (p : A → Bool) (xs : List A) {a : A}
    → first_where p xs ≡ some a
    → Mem a xs × (p a ≡ true)
unfolding first_where
first_where-Mem p [] h = cc
first_where-Mem p (x ∷ xs) {a} h = elim (Bool-cases (p x)) [
  | inl holds ↦
      let same : x ≡ a = ground (arith, h, holds) in (here same, ground (arith, same, holds))
  | inr fails ↦ let rest = first_where-Mem p xs (rw fails at h) in (there rest.0, rest.1)
]

unfoldable pub user_by_id : Db → ℕ → Result DbError User
user_by_id db id = row (first_where (λ u. u.id == id) db.users)

unfoldable pub user_by_handle : Db → String → Result DbError User
user_by_handle db handle = row (first_where (λ u. u.handle == handle) db.users)

unfoldable pub vm_by_user_and_name : Db → ℕ → Text → Result DbError Vm
vm_by_user_and_name db user_id name =
    row (first_where (λ v. v.user_id == user_id && v.name == name) db.vms)

unfoldable pub vm_by_name : Db → Text → Result DbError Vm
vm_by_name db name = row (first_where (λ v. v.name == name) db.vms)

unfoldable pub vm_count_by_user : Db → ℕ → ℕ
vm_count_by_user db user_id = length (select_where (λ v. v.user_id == user_id) db.vms)

-- `CreateVM`: the row's user must exist, and UNIQUE(user_id, name) must hold.
unfoldable pub create_vm : ℕ → Db → ℕ → Text → Text → ℕ → ℕ → ℕ → Result DbError Vm × Db
create_vm now db user_id name image vcpu memory_mb disk_gb =
    let vm : Vm = record {
      id = db.next_vm_id;
      user_id = user_id;
      name = name;
      status = "stopped";
      image = image;
      vcpu = vcpu;
      memory_mb = memory_mb;
      disk_gb = disk_gb;
      tap_device = none;
      ip_address = none;
      mac_address = none;
      pid = none;
      created_at = stored now;
      updated_at = stored now;
    } in
    if exists_where (λ u. u.id == user_id) db.users
      && not (exists_where (λ v. v.user_id == user_id && v.name == name) db.vms)
    then (ok vm, record db { vms = db.vms ++ vm ∷ []; next_vm_id = suc db.next_vm_id })
    else (err constraint_failed, db)

unfoldable pub update_vm_status :
    ℕ → Db → ℕ → String → Option Text → Option Text → Option Text → Option ℕ → Db
update_vm_status now db vm_id status tap ip mac pid = record db {
  vms =
      update_where (λ v. v.id == vm_id)
        (λ v. record v {
          status = status;
          tap_device = tap;
          ip_address = ip;
          mac_address = mac;
          pid = pid;
          updated_at = stored now;
        })
        db.vms;
}

-- `DeleteVM`; the shares, the tags and the domains of the VM go with it (ON DELETE CASCADE).
unfoldable pub delete_vm : Db → ℕ → Db
delete_vm db vm_id = record db {
  vms = delete_where (λ v. v.id == vm_id) db.vms;
  shares = delete_where (λ s. s.vm_id == vm_id) db.shares;
  tags = delete_where (λ t. t.0 == vm_id) db.tags;
  domains = delete_where (λ d. d.vm_id == vm_id) db.domains;
}

unfoldable pub vms_by_user : Db → ℕ → List Vm
vms_by_user db user_id = select_where (λ v. v.user_id == user_id) db.vms

-- `RenameVM`: UNIQUE(user_id, name) must hold afterwards.
unfoldable pub rename_vm : ℕ → Db → ℕ → Text → Result DbError (Unit {0}) × Db
rename_vm now db vm_id new_name =
    let taken = λ (owner : ℕ).
      exists_where (λ v. v.user_id == owner && v.name == new_name && not (v.id == vm_id)) db.vms in
    if exists_where (λ v. v.id == vm_id && taken v.user_id) db.vms
    then (err constraint_failed, db)
    else (
      ok tt,
      record db {
        vms =
            update_where (λ v. v.id == vm_id)
              (λ v. record v { name = new_name; updated_at = stored now }) db.vms;
      },
    )

abbrev pub is_tag : ℕ → Text → ℕ × Text → Bool
is_tag vm_id tag row = row.0 == vm_id && row.1 == tag

-- `AddTag`: INSERT OR IGNORE, whose foreign key is checked nevertheless.
unfoldable pub add_tag : Db → ℕ → Text → Result DbError (Unit {0}) × Db
add_tag db vm_id tag =
    if exists_where (is_tag vm_id tag) db.tags
    then (ok tt, db)
    else if exists_where (λ v. v.id == vm_id) db.vms
    then (ok tt, record db { tags = db.tags ++ (vm_id, tag) ∷ [] })
    else (err constraint_failed, db)

unfoldable pub remove_tag : Db → ℕ → Text → Db
remove_tag db vm_id tag = record db { tags = delete_where (is_tag vm_id tag) db.tags }

-- `TagsByVM`, less the order in which it lists them.
unfoldable pub tags_of : ℕ → List (ℕ × Text) → List Text
tags_of vm_id [] = []
tags_of vm_id ((id, tag) ∷ rows) =
    let rest = tags_of vm_id rows in if id == vm_id then tag ∷ rest else rest

unfoldable pub tags_by_vm : Db → ℕ → List Text
tags_by_vm db vm_id = tags_of vm_id db.tags
