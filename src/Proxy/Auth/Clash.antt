-- ===== src/Proxy/Auth/Clash.antt =====
-- A name that two users gave to their VMs (internal/proxy/auth.go: Handler; internal/db/queries.go:
-- CreateVM, VMByName): UNIQUE(user_id, name) allows both, and the lookup is by the name alone.
use ussycode.Base.{
  ℕ, suc, ◌≡◌, refl, ◌∙◌, ap, ◌≢◌, Bool, none, true, false, ◌&&◌, some, List, [], ◌∷◌, ◌++◌, nat_eq,
  list_eq, ◌==◌, Text, is_empty, arith, Bool-cases, inl, inr, ok, is_ok, beq_iff, Result,
}
use ussycode.Db.Models.{User, Vm, Token, Db, DbError, is_expired, stored}
use ussycode.Db.Select.{exists_where-miss}
use ussycode.Db.Vms.{
  vm_by_name, user_by_id, first_where, first_where-Mem, exists_where, row, row-ok, create_vm,
}
use ussycode.Db.Shares.{equals, is_vm_public, has_share_access}
use ussycode.Db.Tokens.{token_by_handle}
use ussycode.Proxy.Auth.Branches.{authenticate_token-user, bearer_access-some, handler-found}
use ussycode.Proxy.Auth.Safety.{token_access}
use ussycode.Proxy.Auth.{
  Request, forbidden, extract_vm_name, extract_share_token, extract_bearer_token, handler,
}

first_where-append {ℓ} :
    {A : Type ℓ} (p : A → Bool) (xs ys : List A) {a : A}
    → first_where p xs ≡ some a
    → first_where p (xs ++ ys) ≡ some a
unfolding first_where
first_where-append p [] ys h = cc
first_where-append p (x ∷ xs) ys h = elim (Bool-cases (p x)) [
  | inl here_it_is ↦ rw here_it_is (rw here_it_is at h)
  | inr later ↦ rw later (first_where-append p xs ys (rw later at h))
]

first_where-last {ℓ} :
    {A : Type ℓ} (p : A → Bool) (xs : List A) (a : A)
    → exists_where p xs ≡ false
    → p a ≡ true
    → first_where p (xs ++ a ∷ []) ≡ some a
unfolding exists_where first_where
first_where-last p [] a h own = rw own refl
first_where-last p (x ∷ xs) a h own = elim (Bool-cases (p x)) [
  | inl here_it_is ↦ absurd (cc (rw here_it_is at h))
  | inr later ↦ rw later (first_where-last p xs a (rw later at h) own)
]

exists_where-append {ℓ} :
    {A : Type ℓ} (p : A → Bool) (xs : List A) (a : A)
    → exists_where p xs ≡ false
    → p a ≡ false
    → exists_where p (xs ++ a ∷ []) ≡ false
unfolding exists_where
exists_where-append p [] a h other = rw other refl
exists_where-append p (x ∷ xs) a h other = elim (Bool-cases (p x)) [
  | inl here_it_is ↦ absurd (cc (rw here_it_is at h))
  | inr later ↦ rw later (exists_where-append p xs a (rw later at h) other)
]

-- What no element is, none is with more asked of it.
exists_where-and {ℓ} :
    {A : Type ℓ} (p q : A → Bool) (xs : List A)
    → exists_where p xs ≡ false
    → (exists_where (λ x. p x && q x) xs ≡ false) × (exists_where (λ x. q x && p x) xs ≡ false)
unfolding exists_where
exists_where-and p q [] h = (refl, refl)
exists_where-and p q (x ∷ xs) h = elim (Bool-cases (p x)) [
  | inl here_it_is ↦ absurd (cc (rw here_it_is at h))
  | inr later ↦
      let rest = exists_where-and p q xs (rw later at h) in ground (arith, rest.0, rest.1, later)
]

-- The image, the processors, the memory and the disk that are asked for.
abbrev pub Wanted : Type 0
Wanted = Text × ℕ × ℕ × ℕ

abbrev pub creates : ℕ → Db → ℕ → Text → Wanted → Result DbError Vm × Db
creates now db user_id name (image, cpus, memory, disk) =
    create_vm now db user_id name image cpus memory disk

-- The row that a creation adds, last.
abbrev new_row : ℕ → Db → ℕ → Text → Wanted → Vm
new_row now db user_id name (image, cpus, memory, disk) = record {
  id = db.next_vm_id;
  user_id = user_id;
  name = name;
  status = "stopped";
  image = image;
  vcpu = cpus;
  memory_mb = memory;
  disk_gb = disk;
  tap_device = none;
  ip_address = none;
  mac_address = none;
  pid = none;
  created_at = stored now;
  updated_at = stored now;
}

abbrev with_row : ℕ → Db → ℕ → Text → Wanted → Db
with_row now db user_id name w = record db {
  vms = db.vms ++ new_row now db user_id name w ∷ [];
  next_vm_id = suc db.next_vm_id;
}

creates-ok :
    (now : ℕ) (db : Db) (user_id : ℕ) (name : Text) (w : Wanted)
    → exists_where (λ u. u.id == user_id) db.users ≡ true
    → exists_where (λ v. v.user_id == user_id && v.name == name) db.vms ≡ false
    → creates now db user_id name w
      ≡ (ok (new_row now db user_id name w), with_row now db user_id name w)
unfolding create_vm
creates-ok now db user_id name (image, cpus, memory, disk) known free = rw (known, free) refl

first_of_name :
    (db : Db) (name : Text) (vm : Vm) {first : Vm}
    → vm_by_name db name ≡ ok first
    → vm_by_name (record db { vms = db.vms ++ vm ∷ []; next_vm_id = suc db.next_vm_id }) name
      ≡ ok first
unfolding vm_by_name
first_of_name db name vm h =
    ap row
      (first_where-append (λ v. v.name == name) db.vms (vm ∷ []) (row-ok (first_where _ db.vms) h))

forbidden_by_first :
    (now : ℕ) (db : Db) (domain : Text) (r : Request) {first : Vm} {t : Token} {u : User}
    → is_empty (extract_vm_name domain r) ≡ false
    → vm_by_name db (extract_vm_name domain r) ≡ ok first
    → is_empty (extract_share_token r) ≡ true
    → is_vm_public db first.id ≡ false
    → is_empty (extract_bearer_token r) ≡ false
    → token_by_handle db (extract_bearer_token r) ≡ ok t
    → is_expired now t ≡ false
    → user_by_id db t.user_id ≡ ok u
    → first.user_id ≢ u.id
    → has_share_access db first.id u.id ≡ false
    → handler now db domain r ≡ forbidden
forbidden_by_first now db domain r {first} {t} {u} named found plain hidden bearer token live user
      other unshared =
    let differs : (u.id == first.user_id) ≡ false = ground (arith, beq_iff u.id first.user_id) in
    handler-found now db domain r named found
    ∙ token_access now db r first plain hidden bearer
    ∙ bearer_access-some now db (extract_bearer_token r) first
        (authenticate_token-user now db (extract_bearer_token r) token live user)
    ∙ rw (differs, unshared) refl

stored_user :
    (db : Db) (user_id : ℕ) {u : User}
    → user_by_id db user_id ≡ ok u
    → exists_where (λ x. x.id == u.id) db.users ≡ true
unfolding user_by_id
stored_user db user_id {u} h =
    let mem = first_where-Mem (λ x. x.id == user_id) db.users (row-ok (first_where _ db.users) h) in
    elim (Bool-cases (exists_where (λ x. x.id == u.id) db.users)) [
      | inl known ↦ known
      | inr unknown ↦
          let missed = exists_where-miss (λ x. x.id == u.id) db.users unknown u mem.0 in
          absurd (ground (arith, missed, beq_iff u.id u.id))
    ]

-- Two users create a VM of a name that no VM has, one after the other, where no share refers to an id
-- that is not given yet. Both creations work, and a request of the second user under that name, with
-- a stored, unexpired bearer token and no link token, is then forbidden.
pub created_vm_forbidden :
    (now : ℕ) (db : Db) (domain : Text) (r : Request) (owner : ℕ) {t : Token} {u : User}
    (mine theirs : Wanted)
    → exists_where (λ v. v.name == extract_vm_name domain r) db.vms ≡ false
    → exists_where (λ s. s.vm_id == db.next_vm_id) db.shares ≡ false
    → exists_where (λ x. x.id == owner) db.users ≡ true
    → owner ≢ u.id
    → is_empty (extract_vm_name domain r) ≡ false
    → is_empty (extract_share_token r) ≡ true
    → is_empty (extract_bearer_token r) ≡ false
    → token_by_handle db (extract_bearer_token r) ≡ ok t
    → is_expired now t ≡ false
    → user_by_id db t.user_id ≡ ok u
    → let first = creates now db owner (extract_vm_name domain r) mine in
      let second = creates now first.1 u.id (extract_vm_name domain r) theirs in
      (is_ok first.0 ≡ true) × (is_ok second.0 ≡ true) × (handler now second.1 domain r ≡ forbidden)
unfolding is_vm_public token_by_handle user_by_id has_share_access vm_by_name
created_vm_forbidden now db domain r owner {t} {u} mine theirs unused unshared known other named
      plain bearer token live user =
    let name = extract_vm_name domain r in
    let row1 = new_row now db owner name mine in
    let db1 = with_row now db owner name mine in
    let free = exists_where-and (λ v. v.name == name) (λ v. v.user_id == owner) db.vms unused in
    let first = creates-ok now db owner name mine known free.1 in
    let others = exists_where-and (λ v. v.name == name) (λ v. v.user_id == u.id) db.vms unused in
    let not_own : (owner == u.id && name == name) ≡ false = ground (arith, beq_iff owner u.id) in
    let free_again =
      exists_where-append (λ v. v.user_id == u.id && v.name == name) db.vms row1 others.1 not_own in
    let second = creates-ok now db1 u.id name theirs (stored_user db t.user_id user) free_again in
    let found : vm_by_name db1 name ≡ ok row1 =
      ap row
        (first_where-last (λ v. v.name == name) db.vms row1 unused ((beq_iff name name).1 refl)) in
    let hidden =
      exists_where-and (λ s. s.vm_id == db.next_vm_id) (λ s. s.is_public) db.shares unshared in
    let closed =
      exists_where-and (λ s. s.vm_id == db.next_vm_id) (λ s. equals s.shared_with u.id) db.shares
        unshared in
    rw (first, second)
      (
        refl,
        refl,
        forbidden_by_first now (with_row now db1 u.id name theirs) domain r named
            (first_of_name db1 name (new_row now db1 u.id name theirs) found) plain hidden.0 bearer
            token live user other closed.0,
      )
