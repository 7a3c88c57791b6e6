-- ===== src/Shell/Commands/Admission.antt =====
-- Which requests for a new VM are admitted (internal/ssh/commands.go: cmdNew).
use ussycode.Base.{
  ℕ, suc, ◌<◌, ◌≡◌, ◌≢◌, refl, ◌∙◌, sym, ap, Bool, true, false, not, ◌&&◌, Option, none, some, List,
  [], ◌∷◌, ◌++◌, ◌⊎◌, inl, inr, nat_eq, list_eq, string_eq, ◌==◌, Result, ok, err, is_ok, Text, Mem,
  here, there, arith, beq_iff, subst, Bool-cases, Result-cases,
}
use ussycode.Db.Models.{User, Vm, Db, DbError, get_trust_limits, constraint_failed, stored}
use ussycode.Db.Vms.{
  first_where, exists_where, row, vm_by_user_and_name, vm_count_by_user, create_vm,
}
use ussycode.Vm.Manager.{Manager, ManagerError, Attempt, create_and_start}
use ussycode.Vm.Manager.Boot.{Settled}
use ussycode.Vm.Manager.Starting.{create_and_start-Settled}
use ussycode.Shell.Commands.{
  ShellError, invalid_name, already_exists, limit_reached, over_limit, cpus_for, memory_for,
  valid_name, provision, new_named,
}

-- The row that is made for a VM of a name and an image, with the next id and the size that the trust
-- level gives.
abbrev pub new_row : ℕ → Db → User → Text → Text → Vm
new_row now db user name image = record {
  id = db.next_vm_id;
  user_id = user.id;
  name = name;
  status = "stopped";
  image = image;
  vcpu = cpus_for (get_trust_limits user.trust_level);
  memory_mb = memory_for (get_trust_limits user.trust_level);
  disk_gb = 5;
  tap_device = none;
  ip_address = none;
  mac_address = none;
  pid = none;
  created_at = stored now;
  updated_at = stored now;
}

-- The manager with that row, after all others.
abbrev pub with_row : ℕ → Manager → User → Text → Text → Manager
with_row now m user name image = record m {
  db = record m.db {
    vms = m.db.vms ++ new_row now m.db user name image ∷ [];
    next_vm_id = suc m.db.next_vm_id;
  };
}

-- The command works exactly if CreateAndStart did, and leaves what CreateAndStart left.
abbrev pub Ends :
    Attempt
    → ℕ
    → Manager
    → Result ManagerError (Unit {0}) × Manager
    → Result ShellError (Unit {0}) × Manager
    → Type 0
Ends a vm_id before started p =
    Settled a vm_id before started × (is_ok p.0 ≡ is_ok started.0) × (p.1 ≡ started.1)

-- The request is admitted: its name is valid and new among the user's VMs, and the user's trust level
-- leaves room for one more. The new row is added, and CreateAndStart runs for it.
pub record Admitted (now : ℕ) (a : Attempt) (m : Manager) (user : User) (name image : Text)
    (p : Result ShellError (Unit {0}) × Manager) : Type 0 where
  pub valid : valid_name name ≡ true
  pub fresh : (v : Vm) → Mem v m.db.vms → v.user_id ≡ user.id → v.name ≢ name
  pub room :
      (limit : ℕ)
      → (get_trust_limits user.trust_level).vm_limit ≡ some limit
      → vm_count_by_user m.db user.id < limit
  pub ends :
      Ends a m.db.next_vm_id
        (with_row now m user name image)
        (create_and_start now a (with_row now m user name image) m.db.next_vm_id name)
        p

none_found {ℓ} :
    {A : Type ℓ} (p : A → Bool) (xs : List A) {e : DbError}
    → row (first_where p xs) ≡ err e
    → (x : A) → Mem x xs
    → p x ≡ false
unfolding first_where
none_found p [] h x mem = elim mem [ ]
none_found p (y ∷ xs) h x (here e) = elim (Bool-cases (p y)) [
  | inl found ↦ absurd (cc (rw found at h))
  | inr other ↦ ap p (sym e) ∙ other
]
none_found p (y ∷ xs) h x (there rest) = elim (Bool-cases (p y)) [
  | inl found ↦ absurd (cc (rw found at h))
  | inr other ↦ none_found p xs (rw other at h) x rest
]

fresh_name :
    (db : Db) (user_id : ℕ) (name : Text) {e : DbError}
    → vm_by_user_and_name db user_id name ≡ err e
    → (v : Vm) → Mem v db.vms
    → v.user_id ≡ user_id
    → v.name ≢ name
unfolding vm_by_user_and_name
fresh_name db user_id name h v mem own same =
    let missed = none_found (λ v. v.user_id == user_id && v.name == name) db.vms h v mem in
    let first = (beq_iff v.user_id user_id).1 own in
    let second = (beq_iff v.name name).1 same in absurd (ground (arith, missed, first, second))

provision-Ends :
    (now : ℕ) (a : Attempt) (m : Manager) (name : Text) (vm : Vm) (db : Db)
    → Ends a vm.id
        (record m { db = db })
        (create_and_start now a (record m { db = db }) vm.id name)
        (provision now a m name (ok vm, db))
unfolding provision
provision-Ends now a m name vm db =
    let settled = create_and_start-Settled now a (record m { db = db }) vm.id name in
    elim (Result-cases (create_and_start now a (record m { db = db }) vm.id name).0) [
      | inl works ↦ (settled, rw (works.1, provision) refl, rw (works.1, provision) refl)
      | inr fails ↦ (settled, rw (fails.1, provision) refl, rw (fails.1, provision) refl)
    ]

-- A creation is refused and changes nothing, or adds the row.
created-cases :
    (now : ℕ) (db : Db) (user : User) (name image : Text)
    → let made =
        create_vm now db user.id name image
          (cpus_for (get_trust_limits user.trust_level))
          (memory_for (get_trust_limits user.trust_level))
          5 in
      (made ≡ (err constraint_failed, db))
      ⊎ (made ≡ (
        ok (new_row now db user name image),
        record db {
          vms = db.vms ++ new_row now db user name image ∷ [];
          next_vm_id = suc db.next_vm_id;
        },
      ))
unfolding create_vm
created-cases now db user name image =
    elim (Bool-cases (
      exists_where (λ u. u.id == user.id) db.users
      && not (exists_where (λ v. v.user_id == user.id && v.name == name) db.vms))) [
        | inr broken ↦ rw broken (inl refl)
        | inl new ↦ rw new (inr refl)
      ]

over_limit-lt :
    (o : Option ℕ) (count : ℕ)
    → over_limit o count ≡ false
    → (limit : ℕ) → o ≡ some limit
    → count < limit
over_limit-lt none count h limit e = cc
over_limit-lt (some k) count h limit e = let same : k ≡ limit = cc in ground (arith, same)

module _ (now : ℕ) (a : Attempt) (m : Manager) (user : User) (name image : Text) where
  refused_name : valid_name name ≡ false → new_named now a m user name image ≡ (err invalid_name, m)
  unfolding new_named
  refused_name h = rw (h, new_named) refl

  refused_again :
      {vm : Vm}
      → valid_name name ≡ true
      → vm_by_user_and_name m.db user.id name ≡ ok vm
      → new_named now a m user name image ≡ (err already_exists, m)
  unfolding new_named
  refused_again h taken = rw (h, taken, new_named) refl

  refused_limit :
      {e : DbError}
      → valid_name name ≡ true
      → vm_by_user_and_name m.db user.id name ≡ err e
      → over_limit (get_trust_limits user.trust_level).vm_limit (vm_count_by_user m.db user.id)
        ≡ true
      → new_named now a m user name image ≡ (err limit_reached, m)
  unfolding new_named
  refused_limit h free full = rw (h, free, full, new_named) refl

  admitted :
      {e : DbError}
      → valid_name name ≡ true
      → vm_by_user_and_name m.db user.id name ≡ err e
      → over_limit (get_trust_limits user.trust_level).vm_limit (vm_count_by_user m.db user.id)
        ≡ false
      → new_named now a m user name image
        ≡ provision now a m name (
            create_vm now m.db user.id name image
              (cpus_for (get_trust_limits user.trust_level))
              (memory_for (get_trust_limits user.trust_level))
              5)
  unfolding new_named
  admitted h free room = rw (h, free, room, new_named) refl

  -- The command refuses the request, reports an error and changes nothing. Or the name is valid and
  -- new among the user's VMs, the user has fewer VMs than the trust level allows, and one row is
  -- added after all others, with the next id, the user, the name, the image and the size of the trust
  -- level; then CreateAndStart runs for it and ends in one of its two ways, and the command works if
  -- it does and leaves what it leaves.
  pub new_named-Admitted :
      ((is_ok (new_named now a m user name image).0 ≡ false)
        × ((new_named now a m user name image).1 ≡ m))
      ⊎ Admitted now a m user name image (new_named now a m user name image)
  unfolding provision
  new_named-Admitted = elim (Bool-cases (valid_name name)) [
    | inr bad ↦ rw (refused_name bad) (inl (refl, refl))
    | inl valid ↦ elim (Result-cases (vm_by_user_and_name m.db user.id name)) [
      | inl taken ↦ rw (refused_again valid taken.1) (inl (refl, refl))
      | inr free ↦
          elim (Bool-cases (
            over_limit (get_trust_limits user.trust_level).vm_limit
              (vm_count_by_user m.db user.id))) [
                | inl full ↦ rw (refused_limit valid free.1 full) (inl (refl, refl))
                | inr room ↦ elim (created-cases now m.db user name image) [
                  | inl broken ↦ rw (admitted valid free.1 room, broken) (inl (refl, refl))
                  | inr made ↦ inr (record {
                    valid = valid;
                    fresh = fresh_name m.db user.id name free.1;
                    room =
                        over_limit-lt (get_trust_limits user.trust_level).vm_limit
                          (vm_count_by_user m.db user.id) room;
                    ends =
                        subst
                          (Ends a m.db.next_vm_id (with_row now m user name image) (
                            create_and_start now a (with_row now m user name image) m.db.next_vm_id
                              name))
                          (sym (admitted valid free.1 room ∙ ap (provision now a m name) made))
                          (provision-Ends now a m name (new_row now m.db user name image)
                            (with_row now m user name image).db);
                  })
                ]
              ]
    ]
  ]
