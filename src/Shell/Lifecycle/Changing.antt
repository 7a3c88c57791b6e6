-- ===== src/Shell/Lifecycle/Changing.antt =====
-- Which rows the commands change that copy, delete, tag and rename VMs (internal/ssh/commands.go:
-- cmdCp, cmdRm, cmdTag, cmdRename).
use ussycode.Base.{
  ℕ, ◌≡◌, refl, sym, subst, Option, none, some, List, [], ◌∷◌, Bool, true, false, Result, ok, err,
  Text, nat_eq, list_eq, string_eq, ◌==◌, Bool-cases, inl, inr,
}
use ussycode.Api.Words.{trim_space}
use ussycode.Db.Models.{Vm, Db, DbError, get_trust_limits}
use ussycode.Db.Vms.{
  vm_count_by_user, update_vm_status, is_tag, add_tag, remove_tag, tags_by_vm, exists_where,
}
use ussycode.Db.Owners.{Sound, Owns, Kept, Kept-next, Kept-rows, delete_vm-Kept, rename_vm-Kept}
use ussycode.Db.Owners.Creation.{create_vm-Kept}
use ussycode.Vm.Manager.{Manager, ManagerError}
use ussycode.Vm.Ending.{destroy}
use ussycode.Vm.Ending.Rows.{stop-keeps, clone_disks-db}
use ussycode.Shell.Commands.{valid_name, over_limit}
use ussycode.Shell.Services.{
  Session, System, Answers, remove_proxy_route, unregister_vm_metadata, with_db, lookup_vm,
}
use ussycode.Shell.Services.Rows.{unregister_vm_metadata-manager, add_proxy_route-manager}
use ussycode.Shell.Lifecycle.{
  add_tags, after_clone, copy_vm, copy_new, copy_found, rm_confirmed, after_tag, tag_found,
  after_rename, rename_free, rename_found,
}
use ussycode.Shell.Lifecycle.Running.{Working, Confined, Ready, status_closed}

add_tag-rows :
    (db : Db) (vm_id : ℕ) (tag : Text)
    → ((add_tag db vm_id tag).1.vms ≡ db.vms)
      × (db.next_vm_id ≡ (add_tag db vm_id tag).1.next_vm_id)
unfolding add_tag
add_tag-rows db vm_id tag = elim (Bool-cases (exists_where (is_tag vm_id tag) db.tags)) [
  | inl old ↦ rw (old, add_tag) (refl, refl)
  | inr new ↦ elim (Bool-cases (exists_where (λ v. v.id == vm_id) db.vms)) [
    | inl there ↦ rw (new, there, add_tag) (refl, refl)
    | inr missing ↦ rw (new, missing, add_tag) (refl, refl)
  ]
]

pub add_tag-Kept :
    (user_id : ℕ) (db : Db) (vm_id : ℕ) (tag : Text)
    → Sound db
    → Kept user_id db (add_tag db vm_id tag).1
add_tag-Kept user_id db vm_id tag sound =
    let (rows, next) = add_tag-rows db vm_id tag in Kept-rows user_id db _ sound rows next

add_tags-Kept :
    (user_id : ℕ) (before : Db) (vm_id : ℕ) (tags : List Text) (db : Db)
    → Kept user_id before db
    → Kept user_id before (add_tags db vm_id tags)
unfolding add_tags
add_tags-Kept user_id before vm_id [] db h = h
add_tags-Kept user_id before vm_id (tag ∷ tags) db h =
    add_tags-Kept user_id before vm_id tags (add_tag db vm_id tag).1
      (Kept-next h (add_tag-Kept user_id db vm_id tag h.sound))

after_tag-db :
    (s : System) (r : Result DbError (Unit {0})) (db : Db) → (after_tag s (r, db)).1.manager.db ≡ db
unfolding after_tag
after_tag-db s (err e) db = refl
after_tag-db s (ok done) db = refl

module _ (a : Answers) (session : Session) (before : Db) where
  after_clone-Confined :
      (s : System) (source_id new_id : ℕ) (r : Result ManagerError (Unit {0})) (m : Manager)
      → Working session.user.id new_id before m.db
      → Confined session before (after_clone a s source_id new_id (r, m))
  unfolding after_clone
  after_clone-Confined s source_id new_id (err e) m (kept, own) =
      Kept-next kept (delete_vm-Kept session.user.id new_id m.db kept.sound own)
  after_clone-Confined s source_id new_id (ok done) m h =
      let db = update_vm_status a.now m.db new_id "stopped" none none none none in
      let (kept, own) =
        status_closed session.user.id new_id before a.now m.db "stopped" none none none none h in
      add_tags-Kept session.user.id before new_id (tags_by_vm db source_id) db kept

  copy_vm-Confined :
      (s : System) (source : Vm) (r : Result DbError Vm) (db : Db)
      → Kept session.user.id before db
      → ((vm : Vm) → r ≡ ok vm → Owns session.user.id vm.id db)
      → Confined session before (copy_vm a s source (r, db))
  unfolding copy_vm
  copy_vm-Confined s source (err e) db kept own = kept
  copy_vm-Confined s source (ok vm) db kept own = after_clone-Confined s source.id vm.id _ _ (
      subst (Working session.user.id vm.id before)
        (sym (
          clone_disks-db a.rootfs_copied a.data_copied a.copy_removed (with_db s db).manager
            source.id vm.id))
        (kept, own vm refl))

  copy_new-Confined :
      (s : System) (source : Vm) (name : Text) (r : Result DbError Vm)
      → Kept session.user.id before s.manager.db
      → Confined session before (copy_new a session s source name r)
  unfolding copy_new
  copy_new-Confined s source name (ok taken) kept = kept
  copy_new-Confined s source name (err free) kept =
      let made =
        create_vm-Kept session.user.id s.manager.db kept.sound a.now name source.image source.vcpu
          source.memory_mb source.disk_gb in
      elim (Bool-cases (
        over_limit (get_trust_limits session.user.trust_level).vm_limit
          (vm_count_by_user s.manager.db session.user.id))) [
            | inl full ↦ rw (full, copy_new) kept
            | inr room ↦
                rw (room, copy_new) (copy_vm-Confined s source _ _ (Kept-next kept made.0) made.1)
          ]

  pub copy_found-Confined :
      (s : System) (name : Text) (r : Result DbError Vm)
      → Kept session.user.id before s.manager.db
      → Confined session before (copy_found a session s name r)
  unfolding copy_found
  copy_found-Confined s name (err e) kept = kept
  copy_found-Confined s name (ok source) kept = elim (Bool-cases (valid_name name)) [
    | inr bad ↦ rw (bad, copy_found) kept
    | inl valid ↦ rw (valid, copy_found) (copy_new-Confined s source name _ kept)
  ]

  pub rm_confirmed-Confined :
      (s : System) (name : Text) (vm : Vm) (typed : Option Text)
      → Ready session before vm.id s
      → Confined session before (rm_confirmed a session s name vm typed)
  unfolding rm_confirmed destroy remove_proxy_route
  rm_confirmed-Confined s name vm none h = h.0
  rm_confirmed-Confined s name vm (some typed) h = elim (Bool-cases (trim_space typed == name)) [
    | inr other ↦ rw (other, rm_confirmed) h.0
    | inl same ↦
        let hidden =
          unregister_vm_metadata session (remove_proxy_route a.route_removed s name) vm.id in
        let ready =
          subst (λ (m : Manager). Working session.user.id vm.id before m.db)
            (sym (
              unregister_vm_metadata-manager session (remove_proxy_route a.route_removed s name)
                vm.id))
            h in
        let (kept, own) =
          stop-keeps (Working session.user.id vm.id before) vm.id
            (status_closed session.user.id vm.id before) a.now a.stopped hidden.manager ready in
        rw (same, rm_confirmed)
          (Kept-next kept (delete_vm-Kept session.user.id vm.id _ kept.sound own))
  ]

  pub tag_found-Confined :
      (s : System) (remove : Bool) (tag : Text) (r : Result DbError Vm)
      → Kept session.user.id before s.manager.db
      → Confined session before (tag_found s remove tag r)
  unfolding tag_found remove_tag
  tag_found-Confined s remove tag (err e) kept = kept
  tag_found-Confined s true tag (ok vm) kept =
      Kept-next kept (Kept-rows session.user.id _ _ kept.sound refl refl)
  tag_found-Confined s false tag (ok vm) kept =
      subst (Kept session.user.id before) (sym (after_tag-db s _ _))
        (Kept-next kept (add_tag-Kept session.user.id s.manager.db vm.id tag kept.sound))

  after_rename-Confined :
      (s : System) (vm : Vm) (old_name new_name : Text) (r : Result DbError (Unit {0})) (db : Db)
      → Kept session.user.id before db
      → Confined session before (after_rename a session s vm old_name new_name (r, db))
  unfolding after_rename remove_proxy_route
  after_rename-Confined s vm old_name new_name (err e) db kept = kept
  after_rename-Confined s vm old_name new_name (ok done) db kept =
      elim (Bool-cases (vm.status == "running")) [
        | inr other ↦ rw (other, after_rename) kept
        | inl running ↦
            rw (running, after_rename)
              (subst (λ (m : Manager). Kept session.user.id before m.db)
                (sym (
                  add_proxy_route-manager session
                    (remove_proxy_route a.route_removed (with_db s db) old_name) vm.id a.route_added
                    new_name))
                kept)
      ]

  rename_free-Confined :
      (s : System) (vm : Vm) (old_name new_name : Text) (r : Result DbError Vm)
      → Ready session before vm.id s
      → Confined session before (rename_free a session s vm old_name new_name r)
  unfolding rename_free
  rename_free-Confined s vm old_name new_name (ok taken) h = h.0
  rename_free-Confined s vm old_name new_name (err free) (kept, own) =
      after_rename-Confined s vm old_name new_name _ _ (
        Kept-next kept
          (rename_vm-Kept session.user.id vm.id s.manager.db kept.sound own a.now new_name))

  pub rename_found-Confined :
      (s : System) (old_name new_name : Text) (vm : Vm)
      → Ready session before vm.id s
      → Confined session before (rename_found a session s old_name new_name (ok vm))
  unfolding rename_found
  rename_found-Confined s old_name new_name vm h =
      rename_free-Confined s vm old_name new_name (lookup_vm session s new_name) h
