-- ===== src/Shell/Sharing/Steps.antt =====
-- Which rows a command on the shares and the domains of one VM changes (internal/ssh/commands.go).
use ussycode.Base.{
  ℕ, ◌≡◌, refl, true, false, Option, none, some, List, inl, inr, nat_eq, list_eq, ◌==◌, Bool-cases,
  arith, Result, ok, err, Text,
}
use ussycode.Db.Models.{User, Vm, CustomDomain, Db, DbError}
use ussycode.Db.Shares.{
  share_vm_with_user, share_vm_with_link, remove_share_by_vm_and_user, remove_share_link,
}
use ussycode.Db.Domains.{get_custom_domain}
use ussycode.Shell.Sharing.{
  ShareVerb, add, remove, add_link, remove_link, set_public, set_private, cname, cname_verify,
  cname_rm, Outside, share_add, share_remove, share_add_link, cname_known, mem_trimmed, token_text,
  check_dns, verify_known, cname_rm_known, share_found,
}
use ussycode.Shell.Sharing.Rows.{
  OneVm, Leaves, insert_share-Leaves, delete_shares-Leaves, set_vm_public-Leaves, answered-Leaves,
  create_custom_domain-Leaves, verify_custom_domain-Leaves, delete_custom_domain-Leaves, same_db,
}

module _ (db : Db) (one : OneVm db) (vm_id : ℕ) (vm : Vm) (ne : (vm.id == vm_id) ≡ false) where
  share_add-Leaves :
      (o : Outside) (user : User) (target : Result DbError User)
      → Leaves vm_id db (share_add o db user vm target).1
  unfolding share_add share_vm_with_user
  share_add-Leaves o user (err e) = same_db db one vm_id vm ne
  share_add-Leaves o user (ok target) = elim (Bool-cases (target.id == user.id)) [
    | inl self ↦ rw (self, share_add) (same_db db one vm_id vm ne)
    | inr someone ↦
        rw (someone, share_add)
          (answered-Leaves db one vm_id vm ne _ _
            ((insert_share-Leaves db one vm_id vm ne o.now (some target.id) none false)))
  ]

  share_remove-Leaves :
      (target : Result DbError User) → Leaves vm_id db (share_remove db vm target).1
  unfolding share_remove remove_share_by_vm_and_user
  share_remove-Leaves (err e) = same_db db one vm_id vm ne
  share_remove-Leaves (ok target) =
      delete_shares-Leaves db one vm_id vm ne _ (λ s h. ground (arith, h))

  share_add_link-Leaves :
      (o : Outside) (token : Option Text) → Leaves vm_id db (share_add_link o db vm token).1
  unfolding share_add_link share_vm_with_link
  share_add_link-Leaves o none = same_db db one vm_id vm ne
  share_add_link-Leaves o (some token) =
      answered-Leaves db one vm_id vm ne _ _
        ((insert_share-Leaves db one vm_id vm ne o.now none (some token) false))

  cname_known-Leaves :
      (o : Outside) (domain : Text) (token : Option Text) (r : Result DbError CustomDomain)
      → Leaves vm_id db (cname_known o db vm domain token r).1
  unfolding cname_known
  cname_known-Leaves o domain token (ok existing) = elim (Bool-cases (existing.vm_id == vm.id)) [
    | inl own ↦ rw (own, cname_known) (same_db db one vm_id vm ne)
    | inr taken ↦ rw (taken, cname_known) (same_db db one vm_id vm ne)
  ]
  cname_known-Leaves o domain none (err e) = same_db db one vm_id vm ne
  cname_known-Leaves o domain (some token) (err e) =
      answered-Leaves db one vm_id vm ne _ _
        ((create_custom_domain-Leaves db one vm_id vm ne o.now domain token))

  check_dns-Leaves :
      (o : Outside) (domain : Text) (d : CustomDomain) (records : Option (List Text))
      → get_custom_domain db domain ≡ ok d
      → (d.vm_id == vm.id) ≡ true
      → Leaves vm_id db (check_dns o db domain d records).1
  unfolding check_dns
  check_dns-Leaves o domain d none found own = same_db db one vm_id vm ne
  check_dns-Leaves o domain d (some records) found own =
      elim (Bool-cases (mem_trimmed (token_text d.verification_token) records)) [
        | inr missing ↦ rw (missing, check_dns) (same_db db one vm_id vm ne)
        | inl there_is ↦
            rw (there_is, check_dns)
              (verify_custom_domain-Leaves db one vm_id vm ne o.now domain d found own)
      ]

  verify_known-Leaves :
      (o : Outside) (domain : Text) (r : Result DbError CustomDomain)
      → get_custom_domain db domain ≡ r
      → Leaves vm_id db (verify_known o db vm domain r).1
  unfolding verify_known
  verify_known-Leaves o domain (err e) found = same_db db one vm_id vm ne
  verify_known-Leaves o domain (ok d) found = elim (Bool-cases (d.vm_id == vm.id)) [
    | inr foreign ↦ rw (foreign, verify_known) (same_db db one vm_id vm ne)
    | inl own ↦ elim (Bool-cases d.verified) [
      | inl done ↦ rw (own, done, verify_known) (same_db db one vm_id vm ne)
      | inr pending ↦
          rw (own, pending, verify_known) (check_dns-Leaves o domain d o.txt_records found own)
    ]
  ]

  cname_rm_known-Leaves :
      (domain : Text) (r : Result DbError CustomDomain)
      → get_custom_domain db domain ≡ r
      → Leaves vm_id db (cname_rm_known db vm domain r).1
  unfolding cname_rm_known
  cname_rm_known-Leaves domain (err e) found = same_db db one vm_id vm ne
  cname_rm_known-Leaves domain (ok d) found = elim (Bool-cases (d.vm_id == vm.id)) [
    | inr foreign ↦ rw (foreign, cname_rm_known) (same_db db one vm_id vm ne)
    | inl own ↦
        rw (own, cname_rm_known) (delete_custom_domain-Leaves db one vm_id vm ne domain d found own)
  ]

  pub share_found-Leaves :
      (o : Outside) (user : User) (verb : ShareVerb) (arg : Text)
      → Leaves vm_id db (share_found o db user verb arg vm).1
  unfolding share_found remove_share_link
  share_found-Leaves o user add arg = share_add-Leaves o user _
  share_found-Leaves o user remove arg = share_remove-Leaves _
  share_found-Leaves o user add_link arg = share_add_link-Leaves o o.token
  share_found-Leaves o user remove_link arg =
      delete_shares-Leaves db one vm_id vm ne _ (λ s h. ground (arith, h))
  share_found-Leaves o user set_public arg =
      answered-Leaves db one vm_id vm ne _ _ ((set_vm_public-Leaves db one vm_id vm ne o.now true))
  share_found-Leaves o user set_private arg =
      answered-Leaves db one vm_id vm ne _ _ ((set_vm_public-Leaves db one vm_id vm ne o.now false))
  share_found-Leaves o user cname arg = cname_known-Leaves o _ o.token _
  share_found-Leaves o user cname_verify arg = verify_known-Leaves o _ _ refl
  share_found-Leaves o user cname_rm arg = cname_rm_known-Leaves _ _ refl
