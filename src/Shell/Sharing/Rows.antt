-- ===== src/Shell/Sharing/Rows.antt =====
-- Which rows the statements on the shares and the domains of one VM change (internal/db/queries.go).
use ussycode.Base.{
  ℕ, ◌≡◌, refl, ◌∙◌, sym, ap, Bool, true, false, not, ◌&&◌, Option, none, List, [], ◌∷◌, ◌++◌, inl,
  inr, nat_eq, list_eq, ◌==◌, beq_iff, Bool-cases, arith, Result, ok, err, Text, Mem, here, there,
}
use ussycode.Db.Models.{Vm, Share, CustomDomain, Db, DbError}
use ussycode.Db.Vms.{
  first_where-Mem, select_where, delete_where, update_where, exists_where, row-ok,
}
use ussycode.Db.Select.{
  select-append_miss, select-delete_miss, select-update_miss, exists_where-miss, Mem-delete,
  Mem-append_last,
}
use ussycode.Db.Shares.{references_hold, insert_share, set_vm_public, is_flag_row}
use ussycode.Db.Domains.{
  create_custom_domain, get_custom_domain, verify_custom_domain, delete_custom_domain,
}
use ussycode.Shell.Sharing.{answered}

-- A domain stands for one VM.
abbrev pub OneVm : Db → Type 0
OneVm db =
    (d e : CustomDomain)
    → Mem d db.domains
    → Mem e db.domains
    → d.domain ≡ e.domain
    → d.vm_id ≡ e.vm_id

-- The shares and the domains of the VM stay as they are.
pub record Leaves (vm_id : ℕ) (before after : Db) : Type 0 where
  pub vms : after.vms ≡ before.vms
  pub next : before.next_vm_id ≡ after.next_vm_id
  pub shares :
      select_where (λ s. s.vm_id == vm_id) after.shares
      ≡ select_where (λ s. s.vm_id == vm_id) before.shares
  pub domains :
      select_where (λ d. d.vm_id == vm_id) after.domains
      ≡ select_where (λ d. d.vm_id == vm_id) before.domains
  pub one_vm : OneVm after

pub Leaves-same : (db : Db) → OneVm db → (vm_id : ℕ) → Leaves vm_id db db
Leaves-same db one vm_id = record {
  vms = refl;
  next = refl;
  shares = refl;
  domains = refl;
  one_vm = one;
}

clash : {a b : Text} → (a == b) ≡ false → a ≡ b → ⊥
clash {a} {b} h e = let same = (beq_iff a b).1 e in cc

added_OneVm :
    (domains : List CustomDomain) (x : CustomDomain)
    → ((d e : CustomDomain)
        → Mem d domains
        → Mem e domains
        → d.domain ≡ e.domain
        → d.vm_id ≡ e.vm_id)
    → ((d : CustomDomain) → Mem d domains → (d.domain == x.domain) ≡ false)
    → (d e : CustomDomain) → Mem d (domains ++ x ∷ [])
    → Mem e (domains ++ x ∷ [])
    → d.domain ≡ e.domain
    → d.vm_id ≡ e.vm_id
added_OneVm domains x one fresh d e md me same = elim (Mem-append_last domains x d md) [
  | inl bd ↦ elim (Mem-append_last domains x e me) [
    | inl be ↦ one d e bd be same
    | inr le ↦ absurd (clash (fresh d bd) (same ∙ ap (λ (y : CustomDomain). y.domain) (sym le)))
  ]
  | inr ld ↦ elim (Mem-append_last domains x e me) [
    | inl be ↦ absurd (clash (fresh e be) (sym same ∙ ap (λ (y : CustomDomain). y.domain) (sym ld)))
    | inr le ↦ ap (λ (y : CustomDomain). y.vm_id) (sym ld ∙ le)
  ]
]

-- A changed row has its domain and its VM from a row before.
Mem-update :
    (q : CustomDomain → Bool) (f : CustomDomain → CustomDomain) (xs : List CustomDomain)
    → ((d : CustomDomain) → ((f d).domain ≡ d.domain) × ((f d).vm_id ≡ d.vm_id))
    → (x : CustomDomain) → Mem x (update_where q f xs)
    → (y : CustomDomain) × Mem y xs × (x.domain ≡ y.domain) × (x.vm_id ≡ y.vm_id)
unfolding update_where
Mem-update q f [] keeps x mem = elim mem [ ]
Mem-update q f (y ∷ xs) keeps x (there mem) =
    let (z, mz, same_domain, same_vm) = Mem-update q f xs keeps x mem in
    (z, there mz, same_domain, same_vm)
Mem-update q f (y ∷ xs) keeps x (here e) = elim (Bool-cases (q y)) [
  | inl hit ↦
      let changed : f y ≡ x = rw hit at e in
      (
        y,
        here refl,
        ap (λ (d : CustomDomain). d.domain) (sym changed) ∙ (keeps y).0,
        ap (λ (d : CustomDomain). d.vm_id) (sym changed) ∙ (keeps y).1,
      )
  | inr miss ↦
      let kept : y ≡ x = rw miss at e in
      (
        y,
        here refl,
        ap (λ (d : CustomDomain). d.domain) (sym kept),
        ap (λ (d : CustomDomain). d.vm_id) (sym kept),
      )
]

updated_OneVm :
    (q : CustomDomain → Bool) (f : CustomDomain → CustomDomain) (xs : List CustomDomain)
    → ((d : CustomDomain) → ((f d).domain ≡ d.domain) × ((f d).vm_id ≡ d.vm_id))
    → ((d e : CustomDomain) → Mem d xs → Mem e xs → d.domain ≡ e.domain → d.vm_id ≡ e.vm_id)
    → (d e : CustomDomain) → Mem d (update_where q f xs)
    → Mem e (update_where q f xs)
    → d.domain ≡ e.domain
    → d.vm_id ≡ e.vm_id
updated_OneVm q f xs keeps one d e md me same =
    let (x, mx, domain_x, vm_x) = Mem-update q f xs keeps d md in
    let (y, my, domain_y, vm_y) = Mem-update q f xs keeps e me in
    vm_x ∙ one x y mx my (sym domain_x ∙ same ∙ domain_y) ∙ sym vm_y

module _ (db : Db) (one : OneVm db) (vm_id : ℕ) (vm : Vm) (ne : (vm.id == vm_id) ≡ false) where
  pub same_db : Leaves vm_id db db
  same_db = Leaves-same db one vm_id

  -- A row of VM.
  of_other : (id : ℕ) → (id == vm.id) ≡ true → (id == vm_id) ≡ false
  of_other id h = ap (λ k. k == vm_id) ((beq_iff id vm.id).0 h) ∙ ne

  pub insert_share-Leaves :
      (now : ℕ) (shared_with : Option ℕ) (link : Option Text) (public : Bool)
      → Leaves vm_id db (insert_share now db vm.id shared_with link public).1
  unfolding insert_share
  insert_share-Leaves now shared_with link public =
      elim (Bool-cases (references_hold db vm.id shared_with)) [
        | inr broken ↦ rw (broken, insert_share) same_db
        | inl holds ↦
            rw (holds, insert_share)
              (record {
                vms = refl;
                next = refl;
                shares = select-append_miss (λ s. s.vm_id == vm_id) _ db.shares ne;
                domains = refl;
                one_vm = one;
              })
      ]

  -- Rows of the VM's shares are deleted or changed.
  pub delete_shares-Leaves :
      (q : Share → Bool)
      → ((s : Share) → q s ≡ true → (s.vm_id == vm.id) ≡ true)
      → Leaves vm_id db (record db { shares = delete_where q db.shares })
  delete_shares-Leaves q own = record {
    vms = refl;
    next = refl;
    shares =
        select-delete_miss (λ s. s.vm_id == vm_id) q db.shares
          (λ s mem h. of_other s.vm_id (own s h));
    domains = refl;
    one_vm = one;
  }

  pub set_vm_public-Leaves :
      (now : ℕ) (public : Bool) → Leaves vm_id db (set_vm_public now db vm.id public).1
  unfolding set_vm_public
  set_vm_public-Leaves now public = elim (Bool-cases (exists_where (is_flag_row vm.id) db.shares)) [
    | inr missing ↦ rw (missing, set_vm_public) (insert_share-Leaves now none none public)
    | inl there_is ↦
        rw (there_is, set_vm_public)
          (record {
            vms = refl;
            next = refl;
            shares =
                select-update_miss (λ s. s.vm_id == vm_id) (is_flag_row vm.id) _ db.shares
                  (λ s mem h. of_other s.vm_id (ground (arith, h))) (λ s. refl);
            domains = refl;
            one_vm = one;
          })
  ]

  pub answered-Leaves {ℓ} :
      {A : Type ℓ} (r : Result DbError A) (after : Db)
      → Leaves vm_id db after
      → Leaves vm_id db (answered (r, after)).1
  unfolding answered
  answered-Leaves (ok stored_row) after h = h
  answered-Leaves (err e) after h = h

  pub create_custom_domain-Leaves :
      (now : ℕ) (domain token : Text)
      → Leaves vm_id db (create_custom_domain now db vm.id domain token).1
  unfolding create_custom_domain
  create_custom_domain-Leaves now domain token =
      elim (Bool-cases (
        exists_where (λ v. v.id == vm.id) db.vms
        && not (exists_where (λ d. d.domain == domain) db.domains))) [
          | inr broken ↦ rw (broken, create_custom_domain) same_db
          | inl free ↦
              let unused : exists_where (λ d. d.domain == domain) db.domains ≡ false =
                ground (arith, free) in
              rw (free, create_custom_domain)
                (record {
                  vms = refl;
                  next = refl;
                  shares = refl;
                  domains = select-append_miss (λ d. d.vm_id == vm_id) _ db.domains ne;
                  one_vm = added_OneVm db.domains _ one (λ d mem.
                      exists_where-miss (λ e. e.domain == domain) db.domains unused d mem);
                })
        ]

  -- A row found by its domain is the VM's: so are all of that domain.
  domain_rows :
      (domain : Text) (d : CustomDomain)
      → get_custom_domain db domain ≡ ok d
      → (d.vm_id == vm.id) ≡ true
      → (e : CustomDomain) → Mem e db.domains
      → (e.domain == domain) ≡ true
      → (e.vm_id == vm_id) ≡ false
  unfolding get_custom_domain
  domain_rows domain d found own e mem h =
      let (there_is, hit) = first_where-Mem (λ d. d.domain == domain) db.domains (row-ok _ found) in
      let same =
        one e d mem there_is
          ((beq_iff e.domain domain).0 h ∙ sym ((beq_iff d.domain domain).0 hit)) in
      of_other e.vm_id (ap (λ k. k == vm.id) same ∙ own)

  pub verify_custom_domain-Leaves :
      (now : ℕ) (domain : Text) (d : CustomDomain)
      → get_custom_domain db domain ≡ ok d
      → (d.vm_id == vm.id) ≡ true
      → Leaves vm_id db (verify_custom_domain now db domain)
  unfolding verify_custom_domain
  verify_custom_domain-Leaves now domain d found own = record {
    vms = refl;
    next = refl;
    shares = refl;
    domains =
        select-update_miss (λ d. d.vm_id == vm_id) (λ d. d.domain == domain) _ db.domains
          (domain_rows domain d found own) (λ d. refl);
    one_vm = updated_OneVm (λ d. d.domain == domain) _ db.domains (λ d. (refl, refl)) one;
  }

  pub delete_custom_domain-Leaves :
      (domain : Text) (d : CustomDomain)
      → get_custom_domain db domain ≡ ok d
      → (d.vm_id == vm.id) ≡ true
      → Leaves vm_id db (delete_custom_domain db domain)
  unfolding delete_custom_domain
  delete_custom_domain-Leaves domain d found own = record {
    vms = refl;
    next = refl;
    shares = refl;
    domains =
        select-delete_miss (λ d. d.vm_id == vm_id) (λ d. d.domain == domain) db.domains
          (domain_rows domain d found own);
    one_vm = λ d e md me. one d e (Mem-delete _ db.domains d md) (Mem-delete _ db.domains e me);
  }
