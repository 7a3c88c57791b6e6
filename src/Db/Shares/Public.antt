-- ===== src/Db/Shares/Public.antt =====
-- The public flag of a VM (internal/db/queries.go: SetVMPublic, IsVMPublic) under all operations on
-- shares.
use ussycode.Base.{
  ◌>>=◌, ℕ, ◌≡◌, refl, Bool, true, false, ◌&&◌, ◌||◌, Option, none, some, List, [], ◌∷◌, ◌++◌,
  if◌then◌else◌, nat_eq, list_eq, ◌==◌, Result, ok, err, arith, is_ok, beq_iff, Bool-cases, All,
  inl, inr,
}
use ussycode.Db.Models.{Text, Share, Db, DbError}
use ussycode.Db.Vms.{delete_where, update_where, exists_where, delete_vm}
use ussycode.Db.Shares.{
  is_flag_row, references_hold, insert_share, share_vm_with_user, share_vm_with_link, remove_share,
  remove_share_by_vm_and_user, remove_share_link, set_vm_public, is_vm_public,
}

-- A public row names no user and no link.
abbrev FlagOnly : Share → Type 0
FlagOnly s = s.is_public ≡ true → (s.shared_with ≡ none) × (s.link_token ≡ none)

abbrev pub FlagsOnly : Db → Type 0
FlagsOnly db = All FlagOnly db.shares

All-append :
    (xs : List Share) (s : Share) → All FlagOnly xs → FlagOnly s → All FlagOnly (xs ++ s ∷ [])
All-append [] s all h = (h, tt)
All-append (x ∷ xs) s all h = (all.0, All-append xs s all.1 h)

All-delete :
    (p : Share → Bool) (xs : List Share) → All FlagOnly xs → All FlagOnly (delete_where p xs)
unfolding delete_where
All-delete p [] all = tt
All-delete p (x ∷ xs) all = elim (Bool-cases (p x)) [
  | inl gone ↦ rw gone (All-delete p xs all.1)
  | inr kept ↦ rw kept (all.0, All-delete p xs all.1)
]

All-update :
    (vm_id : ℕ) (b : Bool) (xs : List Share)
    → All FlagOnly xs
    → All FlagOnly (update_where (is_flag_row vm_id) (λ s. record s { is_public = b }) xs)
unfolding update_where
All-update vm_id b [] all = tt
All-update vm_id b (x ∷ xs) all = (ground (arith, all.0), All-update vm_id b xs all.1)

pub data ShareCall : Type 0 where
  shares_with : ℕ → ℕ → ShareCall
  links : ℕ → Text → ShareCall
  removes : ℕ → ShareCall
  unshares : ℕ → ℕ → ShareCall
  unlinks : ℕ → Text → ShareCall
  publishes : ℕ → Bool → ShareCall
  drops : ℕ → ShareCall

unfoldable pub share_step : ℕ → Db → ShareCall → Db
share_step now db (shares_with vm user) = (share_vm_with_user now db vm user).1
share_step now db (links vm token) = (share_vm_with_link now db vm token).1
share_step now db (removes id) = remove_share db id
share_step now db (unshares vm user) = remove_share_by_vm_and_user db vm user
share_step now db (unlinks vm token) = remove_share_link db vm token
share_step now db (publishes vm public) = (set_vm_public now db vm public).1
share_step now db (drops vm) = delete_vm db vm

unfoldable pub share_run : Db → List (ℕ × ShareCall) → Db
share_run db [] = db
share_run db ((now, c) ∷ rest) = share_run (share_step now db c) rest

insert-FlagsOnly :
    (now : ℕ) (db : Db) (vm : ℕ) (user : Option ℕ) (link : Option Text) (public : Bool)
    → (public ≡ true → (user ≡ none) × (link ≡ none))
    → FlagsOnly db
    → FlagsOnly (insert_share now db vm user link public).1
unfolding insert_share
insert-FlagsOnly now db vm user link public flag v =
    elim (Bool-cases (references_hold db vm user)) [
      | inl held ↦ rw held (All-append db.shares _ v flag)
      | inr broken ↦ rw broken v
    ]

set_vm_public-FlagsOnly :
    (now : ℕ) (db : Db) (vm : ℕ) (public : Bool)
    → FlagsOnly db
    → FlagsOnly (set_vm_public now db vm public).1
unfolding set_vm_public
set_vm_public-FlagsOnly now db vm public v =
    elim (Bool-cases (exists_where (is_flag_row vm) db.shares)) [
      | inl there ↦ rw there (All-update vm public db.shares v)
      | inr missing ↦ rw missing (insert-FlagsOnly now db vm none none public (λ h. (refl, refl)) v)
    ]

-- Every operation on shares keeps the flag to rows of their own.
share_step-FlagsOnly :
    (now : ℕ) (db : Db) (c : ShareCall) → FlagsOnly db → FlagsOnly (share_step now db c)
unfolding share_step share_vm_with_user share_vm_with_link remove_share remove_share_by_vm_and_user
    remove_share_link delete_vm
share_step-FlagsOnly now db (shares_with vm user) v =
    insert-FlagsOnly now db vm (some user) none false (λ h. cc) v
share_step-FlagsOnly now db (links vm token) v =
    insert-FlagsOnly now db vm none (some token) false (λ h. cc) v
share_step-FlagsOnly now db (removes id) v = All-delete _ db.shares v
share_step-FlagsOnly now db (unshares vm user) v = All-delete _ db.shares v
share_step-FlagsOnly now db (unlinks vm token) v = All-delete _ db.shares v
share_step-FlagsOnly now db (publishes vm public) v = set_vm_public-FlagsOnly now db vm public v
share_step-FlagsOnly now db (drops vm) v = All-delete _ db.shares v

share_run-FlagsOnly :
    (cs : List (ℕ × ShareCall)) (db : Db) → FlagsOnly db → FlagsOnly (share_run db cs)
unfolding share_run
share_run-FlagsOnly [] db v = v
share_run-FlagsOnly ((now, c) ∷ rest) db v =
    share_run-FlagsOnly rest (share_step now db c) (share_step-FlagsOnly now db c v)

abbrev public_in : ℕ → List Share → Bool
public_in v xs = exists_where (λ s. s.vm_id == v && s.is_public) xs

public_in-update :
    (vm v : ℕ) (b : Bool) (xs : List Share)
    → All FlagOnly xs
    → public_in v (update_where (is_flag_row vm) (λ s. record s { is_public = b }) xs)
      ≡ (if vm == v then b && exists_where (is_flag_row vm) xs else public_in v xs)
unfolding exists_where update_where
public_in-update vm v b [] all = ground arith
public_in-update vm v b (x ∷ xs) all = ground (
  arith,
  all.0,
  public_in-update vm v b xs all.1,
  beq_iff vm v,
  beq_iff x.vm_id v,
  beq_iff x.vm_id vm,
)

public_in-append :
    (v : ℕ) (s : Share) (xs : List Share)
    → public_in v (xs ++ s ∷ []) ≡ (public_in v xs || s.vm_id == v && s.is_public)
unfolding exists_where
public_in-append v s [] = ground arith
public_in-append v s (x ∷ xs) = ground (arith, public_in-append v s xs)

public_in-none :
    (vm : ℕ) (xs : List Share)
    → All FlagOnly xs
    → exists_where (is_flag_row vm) xs ≡ false
    → public_in vm xs ≡ false
unfolding exists_where
public_in-none vm [] all h = refl
public_in-none vm (x ∷ xs) all h = ground (arith, all.0, public_in-none vm xs all.1)

abbrev done : Share → Result DbError (Unit {0})
done s = ok tt

is_ok-then : (r : Result DbError Share) → is_ok (r >>= done) ≡ is_ok r
is_ok-then (ok s) = refl
is_ok-then (err e) = refl

inserted_flag :
    (now : ℕ) (db : Db) (vm v : ℕ) (b : Bool)
    → public_in vm db.shares ≡ false
    → is_ok (insert_share now db vm none none b).0 ≡ true
    → public_in v (insert_share now db vm none none b).1.shares
      ≡ (if vm == v then b else public_in v db.shares)
unfolding insert_share
inserted_flag now db vm v b hidden held = elim (Bool-cases (references_hold db vm none)) [
  | inl there ↦ rw (there, public_in-append v _ db.shares) (ground (arith, hidden, beq_iff vm v))
  | inr broken ↦ ground (arith, held, broken)
]

set_vm_public_there :
    (now : ℕ) (db : Db) (vm : ℕ) (b : Bool)
    → exists_where (is_flag_row vm) db.shares ≡ true
    → (set_vm_public now db vm b).1.shares
      ≡ update_where (is_flag_row vm) (λ s. record s { is_public = b }) db.shares
unfolding set_vm_public
set_vm_public_there now db vm b h = rw h refl

set_vm_public_missing :
    (now : ℕ) (db : Db) (vm : ℕ) (b : Bool)
    → exists_where (is_flag_row vm) db.shares ≡ false
    → ((set_vm_public now db vm b).1 ≡ (insert_share now db vm none none b).1)
      × (is_ok (set_vm_public now db vm b).0 ≡ is_ok (insert_share now db vm none none b).0)
unfolding set_vm_public
set_vm_public_missing now db vm b h = rw h (refl, is_ok-then (insert_share now db vm none none b).0)

-- After any calls on shares and any deletions of VMs, at any times, a call of SetVMPublic that
-- succeeds sets what IsVMPublic says of that VM to the value given, and of no other VM.
pub set_vm_public_lem :
    (cs : List (ℕ × ShareCall)) (start : Db)
    → start.shares ≡ []
    → (now vm v : ℕ) (b : Bool) → is_ok (set_vm_public now (share_run start cs) vm b).0 ≡ true
    → is_vm_public (set_vm_public now (share_run start cs) vm b).1 v
      ≡ (if vm == v then b else is_vm_public (share_run start cs) v)
unfolding is_vm_public
set_vm_public_lem cs start empty now vm v b held =
    let db = share_run start cs in
    let flags = share_run-FlagsOnly cs start (rw empty tt) in
    elim (Bool-cases (exists_where (is_flag_row vm) db.shares)) [
      | inl there ↦
          rw (set_vm_public_there now db vm b there, public_in-update vm v b db.shares flags, there)
            (ground arith)
      | inr missing ↦
          let eqs = set_vm_public_missing now db vm b missing in
          rw eqs.0 (
            inserted_flag now db vm v b (public_in-none vm db.shares flags missing)
              (cc (eqs.1, held)))
    ]
