-- ===== src/Db/Shares.antt =====
-- Shares (internal/db/queries.go): with a user, by a link, and the public flag of a VM.
pub mod Access
pub mod Public
use ussycode.Base.{
  ℕ, suc, Bool, true, false, not, ◌&&◌, ◌||◌, Option, none, some, List, [], ◌∷◌, ◌++◌,
  if◌then◌else◌, nat_eq, list_eq, ◌==◌, Comparable, Result, ok, err, ◌>>=◌,
}
use ussycode.Db.Models.{Text, User, Vm, Share, Db, DbError, constraint_failed, stored}
use ussycode.Db.Vms.{first_where, select_where, delete_where, update_where, exists_where, row}

-- SQL's `column = ?`, which NULL does not satisfy, and `column IS NULL`.
abbrev pub equals {ℓ} : {A : Type ℓ} ⦃e : Comparable A⦄ → Option A → A → Bool
equals none b = false
equals (some a) b = a == b

abbrev pub is_null {ℓ} : {A : Type ℓ} → Option A → Bool
is_null none = true
is_null (some a) = false

-- The references of a new share: its VM, and the user that it names.
unfoldable pub references_hold : Db → ℕ → Option ℕ → Bool
references_hold db vm_id none = exists_where (λ v. v.id == vm_id) db.vms
references_hold db vm_id (some user_id) =
    exists_where (λ v. v.id == vm_id) db.vms && exists_where (λ u. u.id == user_id) db.users

-- `INSERT INTO shares`, which returns the row.
unfoldable pub insert_share : ℕ → Db → ℕ → Option ℕ → Option Text → Bool → Result DbError Share × Db
unfolding references_hold
insert_share now db vm_id shared_with link_token is_public =
    let share : Share = record {
      id = db.next_share_id;
      vm_id = vm_id;
      shared_with = shared_with;
      link_token = link_token;
      is_public = is_public;
      created_at = stored now;
    } in
    if references_hold db vm_id shared_with
    then (
      ok share,
      record db { shares = db.shares ++ share ∷ []; next_share_id = suc db.next_share_id },
    )
    else (err constraint_failed, db)

-- `ShareVMWithUser`: no index makes (vm_id, shared_with) unique, so OR IGNORE has nothing to ignore.
unfoldable pub share_vm_with_user : ℕ → Db → ℕ → ℕ → Result DbError Share × Db
unfolding insert_share
share_vm_with_user now db vm_id target_user_id =
    insert_share now db vm_id (some target_user_id) none false

unfoldable pub share_vm_with_link : ℕ → Db → ℕ → Text → Result DbError Share × Db
unfolding insert_share
share_vm_with_link now db vm_id link_token = insert_share now db vm_id none (some link_token) false

unfoldable pub remove_share : Db → ℕ → Db
remove_share db share_id = record db { shares = delete_where (λ s. s.id == share_id) db.shares }

unfoldable pub remove_share_by_vm_and_user : Db → ℕ → ℕ → Db
remove_share_by_vm_and_user db vm_id target_user_id = record db {
  shares = delete_where (λ s. s.vm_id == vm_id && equals s.shared_with target_user_id) db.shares;
}

unfoldable pub remove_share_link : Db → ℕ → Text → Db
remove_share_link db vm_id token = record db {
  shares = delete_where (λ s. s.vm_id == vm_id && equals s.link_token token) db.shares;
}

unfoldable pub share_by_link_token : Db → Text → Result DbError Share
share_by_link_token db token = row (first_where (λ s. equals s.link_token token) db.shares)

-- The row that carries the public flag of a VM.
abbrev pub is_flag_row : ℕ → Share → Bool
is_flag_row vm_id s = s.vm_id == vm_id && is_null s.shared_with && is_null s.link_token

-- `SetVMPublic`: an UPDATE, and where it affects no row an INSERT.
unfoldable pub set_vm_public : ℕ → Db → ℕ → Bool → Result DbError (Unit {0}) × Db
unfolding insert_share
set_vm_public now db vm_id public =
    if exists_where (is_flag_row vm_id) db.shares
    then (
      ok tt,
      record db {
        shares = update_where (is_flag_row vm_id) (λ s. record s { is_public = public }) db.shares;
      },
    )
    else let (inserted, db') = insert_share now db vm_id none none public in
      (inserted >>= (λ _. ok tt), db')

unfoldable pub is_vm_public : Db → ℕ → Bool
is_vm_public db vm_id = exists_where (λ s. s.vm_id == vm_id && s.is_public) db.shares

unfoldable pub has_share_access : Db → ℕ → ℕ → Bool
has_share_access db vm_id user_id =
    exists_where (λ s. s.vm_id == vm_id && equals s.shared_with user_id) db.shares
