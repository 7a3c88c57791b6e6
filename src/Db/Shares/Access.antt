-- ===== src/Db/Shares/Access.antt =====
-- Who has access through a share (internal/db/queries.go: ShareVMWithUser,
-- RemoveShareByVMAndUser, RemoveShareLink, HasShareAccess, ShareByLinkToken).
use ussycode.Base.{
  ◌⊎◌, inl, inr, ℕ, ◌≡◌, refl, ◌≢◌, Bool, true, not, ◌&&◌, ◌||◌, some, List, [], ◌∷◌, ◌++◌, nat_eq,
  list_eq, ◌==◌, ok, arith, is_ok, beq_iff, Bool-cases,
}
use ussycode.Db.Models.{Text, Share, Db}
use ussycode.Db.Vms.{first_where, delete_where, exists_where, row-ok}
use ussycode.Db.Shares.{
  equals, references_hold, insert_share, share_vm_with_user, remove_share_by_vm_and_user,
  remove_share_link, share_by_link_token, has_share_access,
}

exists_where-append {ℓ} :
    {A : Type ℓ} (p : A → Bool) (xs ys : List A)
    → exists_where p (xs ++ ys) ≡ (exists_where p xs || exists_where p ys)
unfolding exists_where
exists_where-append p [] ys = refl
exists_where-append p (x ∷ xs) ys = ground (arith, exists_where-append p xs ys)

-- A row that gives a user access to a VM.
abbrev gives : ℕ → ℕ → Share → Bool
gives vm_id user_id s = s.vm_id == vm_id && equals s.shared_with user_id

gives_append :
    (s : Share) (shares : List Share) (v u : ℕ)
    → exists_where (gives v u) (shares ++ s ∷ []) ≡ (exists_where (gives v u) shares || gives v u s)
unfolding exists_where
gives_append s shares v u = ground (arith, exists_where-append (gives v u) shares (s ∷ []))

-- Sharing that succeeds gives the named user access to the named VM, and changes no other access.
pub has_share_access-share_vm_with_user :
    (now : ℕ) (db : Db) (vm_id user_id v u : ℕ)
    → is_ok (share_vm_with_user now db vm_id user_id).0 ≡ true
    → has_share_access (share_vm_with_user now db vm_id user_id).1 v u
      ≡ (has_share_access db v u || vm_id == v && user_id == u)
unfolding share_vm_with_user has_share_access insert_share
has_share_access-share_vm_with_user now db vm_id user_id v u h =
    elim (Bool-cases (references_hold db vm_id (some user_id))) [
      | inl held ↦ rw held (gives_append _ db.shares v u)
      | inr broken ↦ absurd (ground arith)
    ]

gives-delete :
    (vm_id user_id v u : ℕ) (shares : List Share)
    → exists_where (gives v u) (delete_where (gives vm_id user_id) shares)
      ≡ (exists_where (gives v u) shares && not (vm_id == v && user_id == u))
unfolding exists_where delete_where
gives-delete vm_id user_id v u [] = refl
gives-delete vm_id user_id v u (s ∷ shares) = ground (arith, gives-delete vm_id user_id v u shares)

-- Taking a share back, however often it was given, ends the user's access to the VM and no other.
pub has_share_access-remove_share :
    (db : Db) (vm_id user_id v u : ℕ)
    → has_share_access (remove_share_by_vm_and_user db vm_id user_id) v u
      ≡ (has_share_access db v u && not (vm_id == v && user_id == u))
unfolding remove_share_by_vm_and_user has_share_access
has_share_access-remove_share db vm_id user_id v u = gives-delete vm_id user_id v u db.shares

-- A row that a link token opens.
abbrev opened_by : Text → Share → Bool
opened_by token s = equals s.link_token token

link-delete :
    (vm_id : ℕ) (token t : Text) (shares : List Share) (s : Share)
    → first_where (opened_by t) (delete_where (λ s. s.vm_id == vm_id && opened_by token s) shares)
      ≡ some s
    → (s.vm_id ≢ vm_id) ⊎ (t ≢ token)
unfolding first_where delete_where
link-delete vm_id token t [] s h = cc
link-delete vm_id token t (x ∷ shares) s h =
    ground (arith, link-delete vm_id token t shares s, beq_iff t token)

-- After a link is taken back, its token opens the VM no longer.
pub share_by_link_token-remove :
    (db : Db) (vm_id : ℕ) (token : Text) (s : Share)
    → share_by_link_token (remove_share_link db vm_id token) token ≡ ok s
    → s.vm_id ≢ vm_id
unfolding share_by_link_token remove_share_link
share_by_link_token-remove db vm_id token s h =
    elim (link-delete vm_id token token db.shares s (row-ok _ h)) [
      | inl elsewhere ↦ elsewhere
      | inr differ ↦ absurd (differ refl)
    ]
