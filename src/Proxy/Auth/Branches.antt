-- ===== src/Proxy/Auth/Branches.antt =====
-- The branches of the handler (internal/proxy/auth.go), by what the queries return.
use ussycode.Base.{
  ℕ, ◌≡◌, refl, true, false, not, ◌&&◌, none, some, if◌then◌else◌, nat_eq, list_eq, ◌==◌, Text,
  is_empty, ok, err,
}
use ussycode.Db.Models.{User, Vm, Share, Token, Db, DbError, is_expired}
use ussycode.Db.Vms.{vm_by_name, user_by_id}
use ussycode.Db.Shares.{share_by_link_token, has_share_access}
use ussycode.Db.Tokens.{token_by_handle}
use ussycode.Proxy.Auth.{
  Request, authenticated, invalid_host, vm_not_found, unauthorized, forbidden, allowed,
  extract_vm_name, set_auth_headers, authenticate_token, is_link_to, bearer_access, vm_access,
  handler,
}

module _ (now : ℕ) (db : Db) (token : Text) where
  pub authenticate_token-no_token :
      {e : DbError} → token_by_handle db token ≡ err e → authenticate_token now db token ≡ none
  unfolding authenticate_token
  authenticate_token-no_token h = rw (h, authenticate_token) refl

  pub authenticate_token-late :
      {t : Token}
      → token_by_handle db token ≡ ok t
      → is_expired now t ≡ true
      → authenticate_token now db token ≡ none
  unfolding authenticate_token
  authenticate_token-late h late = rw (h, late, authenticate_token) refl

  pub authenticate_token-no_user :
      {t : Token} {e : DbError}
      → token_by_handle db token ≡ ok t
      → is_expired now t ≡ false
      → user_by_id db t.user_id ≡ err e
      → authenticate_token now db token ≡ none
  unfolding authenticate_token
  authenticate_token-no_user h live gone = rw (h, live, gone, authenticate_token) refl

  pub authenticate_token-user :
      {t : Token} {u : User}
      → token_by_handle db token ≡ ok t
      → is_expired now t ≡ false
      → user_by_id db t.user_id ≡ ok u
      → authenticate_token now db token ≡ some u
  unfolding authenticate_token
  authenticate_token-user h live found = rw (h, live, found, authenticate_token) refl

  pub bearer_access-none :
      (vm : Vm)
      → authenticate_token now db token ≡ none
      → bearer_access now db vm token ≡ unauthorized
  unfolding bearer_access
  bearer_access-none vm h = rw (h, bearer_access) refl

  pub bearer_access-some :
      (vm : Vm) {u : User}
      → authenticate_token now db token ≡ some u
      → bearer_access now db vm token ≡ (
          if not (u.id == vm.user_id) && not (has_share_access db vm.id u.id)
          then forbidden
          else allowed (set_auth_headers (some u) vm authenticated))
  unfolding bearer_access
  bearer_access-some vm h = rw (h, bearer_access) refl

pub is_link_to-err :
    (db : Db) (vm : Vm) (token : Text) {e : DbError}
    → share_by_link_token db token ≡ err e
    → is_link_to db vm token ≡ false
unfolding is_link_to
is_link_to-err db vm token h = rw (h, is_link_to) refl

pub is_link_to-ok :
    (db : Db) (vm : Vm) (token : Text) {s : Share}
    → share_by_link_token db token ≡ ok s
    → is_link_to db vm token ≡ (s.vm_id == vm.id)
unfolding is_link_to
is_link_to-ok db vm token h = rw (h, is_link_to) refl

module _ (now : ℕ) (db : Db) (domain : Text) (r : Request) where
  pub handler-empty :
      is_empty (extract_vm_name domain r) ≡ true → handler now db domain r ≡ invalid_host
  unfolding handler
  handler-empty h = rw (h, handler) refl

  pub handler-missing :
      {e : DbError}
      → is_empty (extract_vm_name domain r) ≡ false
      → vm_by_name db (extract_vm_name domain r) ≡ err e
      → handler now db domain r ≡ vm_not_found
  unfolding handler
  handler-missing h gone = rw (h, gone, handler) refl

  pub handler-found :
      {vm : Vm}
      → is_empty (extract_vm_name domain r) ≡ false
      → vm_by_name db (extract_vm_name domain r) ≡ ok vm
      → handler now db domain r ≡ vm_access now db r vm
  unfolding handler
  handler-found h found = rw (h, found, handler) refl
