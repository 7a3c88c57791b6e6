-- ===== src/Proxy/Auth/Safety.antt =====
-- No request is let through without a reason (internal/proxy/auth.go: Handler).
use ussycode.Base.{
  ℕ, ◌≡◌, refl, sym, ◌∙◌, ap, ◌≢◌, Bool, true, false, not, ◌&&◌, Option, none, some, if◌then◌else◌,
  nat_eq, list_eq, ◌==◌, Text, is_empty, arith, Bool-cases, inl, inr, Mem, lookup, ok, beq_iff,
  Option-cases, Result-cases,
}
use ussycode.Db.Models.{User, Vm, Share, Db}
use ussycode.Db.Vms.{first_where-Mem, vm_by_name, first_where, row-ok}
use ussycode.Db.Shares.{is_vm_public, has_share_access, equals}
use ussycode.Proxy.Auth.Branches.{
  bearer_access-none, bearer_access-some, handler-empty, handler-missing, handler-found,
}
use ussycode.Proxy.Auth.Entitled.{
  Entitled, is_public, is_owner, is_guest, has_link, Holds, authenticate_token-Holds,
  is_link_to-Mem, exists_where-Mem,
}
use ussycode.Proxy.Auth.{
  Request, public, authenticated, share_link, AuthHeaders, Decision, allowed, extract_vm_name,
  extract_share_token, extract_bearer_token, share_cookie_name, set_auth_headers,
  authenticate_token, is_link_to, redeem, bearer_access, cookie_access, vm_access, handler,
}

public-Entitled :
    (now : ℕ) (db : Db) (r : Request) (vm : Vm)
    → is_vm_public db vm.id ≡ true
    → Entitled now db r vm (set_auth_headers none vm public)
unfolding is_vm_public
public-Entitled now db r vm h =
    let found = exists_where-Mem (λ s. s.vm_id == vm.id && s.is_public) db.shares h in
    is_public found.0 found.1 (ground (arith, found.2, beq_iff found.0.vm_id vm.id))
      (ground (arith, found.2))

equals-some : (o : Option ℕ) (a : ℕ) → equals o a ≡ true → o ≡ some a
equals-some none a h = cc
equals-some (some b) a h = ap some ((beq_iff b a).0 h)

guest_row :
    (db : Db) (vm_id user_id : ℕ)
    → has_share_access db vm_id user_id ≡ true
    → (s : Share) × Mem s db.shares × (s.vm_id ≡ vm_id) × (s.shared_with ≡ some user_id)
unfolding has_share_access
guest_row db vm_id user_id h =
    let found =
      exists_where-Mem (λ s. s.vm_id == vm_id && equals s.shared_with user_id) db.shares h in
    (
      found.0,
      found.1,
      ground (arith, found.2, beq_iff found.0.vm_id vm_id),
      equals-some found.0.shared_with user_id (ground (arith, found.2)),
    )

user-Entitled :
    (now : ℕ) (db : Db) (r : Request) (vm : Vm) (u : User)
    → Holds now db (extract_bearer_token r) u
    → (not (u.id == vm.user_id) && not (has_share_access db vm.id u.id)) ≡ false
    → Entitled now db r vm (set_auth_headers (some u) vm authenticated)
user-Entitled now db r vm u (t, (in_tokens, handle), live, (in_users, id)) h =
    elim (Bool-cases (u.id == vm.user_id)) [
      | inl own ↦
          is_owner t u in_tokens handle live in_users id (sym ((beq_iff u.id vm.user_id).0 own))
      | inr other ↦
          let s = guest_row db vm.id u.id (ground (arith, other, h)) in
          is_guest t u s.0 in_tokens handle live in_users id s.1 s.2 s.3
    ]

guarded :
    {d : Decision} (b : Bool) {h k : AuthHeaders}
    → (d ≢ allowed k)
    → (if b then d else allowed h) ≡ allowed k
    → (b ≡ false) × (h ≡ k)
guarded true n e = absurd (n e)
guarded false n e = (refl, cc)

bearer-Entitled :
    (now : ℕ) (db : Db) (r : Request) (vm : Vm) {h : AuthHeaders}
    → bearer_access now db vm (extract_bearer_token r) ≡ allowed h
    → Entitled now db r vm h
bearer-Entitled now db r vm {h} e =
    let token = extract_bearer_token r in
    elim (Option-cases (authenticate_token now db token)) [
      | inl nobody ↦ absurd (cc (e, bearer_access-none now db token vm nobody))
      | inr somebody ↦
          let u = somebody.0 in
          let split =
            guarded (not (u.id == vm.user_id) && not (has_share_access db vm.id u.id)) (λ p. cc)
              (sym (bearer_access-some now db token vm somebody.1) ∙ e) in
          rw split.1 at
            (user-Entitled now db r vm u (authenticate_token-Holds now db token somebody.1) split.0)
    ]

cookie-Entitled :
    (now : ℕ) (db : Db) (r : Request) (vm : Vm) (o : Option Text) {h : AuthHeaders}
    → lookup (share_cookie_name vm.id) r.cookies ≡ o
    → cookie_access db vm o ≡ allowed h
    → Entitled now db r vm h
unfolding cookie_access
cookie-Entitled now db r vm none found e = cc
cookie-Entitled now db r vm (some token) {h} found e =
    elim (Bool-cases (not (is_empty token) && is_link_to db vm token)) [
      | inl linked ↦
          let s = is_link_to-Mem db vm token (ground (arith, linked)) in
          let same : set_auth_headers none vm share_link ≡ h = cc (rw linked at e) in
          let reason : Entitled now db r vm (set_auth_headers none vm share_link) =
            has_link s.0 token s.1 s.2 s.3 found in
          rw same at reason
      | inr broken ↦ absurd (cc (rw broken at e))
    ]

redeem-refused :
    (db : Db) (vm : Vm) (token : Text) {h : AuthHeaders} → redeem db vm token ≢ allowed h
unfolding redeem
redeem-refused db vm token e = elim (Bool-cases (is_link_to db vm token)) [
  | inl linked ↦ absurd (cc (rw linked at e))
  | inr broken ↦ absurd (cc (rw broken at e))
]

-- The three branches of a request for a VM that carries no link token.
open_access :
    (now : ℕ) (db : Db) (r : Request) (vm : Vm)
    → is_empty (extract_share_token r) ≡ true
    → is_vm_public db vm.id ≡ true
    → vm_access now db r vm ≡ allowed (set_auth_headers none vm public)
unfolding vm_access
open_access now db r vm plain shown = rw (plain, shown) refl

pub token_access :
    (now : ℕ) (db : Db) (r : Request) (vm : Vm)
    → is_empty (extract_share_token r) ≡ true
    → is_vm_public db vm.id ≡ false
    → is_empty (extract_bearer_token r) ≡ false
    → vm_access now db r vm ≡ bearer_access now db vm (extract_bearer_token r)
unfolding vm_access
token_access now db r vm plain hidden bearer = rw (plain, hidden, bearer) refl

link_access :
    (now : ℕ) (db : Db) (r : Request) (vm : Vm)
    → is_empty (extract_share_token r) ≡ true
    → is_vm_public db vm.id ≡ false
    → is_empty (extract_bearer_token r) ≡ true
    → vm_access now db r vm ≡ cookie_access db vm (lookup (share_cookie_name vm.id) r.cookies)
unfolding vm_access
link_access now db r vm plain hidden bare = rw (plain, hidden, bare) refl

redeem_access :
    (now : ℕ) (db : Db) (r : Request) (vm : Vm)
    → is_empty (extract_share_token r) ≡ false
    → vm_access now db r vm ≡ redeem db vm (extract_share_token r)
unfolding vm_access
redeem_access now db r vm h = rw h refl

vm_access-Entitled :
    (now : ℕ) (db : Db) (r : Request) (vm : Vm) {h : AuthHeaders}
    → vm_access now db r vm ≡ allowed h
    → Entitled now db r vm h
vm_access-Entitled now db r vm {h} e = elim (Bool-cases (is_empty (extract_share_token r))) [
  | inr link ↦
      absurd
        (redeem-refused db vm (extract_share_token r) (sym (redeem_access now db r vm link) ∙ e))
  | inl plain ↦ elim (Bool-cases (is_vm_public db vm.id)) [
    | inl shown ↦
        let same : set_auth_headers none vm public ≡ h =
          cc (open_access now db r vm plain shown, e) in
        let reason : Entitled now db r vm (set_auth_headers none vm public) =
          public-Entitled now db r vm shown in
        rw same at reason
    | inr hidden ↦ elim (Bool-cases (is_empty (extract_bearer_token r))) [
      | inr bearer ↦
          bearer-Entitled now db r vm (sym (token_access now db r vm plain hidden bearer) ∙ e)
      | inl bare ↦
          cookie-Entitled now db r vm (lookup (share_cookie_name vm.id) r.cookies) refl
            (sym (link_access now db r vm plain hidden bare) ∙ e)
    ]
  ]
]

vm_found :
    (db : Db) (name : Text) {vm : Vm}
    → vm_by_name db name ≡ ok vm
    → Mem vm db.vms × (vm.name ≡ name)
unfolding vm_by_name
vm_found db name {vm} h =
    let found = first_where-Mem (λ v. v.name == name) db.vms (row-ok (first_where _ db.vms) h) in
    (found.0, (beq_iff vm.name name).0 found.1)

-- A request is let through only to a stored VM that bears the name read from its host, and only if
-- that VM is public, or the request's bearer token is stored, has not expired and is its owner's or
-- that of a user the VM is shared with, or the request's cookie of that VM holds a link of that VM;
-- the headers state that VM, and the user where there is one.
pub handler-Entitled :
    (now : ℕ) (db : Db) (domain : Text) (r : Request) (h : AuthHeaders)
    → handler now db domain r ≡ allowed h
    → (vm : Vm) × Mem vm db.vms × (vm.name ≡ extract_vm_name domain r) × Entitled now db r vm h
handler-Entitled now db domain r h e = elim (Bool-cases (is_empty (extract_vm_name domain r))) [
  | inl nameless ↦ absurd (cc (e, handler-empty now db domain r nameless))
  | inr named ↦ elim (Result-cases (vm_by_name db (extract_vm_name domain r))) [
    | inr missing ↦ absurd (cc (e, handler-missing now db domain r named missing.1))
    | inl found ↦
        let vm = vm_found db (extract_vm_name domain r) found.1 in
        let access = sym (handler-found now db domain r named found.1) ∙ e in
        (found.0, vm.0, vm.1, vm_access-Entitled now db r found.0 access)
  ]
]
