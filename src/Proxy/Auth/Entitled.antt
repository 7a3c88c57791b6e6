-- ===== src/Proxy/Auth/Entitled.antt =====
-- Who is let through (internal/proxy/auth.go: Handler).
use ussycode.Base.{
  ℕ, ◌≡◌, refl, ap, Bool, true, false, Option, none, some, List, [], ◌∷◌, nat_eq, list_eq, ◌==◌,
  Text, Bool-cases, inl, inr, Mem, here, there, lookup, ok, beq_iff, Result-cases,
}
use ussycode.Db.Models.{User, Vm, Share, Token, Db, is_expired}
use ussycode.Db.Vms.{first_where-Mem, user_by_id, first_where, exists_where, row-ok}
use ussycode.Db.Shares.{share_by_link_token, equals}
use ussycode.Db.Tokens.{token_by_handle}
use ussycode.Proxy.Auth.Branches.{
  authenticate_token-no_token, authenticate_token-late, authenticate_token-no_user,
  authenticate_token-user, is_link_to-err, is_link_to-ok,
}
use ussycode.Proxy.Auth.{
  Request, public, authenticated, share_link, AuthHeaders, extract_bearer_token, share_cookie_name,
  set_auth_headers, authenticate_token, is_link_to,
}

-- The reasons for which a VM's owner expects a request to reach it.
pub data Entitled (now : ℕ) (db : Db) (r : Request) (vm : Vm) : AuthHeaders → Type 0 where
  is_public :
      (s : Share)
      → Mem s db.shares
      → s.vm_id ≡ vm.id
      → s.is_public ≡ true
      → Entitled now db r vm (set_auth_headers none vm public)
  is_owner :
      (t : Token) (u : User)
      → Mem t db.tokens
      → t.handle ≡ extract_bearer_token r
      → is_expired now t ≡ false
      → Mem u db.users
      → u.id ≡ t.user_id
      → vm.user_id ≡ u.id
      → Entitled now db r vm (set_auth_headers (some u) vm authenticated)
  is_guest :
      (t : Token) (u : User) (s : Share)
      → Mem t db.tokens
      → t.handle ≡ extract_bearer_token r
      → is_expired now t ≡ false
      → Mem u db.users
      → u.id ≡ t.user_id
      → Mem s db.shares
      → s.vm_id ≡ vm.id
      → s.shared_with ≡ some u.id
      → Entitled now db r vm (set_auth_headers (some u) vm authenticated)
  has_link :
      (s : Share) (token : Text)
      → Mem s db.shares
      → s.vm_id ≡ vm.id
      → s.link_token ≡ some token
      → lookup (share_cookie_name vm.id) r.cookies ≡ some token
      → Entitled now db r vm (set_auth_headers none vm share_link)

pub exists_where-Mem {ℓ} :
    {A : Type ℓ} (p : A → Bool) (xs : List A)
    → exists_where p xs ≡ true
    → (a : A) × Mem a xs × (p a ≡ true)
unfolding exists_where
exists_where-Mem p [] h = cc
exists_where-Mem p (x ∷ xs) h = elim (Bool-cases (p x)) [
  | inl holds ↦ (x, here refl, holds)
  | inr fails ↦ let rest = exists_where-Mem p xs (rw fails at h) in (rest.0, there rest.1, rest.2)
]

token_found :
    (db : Db) (handle : Text) {t : Token}
    → token_by_handle db handle ≡ ok t
    → Mem t db.tokens × (t.handle ≡ handle)
unfolding token_by_handle
token_found db handle {t} h =
    let found =
      first_where-Mem (λ t. t.handle == handle) db.tokens (row-ok (first_where _ db.tokens) h) in
    (found.0, (beq_iff t.handle handle).0 found.1)

user_found : (db : Db) (id : ℕ) {u : User} → user_by_id db id ≡ ok u → Mem u db.users × (u.id ≡ id)
unfolding user_by_id
user_found db id {u} h =
    let found = first_where-Mem (λ u. u.id == id) db.users (row-ok (first_where _ db.users) h) in
    (found.0, (beq_iff u.id id).0 found.1)

-- A bearer token stands for a user when it is stored, not expired, and its user exists.
abbrev pub Holds : ℕ → Db → Text → User → Type 0
Holds now db token u =
    (t : Token) × (Mem t db.tokens × (t.handle ≡ token))
    × (is_expired now t ≡ false)
    × (Mem u db.users × (u.id ≡ t.user_id))

pub authenticate_token-Holds :
    (now : ℕ) (db : Db) (token : Text) {u : User}
    → authenticate_token now db token ≡ some u
    → Holds now db token u
authenticate_token-Holds now db token {u} h = elim (Result-cases (token_by_handle db token)) [
  | inr missing ↦ absurd (cc (h, authenticate_token-no_token now db token missing.1))
  | inl found ↦ elim (Bool-cases (is_expired now found.0)) [
    | inl late ↦ absurd (cc (h, authenticate_token-late now db token found.1 late))
    | inr live ↦ elim (Result-cases (user_by_id db found.0.user_id)) [
      | inr missing ↦
          absurd (cc (h, authenticate_token-no_user now db token found.1 live missing.1))
      | inl user ↦
          let same : user.0 ≡ u =
            cc (h, authenticate_token-user now db token found.1 live user.1) in
          (
            found.0,
            token_found db token found.1,
            live,
            rw same at (user_found db found.0.user_id user.1),
          )
    ]
  ]
]

pub equals-some : (o : Option Text) (a : Text) → equals o a ≡ true → o ≡ some a
equals-some none a h = cc
equals-some (some b) a h = ap some ((beq_iff b a).0 h)

share_found :
    (db : Db) (token : Text) {s : Share}
    → share_by_link_token db token ≡ ok s
    → Mem s db.shares × (s.link_token ≡ some token)
unfolding share_by_link_token
share_found db token {s} h =
    let found =
      first_where-Mem (λ s. equals s.link_token token) db.shares
        (row-ok (first_where _ db.shares) h) in
    (found.0, equals-some s.link_token token found.1)

-- A link to the VM is a row of it.
pub is_link_to-Mem :
    (db : Db) (vm : Vm) (token : Text)
    → is_link_to db vm token ≡ true
    → (s : Share) × Mem s db.shares × (s.vm_id ≡ vm.id) × (s.link_token ≡ some token)
is_link_to-Mem db vm token h = elim (Result-cases (share_by_link_token db token)) [
  | inr missing ↦ absurd (cc (h, is_link_to-err db vm token missing.1))
  | inl found ↦
      let link = share_found db token found.1 in
      (
        found.0,
        link.0,
        (beq_iff found.0.vm_id vm.id).0 (cc (h, is_link_to-ok db vm token found.1)),
        link.1,
      )
]
