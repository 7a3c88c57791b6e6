-- ===== src/Proxy/Auth.antt =====
-- The answer to Caddy's forward_auth (internal/proxy/auth.go). The request holds what the handler
-- reads of it: the host and the X-Forwarded-Host header, the ussy_share parameter of the URL, that
-- of the X-Forwarded-Uri header (`none` where the header is missing or not a URI), the
-- Authorization header, and the cookies; a missing header is the empty text.
pub mod Hosts
pub mod Branches
pub mod Entitled
pub mod Safety
pub mod Clash
use ussycode.Base.{
  bytes, ℕ, Bool, true, false, not, ◌&&◌, ◌||◌, String, Option, none, some, List, [], ◌∷◌, ◌++◌,
  if◌then◌else◌, nat_eq, list_eq, ◌==◌, Comparable, Result, ok, err, GoMap, lookup, Text, take,
  is_empty, contains_byte, last_index, has_prefix, trim_prefix, has_suffix, trim_suffix, decimal,
}
use ussycode.Db.Models.{User, Vm, Share, Token, Db, DbError, is_expired}
use ussycode.Db.Vms.{vm_by_name, user_by_id}
use ussycode.Db.Shares.{share_by_link_token, is_vm_public, has_share_access}
use ussycode.Db.Tokens.{token_by_handle}

pub record Request : Type 0 where
  pub host : Text
  pub forwarded_host : Text
  pub query_share : Text
  pub forwarded_share : Option Text
  pub authorization : Text
  pub cookies : GoMap Text Text

pub data AuthMode : Type 0 where
  public authenticated share_link : AuthMode

-- The X-Ussy-* headers of `setAuthHeaders`.
pub record AuthHeaders : Type 0 where
  pub mode : AuthMode
  pub vm_name : Text
  pub vm_id : ℕ
  pub user : Option (ℕ × String)

-- The responses, by status: 400, 404, 403 for a link, 302 with the cookie that it sets, 200, 401, 403.
pub data Decision : Type 0 where
  invalid_host vm_not_found invalid_share_link unauthorized forbidden : Decision
  redeemed : Text → Text → Decision
  allowed : AuthHeaders → Decision

abbrev pub colon : ℕ
colon = 58

abbrev pub dot : ℕ
dot = 46

-- `host[:strings.LastIndex(host, ":")]`.
unfoldable pub strip_port : Text → Text
strip_port host = elim (last_index colon host) [ some i ↦ take i host | none ↦ host ]

unfoldable pub vm_name_from_host : Text → Text → Text
vm_name_from_host domain host =
    let bare = strip_port host in
    let suffix = dot ∷ domain in
    let name = trim_suffix bare suffix in
    if not (has_suffix bare suffix)
    then []
    else if is_empty name || contains_byte dot name
    then []
    else name

unfoldable pub extract_vm_name : Text → Request → Text
extract_vm_name domain r =
    let name = vm_name_from_host domain r.host in
    if not (is_empty name) then name else vm_name_from_host domain r.forwarded_host

unfoldable pub extract_share_token : Request → Text
extract_share_token r =
    if not (is_empty r.query_share)
    then r.query_share
    else elim r.forwarded_share [ some token ↦ token | none ↦ [] ]

abbrev cookie_prefix : Text
cookie_prefix = bytes "ussy_share_"

unfoldable pub share_cookie_name : ℕ → Text
share_cookie_name vm_id = cookie_prefix ++ decimal vm_id

abbrev pub bearer_prefix : Text
bearer_prefix = bytes "Bearer "

unfoldable pub extract_bearer_token : Request → Text
extract_bearer_token r =
    if is_empty r.authorization
    then []
    else if not (has_prefix r.authorization bearer_prefix)
    then []
    else trim_prefix r.authorization bearer_prefix

unfoldable pub set_auth_headers : Option User → Vm → AuthMode → AuthHeaders
set_auth_headers none vm mode = record {
  mode = mode;
  vm_name = vm.name;
  vm_id = vm.id;
  user = none;
}
set_auth_headers (some u) vm mode = record {
  mode = mode;
  vm_name = vm.name;
  vm_id = vm.id;
  user = some (u.id, u.handle);
}

-- `none` for each of the three errors.
unfoldable pub authenticate_token : ℕ → Db → Text → Option User
authenticate_token now db token = elim (token_by_handle db token) [
  | err e ↦ none
  | ok t ↦
      if is_expired now t
      then none
      else elim (user_by_id db t.user_id) [ err e ↦ none | ok u ↦ some u ]
]

-- A link that exists and is one to the VM.
unfoldable pub is_link_to : Db → Vm → Text → Bool
is_link_to db vm token = elim (share_by_link_token db token) [
  | err e ↦ false
  | ok s ↦ s.vm_id == vm.id
]

-- The request carries a link token.
unfoldable pub redeem : Db → Vm → Text → Decision
redeem db vm token =
    if not (is_link_to db vm token)
    then invalid_share_link
    else redeemed (share_cookie_name vm.id) token

-- The request carries a bearer token.
unfoldable pub bearer_access : ℕ → Db → Vm → Text → Decision
bearer_access now db vm token = elim (authenticate_token now db token) [
  | none ↦ unauthorized
  | some u ↦
      if not (u.id == vm.user_id) && not (has_share_access db vm.id u.id)
      then forbidden
      else allowed (set_auth_headers (some u) vm authenticated)
]

-- The request carries neither.
unfoldable pub cookie_access : Db → Vm → Option Text → Decision
cookie_access db vm none = unauthorized
cookie_access db vm (some value) =
    if not (is_empty value) && is_link_to db vm value
    then allowed (set_auth_headers none vm share_link)
    else unauthorized

unfoldable pub vm_access : ℕ → Db → Request → Vm → Decision
vm_access now db r vm =
    let share_token = extract_share_token r in
    let bearer_token = extract_bearer_token r in
    if not (is_empty share_token)
    then redeem db vm share_token
    else if is_vm_public db vm.id
    then allowed (set_auth_headers none vm public)
    else if not (is_empty bearer_token)
    then bearer_access now db vm bearer_token
    else cookie_access db vm (lookup (share_cookie_name vm.id) r.cookies)

unfoldable pub handler : ℕ → Db → Text → Request → Decision
handler now db domain r =
    let name = extract_vm_name domain r in
    if is_empty name
    then invalid_host
    else elim (vm_by_name db name) [ err e ↦ vm_not_found | ok vm ↦ vm_access now db r vm ]
