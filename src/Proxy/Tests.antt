-- ===== src/Proxy/Tests.antt =====
-- The theorems on the proxy at concrete requests.
use ussycode.Base.{
  bytes, ◌≡◌, refl, true, false, none, some, [], ◌∷◌, ◌++◌, nat_eq, list_eq, list_beq, ok, is_ok,
  Text, is_empty, contains_byte, last_index, has_suffix, trim_suffix, has_prefix, trim_prefix, Mem,
}
use ussycode.Db.Models.{User, Vm, Token, Db, is_expired, after}
use ussycode.Db.Vms.{first_where, exists_where, vm_by_name, user_by_id}
use ussycode.Db.Shares.{is_vm_public}
use ussycode.Db.Tokens.{token_by_handle}
use ussycode.Proxy.Auth.{
  Request, authenticated, allowed, forbidden, colon, dot, strip_port, vm_name_from_host,
  extract_vm_name, extract_share_token, extract_bearer_token, set_auth_headers, authenticate_token,
  bearer_access, vm_access, handler, bearer_prefix,
}
use ussycode.Proxy.Auth.Hosts.{IsLabel, vm_name_from_host_label}
use ussycode.Proxy.Auth.Entitled.{Entitled}
use ussycode.Proxy.Auth.Safety.{handler-Entitled}
use ussycode.Proxy.Auth.Clash.{Wanted, creates, created_vm_forbidden}

abbrev box_name : Text
box_name = bytes "box"

abbrev domain : Text
domain = bytes "ussy.host"

abbrev https_port : Text
https_port = bytes "443"

abbrev box_host : Text
box_host = (box_name ++ dot ∷ domain) ++ colon ∷ https_port

box_IsLabel : IsLabel box_name
unfolding is_empty contains_byte
box_IsLabel = (refl, refl)

port_plain : contains_byte colon https_port ≡ false
unfolding contains_byte
port_plain = refl

vm_name_from_host_label_example :
    (vm_name_from_host domain box_host ≡ box_name)
    × (contains_byte colon (box_name ++ dot ∷ domain) ≡ false
        → vm_name_from_host domain (box_name ++ dot ∷ domain) ≡ box_name)
vm_name_from_host_label_example =
    vm_name_from_host_label domain box_name https_port box_IsLabel port_plain

box_named : is_empty (vm_name_from_host domain box_host) ≡ false
unfolding vm_name_from_host strip_port last_index has_suffix trim_suffix is_empty contains_byte
    list_beq
box_named = refl

abbrev ann : User
ann = record { id = 1; handle = "ann"; email = "ann@example.org"; trust_level = "newbie" }

abbrev bob : User
bob = record { id = 2; handle = "bob"; email = "bob@example.org"; trust_level = "newbie" }

abbrev box : Vm
box = record {
  id = 7;
  user_id = 1;
  name = box_name;
  status = "running";
  image = bytes "ussyuntu";
  vcpu = 1;
  memory_mb = 512;
  disk_gb = 5;
  tap_device = none;
  ip_address = none;
  mac_address = none;
  pid = none;
  created_at = 0;
  updated_at = 0;
}

abbrev ann_token : Token
ann_token = record {
  id = 1;
  user_id = 1;
  handle = bytes "ann";
  token_data = [];
  expires_at = 60;
  created_at = 0;
}

abbrev bob_token : Token
bob_token = record {
  id = 2;
  user_id = 2;
  handle = bytes "bob";
  token_data = [];
  expires_at = 60;
  created_at = 0;
}

abbrev stored_rows : Db
stored_rows = record {
  users = ann ∷ bob ∷ [];
  vms = box ∷ [];
  shares = [];
  tokens = ann_token ∷ bob_token ∷ [];
  magic_tokens = [];
  ssh_keys = [];
  api_tokens = [];
  tags = [];
  domains = [];
  next_key_id = 1;
  next_vm_id = 8;
  next_share_id = 1;
  next_token_id = 3;
}

-- A request for the box that carries a bearer token.
abbrev asks : Text → Request
asks token = record {
  host = box_host;
  forwarded_host = [];
  query_share = [];
  forwarded_share = none;
  authorization = bearer_prefix ++ token;
  cookies = [];
}

ann_enters :
    handler 5 stored_rows domain (asks (bytes "ann"))
    ≡ allowed (set_auth_headers (some ann) box authenticated)
unfolding handler vm_access bearer_access authenticate_token extract_vm_name extract_share_token
    extract_bearer_token vm_name_from_host strip_port last_index has_suffix trim_suffix has_prefix
    trim_prefix is_empty contains_byte list_beq vm_by_name token_by_handle user_by_id is_vm_public
    first_where exists_where is_expired after
ann_enters = refl

handler-Entitled_example :
    (vm : Vm) × Mem vm stored_rows.vms
    × (vm.name ≡ extract_vm_name domain (asks (bytes "ann")))
    × Entitled 5 stored_rows (asks (bytes "ann")) vm (set_auth_headers (some ann) box authenticated)
handler-Entitled_example =
    handler-Entitled 5 stored_rows domain (asks (bytes "ann"))
      (set_auth_headers (some ann) box authenticated) ann_enters

-- What holds of the request that bob makes for a box, before there is one.
abbrev bobs : Request
bobs = asks (bytes "bob")

abbrev no_rows : Db
no_rows = record stored_rows { vms = [] }

abbrev wanted : Wanted
wanted = (bytes "ussyuntu", 1, 512, 5)

bob_reads :
    (is_empty (extract_vm_name domain bobs) ≡ false)
    × (is_empty (extract_share_token bobs) ≡ true)
    × (is_empty (extract_bearer_token bobs) ≡ false)
    × (token_by_handle no_rows (extract_bearer_token bobs) ≡ ok bob_token)
    × (is_expired 5 bob_token ≡ false)
    × (user_by_id no_rows 2 ≡ ok bob)
unfolding extract_vm_name extract_share_token extract_bearer_token vm_name_from_host strip_port
    last_index has_suffix trim_suffix has_prefix trim_prefix is_empty contains_byte list_beq
    token_by_handle user_by_id first_where is_expired after
bob_reads = (refl, refl, refl, refl, refl, refl)

created_vm_forbidden_example :
    let first = creates 5 no_rows 1 (extract_vm_name domain bobs) wanted in
    let second = creates 5 first.1 2 (extract_vm_name domain bobs) wanted in
    (is_ok first.0 ≡ true) × (is_ok second.0 ≡ true) × (handler 5 second.1 domain bobs ≡ forbidden)
unfolding exists_where
created_vm_forbidden_example =
    created_vm_forbidden 5 no_rows domain bobs 1 {t = bob_token} {u = bob} wanted wanted refl refl
      refl (λ e. cc) bob_reads.0 bob_reads.1 bob_reads.2 bob_reads.3 bob_reads.4 bob_reads.5
