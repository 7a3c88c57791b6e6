-- ===== src/Db/Tests.antt =====
-- The theorems on the database at concrete rows.
use ussycode.Base.{
  bytes, ℕ, ◌*◌, ◌/◌, ◌≤◌, ◌<◌, ◌≡◌, refl, ◌⊎◌, true, false, none, some, List, [], ◌∷◌,
  if◌then◌else◌, nat_eq, list_eq, list_beq, ok, err, is_ok, Text,
}
use ussycode.Db.Models.{User, Vm, Share, Db, after, token_expired, second}
use ussycode.Db.Vms.{first_where, exists_where, update_where, delete_where, user_by_id}
use ussycode.Db.Shares.{
  references_hold, insert_share, share_vm_with_user, share_vm_with_link, remove_share_link,
  share_by_link_token, set_vm_public, is_vm_public,
}
use ussycode.Db.Shares.Public.{
  ShareCall, links, publishes, share_step, share_run, set_vm_public_lem,
}
use ussycode.Db.Tokens.{
  create_magic_token, validate_magic_token, usable_magic_token, user_of_magic_token,
}
use ussycode.Db.Tokens.Once.{MagicCall, creates, cleans, magic_run, NeverCreates, magic_token_once}
use ussycode.Db.Tokens.Expiry.{magic_token_expiry}

abbrev ann : User
ann = record { id = 1; handle = "ann"; email = "ann@example.org"; trust_level = "newbie" }

abbrev bob : User
bob = record { id = 2; handle = "bob"; email = "bob@example.org"; trust_level = "citizen" }

abbrev box : Vm
box = record {
  id = 7;
  user_id = 1;
  name = bytes "box";
  status = "stopped";
  image = bytes "ussyuntu";
  vcpu = 1;
  memory_mb = 512;
  disk_gb = 5;
  tap_device = none;
  ip_address = none;
  mac_address = none;
  pid = none;
  created_at = 0;
  updated_at = 0;
}

abbrev start : Db
start = record {
  users = ann ∷ bob ∷ [];
  vms = box ∷ [];
  shares = [];
  tokens = [];
  magic_tokens = [];
  ssh_keys = [];
  api_tokens = [];
  tags = [];
  domains = [];
  next_key_id = 1;
  next_vm_id = 8;
  next_share_id = 1;
  next_token_id = 1;
}

shared : is_ok (share_vm_with_user 0 start 7 2).0 ≡ true
unfolding share_vm_with_user insert_share references_hold exists_where
shared = refl

abbrev link : Text
link = bytes "link"

-- The link of another VM stays.
abbrev other_link : Share
other_link = record {
  id = 4;
  vm_id = 9;
  shared_with = none;
  link_token = some link;
  is_public = false;
  created_at = 0;
}

abbrev linked : Db
linked = record start { shares = other_link ∷ [] }

other_link_stays : share_by_link_token (remove_share_link linked 7 link) link ≡ ok other_link
unfolding share_by_link_token remove_share_link first_where delete_where list_beq
other_link_stays = refl

abbrev share_calls : List (ℕ × ShareCall)
share_calls = (3, links 7 link) ∷ (4, publishes 7 true) ∷ []

hides : is_ok (set_vm_public 5 (share_run start share_calls) 7 false).0 ≡ true
unfolding set_vm_public share_run share_step share_vm_with_link insert_share references_hold
    exists_where update_where
hides = refl

set_vm_public_lem_example :
    is_vm_public (set_vm_public 5 (share_run start share_calls) 7 false).1 7
    ≡ (if true then false else is_vm_public (share_run start share_calls) 7)
set_vm_public_lem_example = set_vm_public_lem share_calls start refl 5 7 7 false hides

magic_made : is_ok (create_magic_token start 1 link 9_500_000_000).0 ≡ true
unfolding create_magic_token exists_where
magic_made = refl

abbrev offered : Db
offered = record start {
  magic_tokens = record { token = link; user_id = 1; expires_at = 9; used = false } ∷ [];
}

first_use : is_ok (validate_magic_token 8_000_000_000 offered link).0 ≡ true
unfolding validate_magic_token usable_magic_token user_of_magic_token user_by_id first_where after
    list_beq
first_use = refl

abbrev magic_calls : List (ℕ × MagicCall)
magic_calls = (8_500_000_000, creates 2 [] 20_000_000_000) ∷ (8_600_000_000, cleans) ∷ []

magic_calls_never : NeverCreates link magic_calls
unfolding list_beq
magic_calls_never = (refl, (refl, tt))

magic_token_once_example :
    is_ok
      (validate_magic_token 8_700_000_000
        (magic_run (validate_magic_token 8_000_000_000 offered link).1 magic_calls)
        link).0
    ≡ false
magic_token_once_example =
    magic_token_once link offered 8_000_000_000 magic_calls 8_700_000_000 first_use
      magic_calls_never

magic_token_expiry_example :
    let db' = (create_magic_token start 1 link 9_500_000_000).1 in
    ((9_500_000_000 / second * second < 9_100_000_000)
      × (validate_magic_token 9_100_000_000 db' link ≡ (err token_expired, db')))
    ⊎ ((9_100_000_000 ≤ 9_500_000_000 / second * second)
        × ((u : User) × ((u.id ≡ 1) × ((validate_magic_token 9_100_000_000 db' link).0 ≡ ok u))))
magic_token_expiry_example = magic_token_expiry 9_100_000_000 start 1 link 9_500_000_000 magic_made
