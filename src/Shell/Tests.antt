-- ===== src/Shell/Tests.antt =====
-- The theorems on the shell's commands at concrete requests.
use ussycode.Base.{
  beq_iff, Bool-cases, inl, inr, if◌then◌else◌, list_eq, nat_eq, ◌==◌, err, ℕ, none, sym, ap, ◌∙◌,
  ◌<◌, List, Text, Mem, here, there, arith, ◌≤◌, ◌≡◌, refl, ◌⊎◌, true, false, some, [], ◌∷◌, is_ok,
  ok, bytes,
}
use ussycode.Db.Vms.{vms_by_user, vm_by_user_and_name, first_where, select_where, exists_where}
use ussycode.Shell.Lifecycle.Stranded.{retried, untracked_stuck}
use ussycode.Shell.Sharing.{ShareVerb, Outside, set_public, cname, cname_verify, cname_rm}
use ussycode.Shell.Sharing.Rows.{OneVm}
use ussycode.Shell.Sharing.Isolation.{ShareRequest, share_all, share_all-Isolated}
use ussycode.Db.Owners.{Sound}
use ussycode.Db.Counts.{count_where}
use ussycode.Db.ApiTokens.{ssh_key_count_by_user, ssh_keys_by_user}
use ussycode.Shell.Keys.{KeyId, remove_found}
use ussycode.Shell.Keys.Overlap.{Owns, overlapping_removals}
use ussycode.Shell.Keys.Lockout.{KeyIds, KeyRequest, removes, key_run, key_run-StillIn}
use ussycode.Proxy.Routes.{applied}
use ussycode.Shell.Services.{System, Answers}
use ussycode.Shell.Lifecycle.{
  Verb, start_verb, stop_verb, restart_verb, cp_verb, rename_verb, rm_verb,
}
use ussycode.Shell.Lifecycle.Isolation.{Request, run_all, run_all-Isolated}
use ussycode.Db.Models.{User, Vm, CustomDomain, SshKey, Db}
use ussycode.Vm.Network.{new_network_manager}
use ussycode.Vm.Manager.{Manager, Attempt, written, ready, both_added}
use ussycode.Shell.Commands.{new_named, valid_name, ends_well, starts_well, all_middle}
use ussycode.Shell.Commands.Admission.{Admitted, new_named-Admitted}

abbrev ann : User
ann = record { id = 1; handle = "ann"; email = "ann@example.org"; trust_level = "newbie" }

abbrev rows : Db
rows = record {
  users = ann ∷ [];
  vms = [];
  shares = [];
  tokens = [];
  magic_tokens = [];
  ssh_keys = [];
  api_tokens = [];
  tags = [];
  domains = [];
  next_key_id = 1;
  next_vm_id = 1;
  next_share_id = 1;
  next_token_id = 1;
}

abbrev idle : Manager
idle = record {
  db = rows;
  network = new_network_manager (record { ip = 167772160; mask = some 24 });
  rules = [];
  rootfs_disks = [];
  data_disks = [];
  running = [];
}

abbrev attempt : Attempt
attempt = record {
  rootfs = some "config";
  copied = written;
  keys_seeded = true;
  data_disk = written;
  bridge = ready;
  table_deleted = true;
  tap = record { created = true; attached = true; raised = true; deleted = true; mac = [] };
  rules_added = both_added;
  booted = some 4711;
  tap_released = true;
}

names :
    (valid_name (bytes "my-box") ≡ true)
    × (valid_name (bytes "box-") ≡ false)
    × (valid_name (bytes "9box") ≡ false)
unfolding valid_name starts_well all_middle ends_well
names = (refl, refl, refl)

new_named-Admitted_example :
    ((is_ok (new_named 9 attempt idle ann (bytes "my-box") (bytes "ussyuntu")).0 ≡ false)
      × ((new_named 9 attempt idle ann (bytes "my-box") (bytes "ussyuntu")).1 ≡ idle))
    ⊎ Admitted 9 attempt idle ann
        (bytes "my-box")
        (bytes "ussyuntu")
        (new_named 9 attempt idle ann (bytes "my-box") (bytes "ussyuntu"))
new_named-Admitted_example =
    new_named-Admitted 9 attempt idle ann (bytes "my-box") (bytes "ussyuntu")

abbrev box_of : ℕ → ℕ → Vm
box_of id user_id = record {
  id = id;
  user_id = user_id;
  name = bytes "box";
  status = "running";
  image = bytes "ussyuntu";
  vcpu = 1;
  memory_mb = 512;
  disk_gb = 5;
  tap_device = none;
  ip_address = none;
  mac_address = none;
  pid = none;
  created_at = 0;
  updated_at = 0;
}

-- Two users have a VM of the same name.
abbrev two_boxes : System
two_boxes = record {
  manager = record idle { db = record rows { vms = box_of 1 1 ∷ box_of 2 2 ∷ []; next_vm_id = 3 } };
  metadata = [];
  routes = [];
}

own_id : (v : Vm) → Mem v two_boxes.manager.db.vms → v.user_id ≡ v.id
own_id v (here e) = ap (λ (x : Vm). x.user_id) (sym e) ∙ ap (λ (x : Vm). x.id) e
own_id v (there (here e)) = ap (λ (x : Vm). x.user_id) (sym e) ∙ ap (λ (x : Vm). x.id) e
own_id v (there (there mem)) = elim mem [ ]

small_id : (v : Vm) → Mem v two_boxes.manager.db.vms → v.id < 3
small_id v (here e) = let id = ap (λ (x : Vm). x.id) e in omega arith
small_id v (there (here e)) = let id = ap (λ (x : Vm). x.id) e in omega arith
small_id v (there (there mem)) = elim mem [ ]

two_boxes-Sound : Sound two_boxes.manager.db
two_boxes-Sound = record {
  one_owner = λ v w mv mw same. own_id v mv ∙ same ∙ sym (own_id w mw);
  below = small_id;
}

abbrev answers : Answers
answers = record {
  now = 9;
  attempt = attempt;
  stopped = record { rule_removed = λ id. true; tap_deleted = true };
  rootfs_copied = written;
  data_copied = written;
  copy_removed = true;
  rootfs_removed = true;
  data_removed = true;
  route_added = applied;
  route_removed = applied;
  random = bytes "swift-fox";
  typed = some (bytes "box");
}

abbrev from_ann : Verb → List Text → Request
from_ann verb args = record {
  session = record { user = ann; host_key = []; env_vars = [] };
  answers = answers;
  verb = verb;
  args = args;
}

-- Copy, rename and remove.
abbrev three_requests : List Request
three_requests =
    from_ann cp_verb (bytes "box" ∷ bytes "copy" ∷ [])
    ∷ from_ann rename_verb (bytes "copy" ∷ bytes "other" ∷ [])
    ∷ from_ann rm_verb (bytes "box" ∷ [])
    ∷ []

run_all-Isolated_example :
    Sound (run_all two_boxes three_requests).manager.db
    × (vms_by_user (run_all two_boxes three_requests).manager.db 2
        ≡ vms_by_user two_boxes.manager.db 2)
run_all-Isolated_example =
    run_all-Isolated 2 three_requests two_boxes two_boxes-Sound
      ((λ h. cc h), ((λ h. cc h), ((λ h. cc h), tt)))

abbrev tries : List (Answers × Verb)
tries = (answers, start_verb) ∷ (answers, stop_verb) ∷ (answers, restart_verb) ∷ []

untracked_stuck_example :
    ((retried (from_ann cp_verb []).session (bytes "box") two_boxes tries).0 ≡ 0)
    × ((retried (from_ann cp_verb []).session (bytes "box") two_boxes tries).1.manager
        ≡ two_boxes.manager)
unfolding vm_by_user_and_name first_where ussycode.Base.list_beq ussycode.Base.lookup
untracked_stuck_example =
    untracked_stuck (from_ann cp_verb []).session (bytes "box") (box_of 1 1) tries two_boxes
      (inl refl, (inr (inl refl), (inr (inr refl), tt))) (refl, refl, refl)

-- Bob's VM has a share, and a domain that is verified.
abbrev shared_box : Db
shared_box = record two_boxes.manager.db {
  shares =
      (record {
        id = 1;
        vm_id = 2;
        shared_with = none;
        link_token = some (bytes "link");
        is_public = false;
        created_at = 0;
      })
      ∷ [];
  domains =
      (record {
        vm_id = 2;
        domain = bytes "bob.example.org";
        verified = true;
        verification_token = some (bytes "secret");
        created_at = 0;
        verified_at = some 1;
      })
      ∷ [];
}

abbrev outside : Outside
outside = record { now = 9; token = some (bytes "token"); txt_records = some (bytes "token" ∷ []) }

abbrev by_ann : ShareVerb → List Text → ShareRequest
by_ann verb args = record { user = ann; outside = outside; verb = verb; args = args }

abbrev share_requests : List ShareRequest
share_requests =
    by_ann set_public (bytes "box" ∷ [])
    ∷ by_ann cname (bytes "box" ∷ bytes "ann.example.org" ∷ [])
    ∷ by_ann cname_verify (bytes "box" ∷ bytes "ann.example.org" ∷ [])
    ∷ by_ann cname_rm (bytes "box" ∷ bytes "bob.example.org" ∷ [])
    ∷ []

shared_box-OneVm : OneVm shared_box
shared_box-OneVm d e (here h) (here k) same = ap (λ (x : CustomDomain). x.vm_id) (sym h ∙ k)
shared_box-OneVm d e (here h) (there k) same = elim k [ ]
shared_box-OneVm d e (there h) k same = elim h [ ]

shared_box-Sound : Sound shared_box
shared_box-Sound = record { one_owner = two_boxes-Sound.one_owner; below = two_boxes-Sound.below }

share_all-Isolated_example :
    (select_where (λ s. s.vm_id == 2) (share_all shared_box share_requests).shares
      ≡ select_where (λ s. s.vm_id == 2) shared_box.shares)
    × (select_where (λ d. d.vm_id == 2) (share_all shared_box share_requests).domains
        ≡ select_where (λ d. d.vm_id == 2) shared_box.domains)
    × OneVm (share_all shared_box share_requests)
share_all-Isolated_example =
    share_all-Isolated (box_of 2 2) share_requests shared_box shared_box-Sound shared_box-OneVm
      (there (here refl)) ((λ h. cc h), ((λ h. cc h), ((λ h. cc h), ((λ h. cc h), tt))))

-- Ann has two keys.
abbrev two_keys : Db
two_keys = record rows {
  ssh_keys =
      (record {
        id = 1;
        user_id = 1;
        public_key = bytes "one";
        fingerprint = "SHA256:one";
        comment = [];
        created_at = 0;
      })
      ∷ (record {
        id = 2;
        user_id = 1;
        public_key = bytes "two";
        fingerprint = "SHA256:two";
        comment = [];
        created_at = 0;
      })
      ∷ [];
  next_key_id = 3;
}

one_of_each : (key_id : ℕ) → count_where (λ (k : SshKey). k.id == key_id) two_keys.ssh_keys ≤ 1
unfolding select_where
one_of_each key_id = elim (Bool-cases (1 == key_id)) [
  | inl first ↦
      let equal = (beq_iff 1 key_id).0 first in
      let second : (2 == key_id) ≡ false = ap (λ n. 2 == n) (sym equal) in
      rw (first, second) (omega arith)
  | inr miss ↦ elim (Bool-cases (2 == key_id)) [
    | inl second ↦ rw (miss, second) (omega arith)
    | inr neither ↦ rw (miss, neither) (omega arith)
  ]
]

below_three : (k : SshKey) → Mem k two_keys.ssh_keys → k.id < 3
below_three k (here e) = let id = ap (λ (x : SshKey). x.id) e in omega arith
below_three k (there (here e)) = let id = ap (λ (x : SshKey). x.id) e in omega arith
below_three k (there (there mem)) = elim mem [ ]

abbrev scan_id : Text → KeyId
scan_id t = if t == bytes "1" then KeyId.id 1 else KeyId.id 2

-- Ann removes one key, and then the other, which is refused.
abbrev removals : List KeyRequest
removals = removes ann (bytes "1" ∷ []) ∷ removes ann (bytes "2" ∷ []) ∷ []

two_counted : 1 ≤ ssh_key_count_by_user two_keys 1
unfolding ssh_key_count_by_user ssh_keys_by_user select_where
two_counted = omega arith

key_run-StillIn_example :
    KeyIds (key_run (λ t. none) scan_id two_keys removals)
    × (1 ≤ ssh_key_count_by_user (key_run (λ t. none) scan_id two_keys removals) 1)
key_run-StillIn_example =
    key_run-StillIn (λ t. none) scan_id removals two_keys 1
      (record { single = one_of_each; below = below_three }) two_counted

two_owned : (ssh_key_count_by_user two_keys 1 ≡ 2) × (Owns two_keys ann 1) × (Owns two_keys ann 2)
unfolding ssh_key_count_by_user ssh_keys_by_user select_where exists_where
two_owned = (refl, refl, refl)

overlapping_removals_example :
    let one = remove_found two_keys two_keys two_keys ann 1 in
    let other = remove_found two_keys two_keys one.1 ann 2 in
    (one.0 ≡ ok tt) × (other.0 ≡ ok tt) × (ssh_key_count_by_user other.1 1 ≡ 0)
overlapping_removals_example =
    overlapping_removals two_keys ann 1 2 (λ e. cc) two_owned.0 two_owned.1 two_owned.2
