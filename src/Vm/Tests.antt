-- ===== src/Vm/Tests.antt =====
-- The theorems on VMs at concrete calls.
use ussycode.Base.{
  refl, ok, decimal, Text, suc, ◌≢◌, list_eq, nat_eq, ℕ, ◌+◌, ◌<◌, ◌≡◌, ◌⊎◌, true, false, none,
  some, List, [], ◌∷◌, length, nat_eq, list_eq, ◌==◌, err, lookup, bytes, arith,
}
use ussycode.Mesh.Net.{IpNet, u32_mod, mask_size}
use ussycode.Db.Models.{Db, Vm}
use ussycode.Db.Vms.{exists_where}
use ussycode.Vm.Network.{
  NetworkConfig, contains, ip_string, tap_name, release_network, NetworkManager, subnet_exhausted,
  TapOutcome, allocate_network,
}
use ussycode.Vm.Network.Unique.{addresses_differ}
use ussycode.Vm.Network.Addresses.{
  network_step, NetworkCall, allocates, releases, network_run, IsPast, exhausted_for_good,
}
use ussycode.Vm.Manager.{
  Manager, Attempt, written, ready, both_added, rootfs_missing, has_disk, create_and_start, start,
}
use ussycode.Vm.Ending.{StopOutcome, destroy}
use ussycode.Vm.Manager.Boot.{Settled}
use ussycode.Vm.Manager.Starting.{create_and_start-Settled, start-Settled}
use ussycode.Vm.Ending.Shutdown.{destroy_lem}

-- 10.0.0.0/30: the gateway, and the addresses 2 and 3.
abbrev small : IpNet
small = record { ip = 167772160; mask = some 30 }

abbrev works : TapOutcome
works = record {
  created = true;
  attached = true;
  raised = true;
  deleted = true;
  mac = bytes "02:00:00:00:00:01";
}

-- Both addresses were used and given back.
abbrev used_up : NetworkManager
used_up = record {
  subnet = small;
  gateway = 167772161;
  allocated = [];
  next_ip = 167772164;
  taps = [];
}

used_up-IsPast : IsPast used_up.subnet used_up.next_ip
unfolding mask_size
used_up-IsPast = omega arith

abbrev network_calls : List NetworkCall
network_calls = allocates works (bytes "7") ∷ releases true (bytes "7") (bytes "tap-7") ∷ []

used_up_small : used_up.next_ip + length network_calls < u32_mod
used_up_small = omega arith

exhausted_for_good_example :
    (allocate_network works (network_run used_up network_calls) (bytes "8")).0
    ≡ err subnet_exhausted
exhausted_for_good_example =
    exhausted_for_good used_up network_calls works (bytes "8") used_up-IsPast used_up_small

-- The first address, and the second after the first was given back.
abbrev unused : NetworkManager
unused = record used_up { next_ip = 167772162 }

abbrev config_of : ℕ → Text → NetworkConfig
config_of ip tap = record {
  tap_device = tap;
  guest_ip = ip_string ip;
  gateway_ip = ip_string 167772161;
  mac_address = bytes "02:00:00:00:00:01";
  subnet_mask = bytes "30";
}

first_answer :
    (allocate_network works unused (bytes "6")).0 ≡ ok (config_of 167772162 (bytes "tap-6"))
unfolding allocate_network contains mask_size tap_name ip_string decimal
first_answer = refl

abbrev between : List NetworkCall
between = releases true (bytes "6") (bytes "tap-6") ∷ []

second_answer :
    (allocate_network works
      (network_run (allocate_network works unused (bytes "6")).1 between)
      (bytes "8")).0
    ≡ ok (config_of 167772163 (bytes "tap-8"))
unfolding allocate_network contains mask_size tap_name ip_string decimal network_run network_step
    release_network
second_answer = refl

between_small : suc unused.next_ip + length between < u32_mod
between_small = omega arith

addresses_differ_example : ip_string 167772162 ≢ ip_string 167772163
addresses_differ_example =
    addresses_differ unused works works (bytes "6") (bytes "8") between
      (config_of 167772162 (bytes "tap-6")) (config_of 167772163 (bytes "tap-8")) between_small
      first_answer second_answer

abbrev box : Vm
box = record {
  id = 7;
  user_id = 1;
  name = bytes "box";
  status = "stopped";
  image = bytes "ussyuntu";
  vcpu = 1;
  memory_mb = 512;
  disk_gb = 5;
  tap_device = none;
  ip_address = none;
  mac_address = none;
  pid = none;
  created_at = 0;
  updated_at = 0;
}

abbrev rows : Db
rows = record {
  users = [];
  vms = box ∷ [];
  shares = [];
  tokens = [];
  magic_tokens = [];
  ssh_keys = [];
  api_tokens = [];
  tags = [];
  domains = [];
  next_key_id = 1;
  next_vm_id = 8;
  next_share_id = 1;
  next_token_id = 1;
}

abbrev idle : Manager
idle = record {
  db = rows;
  network = record used_up { next_ip = 167772162 };
  rules = [];
  rootfs_disks = [];
  data_disks = [];
  running = [];
}

abbrev attempt : Attempt
attempt = record {
  rootfs = some "config";
  copied = written;
  keys_seeded = true;
  data_disk = written;
  bridge = ready;
  table_deleted = true;
  tap = works;
  rules_added = both_added;
  booted = some 4711;
  tap_released = true;
}

create_and_start-Settled_example :
    Settled attempt 7 idle (create_and_start 9 attempt idle 7 (bytes "box"))
create_and_start-Settled_example = create_and_start-Settled 9 attempt idle 7 (bytes "box")

start-Settled_example :
    ((has_disk 7 idle.rootfs_disks ≡ false)
      × (start 9 attempt idle 7 (bytes "box") ≡ (err rootfs_missing, idle)))
    ⊎ ((has_disk 7 idle.rootfs_disks ≡ true)
        × Settled attempt 7 idle (start 9 attempt idle 7 (bytes "box")))
start-Settled_example = start-Settled 9 attempt idle 7 (bytes "box")

abbrev started : Manager
started = (create_and_start 9 attempt idle 7 (bytes "box")).1

abbrev stops : ℕ → StopOutcome
stops id = record { rule_removed = λ id. true; tap_deleted = false }

destroy_lem_example :
    let after = destroy 10 (stops 7) true false started 7 in
    (lookup 7 after.running ≡ none)
    × (exists_where (λ v. v.id == 7) after.db.vms ≡ false)
    × (exists_where (λ s. s.vm_id == 7) after.db.shares ≡ false)
    × (true ≡ true → exists_where (λ id. id == 7) after.rootfs_disks ≡ false)
    × (false ≡ true → exists_where (λ id. id == 7) after.data_disks ≡ false)
destroy_lem_example = destroy_lem 10 (stops 7) true false started 7
