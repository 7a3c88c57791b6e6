-- ===== src/Vm/Network.antt =====
-- The network of the VMs (internal/vm/network.go). `taps` holds the TAP devices on the host, by name,
-- with the VM that each was made for. What the `ip` command answers is an argument of each
-- operation. The lock makes each call one step.
pub mod Addresses
pub mod Answers
pub mod Unique
use ussycode.Base.{
  ℕ, suc, ◌+◌, ◌-◌, ◌*◌, ◌/◌, ◌%◌, ◌^◌, Bool, true, false, not, Option, none, some, List, [], ◌∷◌,
  ◌++◌, if◌then◌else◌, ltb, leb, length, nat_eq, list_eq, ◌==◌, Result, ok, err, GoMap, insert,
  delete, Text, take, bytes, decimal,
}
use ussycode.Mesh.Net.{IpNet, u32_mod, mask_size}

pub record NetworkManager : Type 0 where
  pub subnet : IpNet
  pub gateway : ℕ
  pub allocated : GoMap Text Text
  pub next_ip : ℕ
  pub taps : GoMap Text Text

pub record NetworkConfig : Type 0 where
  pub tap_device : Text
  pub guest_ip : Text
  pub gateway_ip : Text
  pub mac_address : Text
  pub subnet_mask : Text

pub data NetworkError : Type 0 where
  subnet_exhausted create_tap attach_tap raise_tap : NetworkError

-- What the three commands for a new device answer, and the one that deletes it after a failure; and
-- the random address of `generateMAC`.
pub record TapOutcome : Type 0 where
  pub created : Bool
  pub attached : Bool
  pub raised : Bool
  pub deleted : Bool
  pub mac : Text

-- `net.IP.String` of a 32-bit number.
unfoldable pub ip_string : ℕ → Text
ip_string ip =
    decimal (ip / 2 ^ 24)
    ++ (bytes "."
        ++ (decimal (ip / 2 ^ 16 % 256)
            ++ (bytes "." ++ (decimal (ip / 2 ^ 8 % 256) ++ (bytes "." ++ decimal (ip % 256))))))

-- `IPNet.Contains`: the network parts agree.
unfoldable pub contains : IpNet → ℕ → Bool
contains net ip = ip / 2 ^ (32 - mask_size net.mask) == net.ip / 2 ^ (32 - mask_size net.mask)

-- `NewNetworkManager`, where `net.ParseCIDR` gives the subnet; the gateway's last byte wraps.
unfoldable pub new_network_manager : IpNet → NetworkManager
new_network_manager subnet =
    let gateway = subnet.ip - subnet.ip % 256 + (subnet.ip % 256 + 1) % 256 in
    record {
      subnet = subnet;
      gateway = gateway;
      allocated = [];
      next_ip = (gateway + 1) % u32_mod;
      taps = [];
    }

unfoldable pub tap_name : Text → Text
tap_name vm_id =
    let short_id = if ltb 8 (length vm_id) then take 8 vm_id else vm_id in
    let name = bytes "tap-" ++ short_id in if ltb 15 (length name) then take 15 name else name

-- `ip link del` after a failure, whose own error is ignored.
unfoldable pub undo_tap : Bool → NetworkManager → Text → Text → NetworkManager
undo_tap deleted nm vm_id tap =
    if deleted then nm else record nm { taps = insert tap vm_id nm.taps }

unfoldable pub allocate_network :
    TapOutcome → NetworkManager → Text → Result NetworkError NetworkConfig × NetworkManager
allocate_network o nm vm_id =
    let ip = nm.next_ip in
    let tap = tap_name vm_id in
    let next = record nm { next_ip = (ip + 1) % u32_mod } in
    if not (contains nm.subnet ip)
    then (err subnet_exhausted, next)
    else if not o.created
    then (err create_tap, next)
    else if not o.attached
    then (err attach_tap, undo_tap o.deleted next vm_id tap)
    else if not o.raised
    then (err raise_tap, undo_tap o.deleted next vm_id tap)
    else (
      ok (record {
        tap_device = tap;
        guest_ip = ip_string ip;
        gateway_ip = ip_string nm.gateway;
        mac_address = o.mac;
        subnet_mask = decimal (mask_size nm.subnet.mask);
      }),
      record next {
        allocated = insert vm_id (ip_string ip) nm.allocated;
        taps = insert tap vm_id nm.taps;
      },
    )

-- `ReleaseNetwork`, where `deleted` says whether `ip link del` worked; it reports no error.
unfoldable pub release_network : Bool → NetworkManager → Text → Text → NetworkManager
release_network deleted nm vm_id tap_device = record nm {
  taps =
      if not (tap_device == [])
      then (if deleted then delete tap_device nm.taps else nm.taps)
      else nm.taps;
  allocated = delete vm_id nm.allocated;
}
