-- ===== src/Proxy/Routes.antt =====
-- The routes of the VMs (internal/proxy/caddy.go: AddRoute, RemoveRoute, AddCustomDomain), by the names
-- of the VMs. What Caddy answers to the request is an argument; the request's text is left out.
use ussycode.Base.{
  Option, none, some, list_eq, nat_eq, GoMap, lookup, insert, delete, Text, Result, ok, err,
}

pub data CaddyOutcome : Type 0 where
  applied refused unreachable : CaddyOutcome

abbrev pub Routes : Type 0
Routes = GoMap Text Text

unfoldable pub add_route :
    CaddyOutcome → Routes → Text → Text → Result CaddyOutcome (Unit {0}) × Routes
add_route applied routes vm_name vm_ip = (ok tt, insert vm_name vm_ip routes)
add_route refused routes vm_name vm_ip = (err refused, routes)
add_route unreachable routes vm_name vm_ip = (err unreachable, routes)

-- A refusal is only logged: the route may be gone already.
unfoldable pub remove_route : CaddyOutcome → Routes → Text → Result CaddyOutcome (Unit {0}) × Routes
remove_route unreachable routes vm_name = (err unreachable, routes)
remove_route applied routes vm_name = (ok tt, delete vm_name routes)
remove_route refused routes vm_name = (ok tt, delete vm_name routes)

-- What `AddCustomDomain` answers: the VM must have a route. It changes Caddy's configuration alone.
unfoldable pub add_custom_domain :
    CaddyOutcome → Routes → Text → Result (Option CaddyOutcome) (Unit {0})
add_custom_domain caddy routes vm_name = elim (lookup vm_name routes) [
  | none ↦ err none
  | some vm_ip ↦ elim caddy [
    | applied ↦ ok tt
    | refused ↦ err (some refused)
    | unreachable ↦ err (some unreachable)
  ]
]
