-- ===== src/Shell/Services/Rows.antt =====
-- Metadata and routes leave the VM manager alone (internal/ssh/shell.go).
use ussycode.Base.{ℕ, ◌≡◌, refl, ◌∙◌, Text, Option-cases, inl, inr, nat_eq, list_eq}
use ussycode.Db.Models.{Vm}
use ussycode.Db.Vms.{vms_by_user}
use ussycode.Proxy.Routes.{CaddyOutcome}
use ussycode.Shell.Services.{
  Session, System, Answers, address_of, register_vm_metadata, unregister_vm_metadata,
  add_proxy_route, remove_proxy_route, publish, unpublish,
}

module _ (session : Session) (s : System) (vm_id : ℕ) where
  pub unregister_vm_metadata-manager : (unregister_vm_metadata session s vm_id).manager ≡ s.manager
  unfolding unregister_vm_metadata
  unregister_vm_metadata-manager =
      elim (Option-cases (address_of vm_id (vms_by_user s.manager.db session.user.id))) [
        | inl missing ↦ rw (missing, unregister_vm_metadata) refl
        | inr found ↦ rw (found.1, unregister_vm_metadata) refl
      ]

  register_vm_metadata-manager :
      (vm_name image : Text)
      → (register_vm_metadata session s vm_id vm_name image).manager ≡ s.manager
  unfolding register_vm_metadata
  register_vm_metadata-manager vm_name image =
      elim (Option-cases (address_of vm_id (vms_by_user s.manager.db session.user.id))) [
        | inl missing ↦ rw (missing, register_vm_metadata) refl
        | inr found ↦ rw (found.1, register_vm_metadata) refl
      ]

  pub add_proxy_route-manager :
      (caddy : CaddyOutcome) (vm_name : Text)
      → (add_proxy_route caddy session s vm_id vm_name).manager ≡ s.manager
  unfolding add_proxy_route
  add_proxy_route-manager caddy vm_name =
      elim (Option-cases (address_of vm_id (vms_by_user s.manager.db session.user.id))) [
        | inl missing ↦ rw (missing, add_proxy_route) refl
        | inr found ↦ rw (found.1, add_proxy_route) refl
      ]

pub unpublish-manager :
    (a : Answers) (session : Session) (s : System) (vm_id : ℕ) (name : Text)
    → (unpublish a session s vm_id name).manager ≡ s.manager
unfolding unpublish remove_proxy_route
unpublish-manager a session s vm_id name = unregister_vm_metadata-manager session s vm_id

pub publish-manager :
    (a : Answers) (session : Session) (s : System) (vm : Vm) (name : Text)
    → (publish a session s vm name).manager ≡ s.manager
unfolding publish
publish-manager a session s vm name =
    add_proxy_route-manager session (register_vm_metadata session s vm.id name vm.image) vm.id
      a.route_added name
    ∙ register_vm_metadata-manager session s vm.id name vm.image
