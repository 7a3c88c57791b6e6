-- ===== src/Gateway/Metadata.antt =====
-- The metadata server that the VMs ask (internal/gateway/metadata.go). The multiplexer of net/http
-- picks the route; JSON and the order of the environment are left out. What the LLM gateway and the
-- mail sender do with a request is Gateway.Llm and Gateway.EmailSend.
mod Tests
use ussycode.Base.{
  ℕ, Bool, true, false, not, Option, none, some, List, [], ◌∷◌, ◌++◌, if◌then◌else◌, nat_eq,
  list_eq, ◌==◌, Result, ok, err, GoMap, lookup, insert, Text, bytes, is_empty, trim_prefix,
  trim_suffix, decimal,
}
use ussycode.Db.Models.{Db}
use ussycode.Api.Words.{cut}
use ussycode.Gateway.Registry.{VmMetadata, Registry, metadata_for_request}
use ussycode.Gateway.Llm.{Gateway, HttpRequest, LlmError, begin}
use ussycode.Gateway.EmailSend.{EmailSender, EmailRequest, EmailResponse, Mail, handle_email_send}

-- `llm` has the base URLs of the configuration that is used where there is no LLM gateway.
pub record MetadataServer : Type 0 where
  pub vms : Registry
  pub llm : GoMap Text Text
  pub llm_gateway : Option Gateway
  pub email_sender : Option EmailSender

pub data Route : Type 0 where
  meta_data : Route
  vm_metadata user_metadata ssh_keys hostname env gateway : Route
  llm_proxy email_send health : Route

-- What a request brings, what the mail relay answers to it, and the table by which cases are ignored.
pub record MetadataRequest : Type 0 where
  pub fold : ℕ → ℕ
  pub now : ℕ
  pub date : Text
  pub http : HttpRequest
  pub is_post : Bool
  pub email : Option EmailRequest
  pub delivered : Bool

pub data MetadataAnswer : Type 0 where
  forbidden not_found method_not_allowed provider_required unknown_provider healthy : MetadataAnswer
  text : Text → MetadataAnswer
  whole : VmMetadata → MetadataAnswer
  user : ℕ → Text → MetadataAnswer
  lines : List Text → MetadataAnswer
  environment : GoMap Text Text → MetadataAnswer
  llm_stub : Text → Text → MetadataAnswer
  llm : Text → Result LlmError (Unit {0}) → MetadataAnswer
  email_stub : MetadataAnswer
  email : EmailResponse → Option Mail → MetadataAnswer

-- The keys of `handleMetadata`, and what they stand for.
unfoldable pub metadata_value : VmMetadata → Text → Option Text
metadata_value m key =
    if is_empty key
    then some (bytes "instance-id\nlocal-ipv4\nhostname\nuser-id\nuser-handle\nvm-name\nimage")
    else if key == bytes "instance-id"
    then some m.instance_id
    else if key == bytes "local-ipv4"
    then some m.local_ipv4
    else if key == bytes "hostname"
    then some m.hostname
    else if key == bytes "user-id"
    then some (decimal m.user_id)
    else if key == bytes "user-handle"
    then some m.user_handle
    else if key == bytes "vm-name"
    then some m.vm_name
    else if key == bytes "image"
    then some m.image
    else none

abbrev text_or_404 : Option Text → MetadataAnswer
text_or_404 none = not_found
text_or_404 (some t) = text t

unfoldable pub answer_meta_data : VmMetadata → Text → MetadataAnswer
unfolding metadata_value
answer_meta_data m path =
    let key = trim_suffix (trim_prefix path (bytes "/latest/meta-data/")) (bytes "/") in
    text_or_404 (metadata_value m key)

-- `strings.SplitN(path, "/", 2)[0]`.
abbrev first_part : Text → Option (Text × Text) → Text
first_part path none = path
first_part path (some (before, rest)) = before

unfoldable pub provider_of : Text → Text
provider_of path =
    let rest = trim_prefix path (bytes "/gateway/llm/") in first_part rest (cut 47 rest)

-- The fallback to the static configuration.
abbrev stub : Text → Option Text → MetadataAnswer
stub provider none = unknown_provider
stub provider (some base_url) = llm_stub provider base_url

abbrev proxied :
    MetadataServer
    → VmMetadata
    → MetadataRequest
    → Text
    → Option Gateway
    → MetadataAnswer × MetadataServer
proxied s m r provider none = (stub provider (lookup provider s.llm), s)
proxied s m r provider (some g) =
    let (answer, g') = begin r.now g (some m.user_id) provider r.http in
    (llm provider answer, record s { llm_gateway = some g' })

unfoldable pub answer_llm :
    MetadataServer → VmMetadata → MetadataRequest → MetadataAnswer × MetadataServer
answer_llm s m r =
    let provider = provider_of r.http.url.path in
    if is_empty provider then (provider_required, s) else proxied s m r provider s.llm_gateway

abbrev emailed :
    Db
    → MetadataServer
    → VmMetadata
    → MetadataRequest
    → Option EmailSender
    → MetadataAnswer × MetadataServer
emailed db s m r none = (email_stub, s)
emailed db s m r (some e) =
    let ((response, mail), e') =
      handle_email_send r.fold r.now r.date r.delivered db e m r.is_post r.email in
    (email response mail, record s { email_sender = some e' })

-- The routes of a VM that is known.
unfoldable pub answer_vm :
    Db → MetadataServer → VmMetadata → Route → MetadataRequest → MetadataAnswer × MetadataServer
answer_vm db s m meta_data r = (answer_meta_data m r.http.url.path, s)
answer_vm db s m vm_metadata r = (whole m, s)
answer_vm db s m user_metadata r = (user m.user_id m.user_handle, s)
answer_vm db s m ssh_keys r = (lines m.ssh_keys, s)
answer_vm db s m hostname r = (text m.hostname, s)
answer_vm db s m env r = (
  environment (
      (bytes "USSYCODE_USER", m.user_handle)
      ∷ (bytes "USSYCODE_VM", m.vm_name)
      ∷ (bytes "USSYCODE_IMAGE", m.image)
      ∷ m.env_vars),
  s,
)
answer_vm db s m gateway r = (text m.gateway, s)
answer_vm db s m llm_proxy r = answer_llm s m r
answer_vm db s m email_send r = emailed db s m r s.email_sender
answer_vm db s m health r = (healthy, s)

abbrev pub answer_known :
    Db
    → MetadataServer
    → Option VmMetadata
    → Route
    → MetadataRequest
    → MetadataAnswer × MetadataServer
answer_known db s none route r = (forbidden, s)
answer_known db s (some m) route r = answer_vm db s m route r

abbrev pub post_only :
    Bool → MetadataAnswer × MetadataServer → MetadataServer → MetadataAnswer × MetadataServer
post_only true answer s = answer
post_only false answer s = (method_not_allowed, s)

-- One request, from a host.
unfoldable pub serve :
    Db → MetadataServer → Option Text → Route → MetadataRequest → MetadataAnswer × MetadataServer
serve db s host health r = (healthy, s)
serve db s host email_send r =
    post_only r.is_post (answer_known db s (metadata_for_request s.vms host) email_send r) s
serve db s host route r = answer_known db s (metadata_for_request s.vms host) route r
