-- ===== src/Gateway/Metadata/Tests.antt =====
-- The metadata server's answers to concrete requests.
use ussycode.Base.{
  ◌≡◌, refl, none, some, [], ◌∷◌, nat_eq, list_eq, list_beq, bytes, false, is_empty, lookup,
  trim_prefix, trim_suffix, has_prefix, has_suffix,
}
use ussycode.Db.Models.{Db}
use ussycode.Gateway.Registry.{VmMetadata, metadata_for_request}
use ussycode.Gateway.Metadata.{
  MetadataServer, MetadataRequest, Route, text, answer_meta_data, metadata_value, answer_vm, serve,
}

abbrev box : VmMetadata
box = record {
  instance_id = bytes "vm-1";
  local_ipv4 = bytes "10.0.0.2";
  hostname = bytes "box";
  user_id = 1;
  user_handle = bytes "ann";
  vm_name = bytes "box";
  image = bytes "ussyuntu";
  ssh_keys = [];
  gateway = bytes "10.0.0.1";
  env_vars = [];
}

abbrev server : MetadataServer
server = record {
  vms = (bytes "10.0.0.2", box) ∷ [];
  llm = [];
  llm_gateway = none;
  email_sender = none;
}

abbrev request : MetadataRequest
request = record {
  fold = λ c. c;
  now = 5;
  date = [];
  http = record {
    url = record { scheme = []; host = []; path = bytes "/latest/meta-data/hostname/" };
    headers = [];
    content_length = 0;
  };
  is_post = false;
  email = none;
  delivered = false;
}

abbrev database : Db
database = record {
  users = [];
  vms = [];
  shares = [];
  tokens = [];
  magic_tokens = [];
  ssh_keys = [];
  api_tokens = [];
  tags = [];
  domains = [];
  next_vm_id = 1;
  next_share_id = 1;
  next_token_id = 1;
  next_key_id = 1;
}

asked_itself :
    serve database server (some (bytes "10.0.0.2")) Route.meta_data request
    ≡ (text (bytes "box"), server)
unfolding serve metadata_for_request lookup list_beq answer_vm answer_meta_data metadata_value
    trim_prefix has_prefix trim_suffix has_suffix is_empty
asked_itself = refl
