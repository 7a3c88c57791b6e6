-- ===== src/Gateway/Tests.antt =====
-- The gateways' theorems at concrete requests.
use ussycode.Base.{
  ℕ, ◌+◌, ◌-◌, ◌*◌, ◌≤◌, ◌≡◌, refl, true, false, String, Option, none, some, List, [], ◌∷◌, ◌++◌,
  if◌then◌else◌, nat_eq, string_eq, list_eq, list_beq, ok, Text, bytes, arith, lookup, insert,
  is_empty,
}
use ussycode.Db.Vms.{first_where, exists_where, update_where}
use ussycode.Api.RateLimiter.{minute}
use ussycode.Gateway.Limiter.{RateLimiterMap, allow}
use ussycode.Gateway.Limiter.Rate.{Ask, run, admitted, admitted_bound, allowed_again}
use ussycode.Gateway.Llm.{
  Provider, LlmKey, Encryptor, Gateway, HttpRequest, get_llm_key, set_user_key, get_user_key, begin,
  admit, direct, increment_llm_usage, hour_of, forward, estimate_tokens,
}
use ussycode.Gateway.Llm.Keys.{Opens, same, get_user_key-set_user_key}
use ussycode.Gateway.Llm.Race.{keys_cross}

abbrev one_a_minute : RateLimiterMap
one_a_minute = record { buckets = []; rate = 1; capacity = 1 }

abbrev requests : List Ask
requests = (5, 1) ∷ (6, 1) ∷ (7, 2) ∷ (minute + 5, 1) ∷ []

two_pass : admitted 1 one_a_minute requests ≡ 2
unfolding admitted allow lookup insert
two_pass = refl

admitted_bound_example :
    admitted 1 one_a_minute requests * minute ≤ 1 * minute + (2 * minute - 5) * 1
admitted_bound_example =
    admitted_bound 1 5 (2 * minute) one_a_minute requests (omega arith) (omega arith)

allowed_again_example :
    (allow (minute + 5) (run (allow 5 one_a_minute 1).1 ((7, 2) ∷ [])) 1).0 ≡ true
allowed_again_example =
    allowed_again 1 5 (minute + 5) one_a_minute ((7, 2) ∷ []) (omega arith) (omega arith)
      (omega arith)

abbrev openai : Provider
openai = record {
  target = record { scheme = bytes "https"; host = bytes "api.openai.com"; path = [] };
  byok = true;
}

-- Encryption that appends a byte, and takes one off.
abbrev toy_encrypt : Text → Option Text
toy_encrypt t = some (1 ∷ t)

abbrev toy_decrypt : Text → Option Text
toy_decrypt [] = none
toy_decrypt (c ∷ t) = some t

abbrev toy : Encryptor
toy = record { encrypt = toy_encrypt; decrypt = toy_decrypt }

toy-Opens : Opens (some toy)
toy-Opens text encrypted h = unpack encrypted h
  where
    unpack : (e : Text) → some (1 ∷ text) ≡ some e → toy_decrypt e ≡ some text
    unpack [] h = absurd (cc)
    unpack (c ∷ t) h = cc

abbrev stored : ℕ → String → LlmKey
stored user key = record {
  user_id = user;
  provider = bytes "openai";
  encrypted_key = 1 ∷ bytes key;
}

abbrev llm_gateway : Gateway
llm_gateway = record {
  providers = (bytes "openai", openai) ∷ [];
  encryptor = some toy;
  limiters = record { buckets = []; rate = 60; capacity = 60 };
  users = 1 ∷ 2 ∷ [];
  keys = stored 1 "ann-key" ∷ stored 2 "bob-key" ∷ [];
  usage = [];
  directors = [];
}

abbrev chat : HttpRequest
chat = record {
  url = record {
    scheme = bytes "http";
    host = bytes "gw";
    path = bytes "/gateway/llm/openai/v1/chat";
  };
  headers = [];
  content_length = 400;
}

abbrev ann_began : Gateway
ann_began = (begin 5 llm_gateway (some 1) (bytes "openai") chat).1

abbrev bob_began : Gateway
bob_began = (begin 6 ann_began (some 2) (bytes "openai") chat).1

abbrev BothBegin : Type 0
BothBegin =
    (begin 5 llm_gateway (some 1) (bytes "openai") chat ≡ (ok tt, ann_began))
    × (begin 6 ann_began (some 2) (bytes "openai") chat ≡ (ok tt, bob_began))
    × (get_user_key llm_gateway 2 (bytes "openai") ≡ ok (bytes "bob-key"))

both_began : BothBegin
unfolding begin admit allow lookup insert get_user_key get_llm_key first_where list_beq direct
    increment_llm_usage exists_where update_where hour_of estimate_tokens
both_began = (refl, refl, refl)

openai_known : lookup (bytes "openai") llm_gateway.providers ≡ some openai
unfolding lookup list_beq
openai_known = refl

not_empty : is_empty (bytes "bob-key") ≡ false
unfolding is_empty
not_empty = refl

keys_cross_example :
    lookup (bytes "Authorization") (forward bob_began (bytes "openai") chat).headers
    ≡ some (bytes "Bearer " ++ bytes "bob-key")
keys_cross_example =
    keys_cross 5 6 1 2 chat chat llm_gateway ann_began bob_began openai (bytes "bob-key")
      both_began.0 both_began.1 openai_known refl both_began.2 not_empty

abbrev new_key : Gateway
new_key = (set_user_key llm_gateway 1 (bytes "openai") (bytes "new")).1

key_stored : set_user_key llm_gateway 1 (bytes "openai") (bytes "new") ≡ (ok tt, new_key)
unfolding set_user_key ussycode.Gateway.Llm.set_llm_key exists_where update_where lookup list_beq
key_stored = refl

get_user_key-set_user_key_example : get_user_key new_key 1 (bytes "openai") ≡ (
    if same 1 (bytes "openai") 1 (bytes "openai")
    then ok (bytes "new")
    else get_user_key llm_gateway 1 (bytes "openai"))
get_user_key-set_user_key_example =
    get_user_key-set_user_key 1 (bytes "openai") (bytes "new") 1 (bytes "openai") llm_gateway
      new_key toy-Opens key_stored
