-- ===== src/Tests/Client.antt =====
-- Witnesses on endpoints and on the client.
use vaultwarden_eso_provider.Prelude.{
  ℕ, ◌≡◌, ◌↔◌, refl, true, false, some, none, Option, List, [], ◌∷◌, ok, All, inl,
}
use vaultwarden_eso_provider.Text.{Text, codes, split_once}
use vaultwarden_eso_provider.Core.{is_blank}
use vaultwarden_eso_provider.Api.{
  received, decode_json, decode_json_body, collect_body, next_length,
}
use vaultwarden_eso_provider.Endpoints.{UrlCrate, parse_named, endpoint_url, push_segments}
use vaultwarden_eso_provider.Endpoints.Security.{KeepsOrigin, IsSecure, parse_named_iff}
use vaultwarden_eso_provider.Client.{
  Decoders, Runtime, ApiClient, Upstream, RedirectPolicy, no_redirects, limited, http_client_from,
  with_options, contacted, new_state, fetch_vault, login_with_api_key, unlock_response, sync,
  sync_after, sync_url, send_to,
}
use vaultwarden_eso_provider.Client.Options.{ClientOptions}
use vaultwarden_eso_provider.Client.Fetching.{IsFetched, fetch_vault-IsFetched}
use vaultwarden_eso_provider.Client.Contacts.{RespectsPolicy, fetch_vault-IsSecure}
use vaultwarden_eso_provider.Tests.Samples.{toy, vault}
use vaultwarden_eso_provider.Tests.Cache.{config}
use vaultwarden_eso_provider.Tests.Crypto.{response, session, session_unlocked}

-- A scheme, a host and a path.
pub record Address : Type 0 where
  pub address_scheme : Text
  pub address_host : Text
  pub address_path : Text

-- `scheme:host` is read, and nothing else.
abbrev address_from : Option (Text × Text) → Option Address
address_from none = none
address_from (some (before, behind)) =
    some (record { address_scheme = before; address_host = behind; address_path = [] })

abbrev pub addresses : UrlCrate
addresses = record {
  Url = Address;
  parse_url = λ s. address_from (split_once b':' s);
  scheme = λ a. a.address_scheme;
  host_str = λ a. some a.address_host;
  url_path = λ a. a.address_path;
  url_query = λ a. none;
  port_or_known_default = λ a. some 80;
  clear_query = λ a. a;
  clear_fragment = λ a. a;
  set_path = λ path a. record a { address_path = path };
  is_base = λ a. true;
  pop_if_empty = λ a. a;
  push_segment = λ segment a. a;
  append_pair = λ name value a. a;
}

pub addresses-KeepsOrigin : KeepsOrigin addresses
addresses-KeepsOrigin = record {
  clear_query = λ a. (refl, refl);
  clear_fragment = λ a. (refl, refl);
  set_path = λ path a. (refl, refl);
  pop_if_empty = λ a. (refl, refl);
  push_segment = λ segment a. (refl, refl);
  append_pair = λ name value a. (refl, refl);
}

abbrev home : Address
home = record {
  address_scheme = codes "https";
  address_host = codes "vault.example";
  address_path = [];
}

parse_named_iff_example :
    (parse_named addresses (codes "https:vault.example") "api_url" ≡ ok home) ↔ (
      (is_blank (codes "https:vault.example") ≡ false)
      × (addresses.parse_url (codes "https:vault.example") ≡ some home)
      × IsSecure addresses home)
parse_named_iff_example = parse_named_iff addresses (codes "https:vault.example") "api_url" home

abbrev decoders : Decoders
decoders = record {
  from_prelogin = λ body. none;
  from_token = λ body. some response;
  from_sync = λ body. some vault;
}

abbrev runtime : Runtime
runtime = record { permit_granted = true; task_completed = true }

-- Where a client sends a request: a redirect, if it follows any, leads to plain HTTP.
abbrev contacts_by : RedirectPolicy → Address → List Address
contacts_by no_redirects url = url ∷ []
contacts_by (limited n) url = url ∷ record url { address_scheme = codes "http" } ∷ []

-- Every request is answered with the status 200 and one byte.
abbrev upstream : Upstream addresses ℕ
upstream = record {
  answer = λ client request. some (record { status = 200; chunks = received (1 ∷ []) ∷ [] });
  contacts = λ client request. contacts_by client.redirect_policy request.url;
}

upstream-RespectsPolicy : RespectsPolicy addresses upstream
upstream-RespectsPolicy client request off = rw off refl

abbrev options : ClientOptions addresses ℕ
options = record {
  endpoints = record { identity_url = home; api_url = home };
  auth = record {
    client_id = codes "user.1";
    client_secret = codes "s";
    master_password = codes "secret";
  };
  device = record { device_type = 22; identifier = codes "d"; device_name = codes "n" };
  cache_config = config;
  http_config = record { connect_timeout = 5; request_timeout = 25; extra_root_certificates = [] };
  argon2_memory_limit_mib = 64;
}

abbrev api_client : ApiClient addresses ℕ
api_client = record {
  endpoints = options.endpoints;
  auth = options.auth;
  device = options.device;
  http = http_client_from options.http_config;
  cache_config = config;
  argon2_memory_limit_mib = 64;
  client_state = new_state addresses;
}

built : with_options addresses (λ client. true) options ≡ ok api_client
unfolding with_options
built = refl

fetched : (fetch_vault addresses toy decoders runtime upstream api_client).0 ≡ ok (session, vault)
unfolding fetch_vault login_with_api_key unlock_response sync sync_after sync_url send_to
    endpoint_url push_segments decode_json decode_json_body collect_body next_length
fetched = rw session_unlocked

fetch_vault-IsFetched_example :
    IsFetched addresses toy decoders runtime upstream api_client session vault
      (fetch_vault addresses toy decoders runtime upstream api_client).1
fetch_vault-IsFetched_example =
    fetch_vault-IsFetched addresses toy decoders runtime upstream api_client session vault fetched

fetch_vault-IsSecure_example : All (IsSecure addresses) (
    contacted addresses upstream api_client.http
      (fetch_vault addresses toy decoders runtime upstream api_client).1)
fetch_vault-IsSecure_example =
    fetch_vault-IsSecure addresses toy decoders runtime upstream (λ client. true) options api_client
      addresses-KeepsOrigin upstream-RespectsPolicy (inl refl, inl refl) built
