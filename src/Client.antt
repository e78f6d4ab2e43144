-- ===== src/Client.antt =====
-- The client of crates/bweso-bitwarden/src/api.rs: the requests that it sends, and
-- `fetch_vault`. What reqwest sends and receives is a parameter: the answer to each request.
pub mod Options
pub mod Building
pub mod Fetching
pub mod Contacts
use vaultwarden_eso_provider.Prelude.{
  ℕ, String, Bool, true, false, not, ◌&&◌, Option, none, some, List, [], ◌∷◌, ◌++◌, Result, ok, err,
  ◌>>=◌, ◌>>◌, map_err, ok_or, bail_if, leb, if◌then◌else◌,
}
use vaultwarden_eso_provider.Text.{Text, codes, starts_with}
use vaultwarden_eso_provider.Utf8.{Bytes}
use vaultwarden_eso_provider.Primitives.{Primitives}
use vaultwarden_eso_provider.Core.{SecretDocument}
use vaultwarden_eso_provider.Keys.{KdfConfig, validate_for_prelogin}
use vaultwarden_eso_provider.Errors.{
  ApiError, ClientError, api, http, invalid_kdf_memory_limit, unlock_task_failed,
}
use vaultwarden_eso_provider.Selector.{Selector}
use vaultwarden_eso_provider.Api.{
  HttpResponse, KdfResponse, TokenResponse, BitwardenSession, decode_json, kdf_from_response,
  unlock_session,
}
use vaultwarden_eso_provider.Vault.{SyncResponse}
use vaultwarden_eso_provider.Cache.{
  CacheConfig, ClientState, Readings, Fetched, from_secs, resolve_with_cached_sync,
}
use vaultwarden_eso_provider.Cache.Counters.{CacheMetricState}
use vaultwarden_eso_provider.Client.Options.{
  BitwardenAuth, BitwardenDevice, HttpConfig, ClientOptions,
}
use vaultwarden_eso_provider.Endpoints.{UrlCrate, BitwardenEndpoints, endpoint_url}

abbrev pub bitwarden_client_version : String
bitwarden_client_version = "2025.12.0"

-- The form of `login_with_api_key`.
pub record ApiKeyTokenRequest : Type 0 where
  pub grant_type : Text
  pub scope : Text
  pub client_id : Text
  pub client_secret : Text
  pub device_identifier : Text
  pub device_name : Text
  pub device_type : ℕ

-- What a request carries: the JSON of the e-mail address, the form, or the bearer token of a GET.
pub data Payload : Type 0 where
  prelogin_json : (email : Text) → Payload
  token_form : ApiKeyTokenRequest → Payload
  bearer_get : (access_token : Text) → Payload

-- `serde_json::from_slice` on the derived `Deserialize` of the responses.
pub record Decoders : Type 0 where
  pub from_prelogin : Bytes → Option KdfResponse
  pub from_token : Bytes → Option TokenResponse
  pub from_sync : Bytes → Option SyncResponse

-- Whether the semaphore of the unlocks gives its permit, and whether the blocking task completes.
pub record Runtime : Type 0 where
  pub permit_granted : Bool
  pub task_completed : Bool

-- `reqwest::redirect::Policy`: no redirect is followed, or at most so many.
pub data RedirectPolicy : Type 0 where
  no_redirects : RedirectPolicy
  limited : ℕ → RedirectPolicy

-- The client that reqwest builds, by what its builder was given.
pub record HttpClient (Certificate : Type 0) : Type 0 where
  pub user_agent : Text
  pub connect_timeout : ℕ
  pub request_timeout : ℕ
  pub redirect_policy : RedirectPolicy
  pub root_certificates : List Certificate

-- The builder of `with_options`.
unfoldable pub http_client_from : {C : Type 0} → HttpConfig C → HttpClient C
http_client_from config = record {
  user_agent = codes "vaultwarden-eso-provider";
  connect_timeout = config.connect_timeout;
  request_timeout = config.request_timeout;
  redirect_policy = no_redirects;
  root_certificates = config.extra_root_certificates;
}

module _ (c : UrlCrate) where
  -- `BitwardenRequestHeaders` adds the version of the client to every request.
  pub record ApiRequest : Type 0 where
    pub url : c.Url
    pub client_version : Text
    pub payload : Payload

  -- How reqwest carries out a request with a client: the answer, `none` for a transport error, and
  -- the URLs that it sends to, which are that of the request and of every redirect that it follows.
  pub record Upstream (Certificate : Type 0) : Type 0 where
    pub answer : HttpClient Certificate → ApiRequest → Option HttpResponse
    pub contacts : HttpClient Certificate → ApiRequest → List c.Url

  -- The URLs that requests are sent to, in their order.
  unfoldable pub contacted : {C : Type 0} → Upstream C → HttpClient C → List ApiRequest → List c.Url
  contacted upstream client [] = []
  contacted upstream client (request ∷ requests) =
      upstream.contacts client request ++ contacted upstream client requests

  -- `BitwardenApiClient`, with the state that its tasks share.
  pub record ApiClient (Certificate : Type 0) : Type 0 where
    pub endpoints : BitwardenEndpoints c
    pub auth : BitwardenAuth
    pub device : BitwardenDevice
    pub http : HttpClient Certificate
    pub cache_config : CacheConfig
    pub argon2_memory_limit_mib : ℕ
    pub client_state : ClientState

  abbrev pub new_state : ClientState
  new_state = record {
    cache = none;
    retry_after = none;
    metrics = record {
      cache_hits = 0;
      refresh_successes = 0;
      refresh_failures = 0;
      stale_serves = 0;
      last_success_unix_seconds = 0;
    };
  }

  -- `BitwardenApiClient::with_options`; `builds` says whether reqwest builds a client.
  unfoldable pub with_options :
      {C : Type 0} → (HttpClient C → Bool) → ClientOptions c C → Result ApiError (ApiClient C)
  unfolding http_client_from
  with_options builds options = do
    bail_if
        (not (leb 16 options.argon2_memory_limit_mib && leb options.argon2_memory_limit_mib 1024))
        invalid_kdf_memory_limit
    bail_if (not (builds (http_client_from options.http_config))) http
    ok (record {
      endpoints = options.endpoints;
      auth = options.auth;
      device = options.device;
      http = http_client_from options.http_config;
      cache_config = options.cache_config;
      argon2_memory_limit_mib = options.argon2_memory_limit_mib;
      client_state = new_state;
    })

  -- What a call returns, and the requests that it sent, in their order.
  abbrev pub Sent : Type 0 → Type 0
  Sent A = Result ClientError A × List ApiRequest

  -- A request to a URL, if there is one, and what its response gives.
  unfoldable pub send_to :
      {A : Type 0}
      → (ApiRequest → Option HttpResponse)
      → Result ApiError c.Url
      → Payload
      → (HttpResponse → Result ClientError A)
      → Sent A
  send_to answer (err error) payload next = (err (api error), [])
  send_to answer (ok url) payload next =
      let request : ApiRequest = record {
        url = url;
        client_version = codes bitwarden_client_version;
        payload = payload;
      } in
      (ok_or (api http) (answer request) >>= next, request ∷ [])

  module _ {C : Type 0} (p : Primitives) (decoders : Decoders) (runtime : Runtime)
      (upstream : Upstream C) (client : ApiClient C) where
    unfoldable pub prelogin : Text → Sent KdfConfig
    unfolding send_to
    prelogin email =
        send_to (upstream.answer client.http)
          (endpoint_url c client.endpoints.identity_url
            (codes "accounts" ∷ codes "prelogin" ∷ codes "password" ∷ []))
          (prelogin_json email)
          (λ response. do
            answer ← map_err api (decode_json decoders.from_prelogin response "prelogin")
            map_err api (kdf_from_response answer))

    unfoldable pub token_request : ApiKeyTokenRequest
    token_request = record {
      grant_type = codes "client_credentials";
      scope =
          if starts_with client.auth.client_id (codes "organization.")
          then codes "api.organization"
          else codes "api";
      client_id = client.auth.client_id;
      client_secret = client.auth.client_secret;
      device_identifier = client.device.identifier;
      device_name = client.device.device_name;
      device_type = client.device.device_type;
    }

    -- The response to the login: its decoding, and the unlock in a blocking task.
    unfoldable pub unlock_response : HttpResponse → Result ClientError BitwardenSession
    unlock_response response = do
      answer ← map_err api (decode_json decoders.from_token response "token")
      bail_if (not runtime.permit_granted) (api unlock_task_failed)
      bail_if (not runtime.task_completed) (api unlock_task_failed)
      unlock_session p answer client.auth.master_password client.argon2_memory_limit_mib

    unfoldable pub login_with_api_key : Sent BitwardenSession
    unfolding send_to unlock_response token_request
    login_with_api_key =
        send_to (upstream.answer client.http)
          (endpoint_url c client.endpoints.identity_url (codes "connect" ∷ codes "token" ∷ []))
          (token_form token_request) unlock_response

    -- The URL of the sync, with its query.
    unfoldable pub sync_url : Result ApiError c.Url
    sync_url = do
      url ← endpoint_url c client.endpoints.api_url (codes "sync" ∷ [])
      ok (c.append_pair (codes "excludeDomains") (codes "true") url)

    unfoldable pub sync : BitwardenSession → Sent SyncResponse
    unfolding send_to sync_url
    sync session =
        send_to (upstream.answer client.http) sync_url (bearer_get session.access_token)
          (λ response. map_err api (decode_json decoders.from_sync response "sync"))

    -- The rest of `fetch_vault` behind the login.
    unfoldable pub sync_after : Sent BitwardenSession → Sent (BitwardenSession × SyncResponse)
    unfolding sync
    sync_after (err error, sent) = (err error, sent)
    sync_after (ok session, sent) =
        let (synced, sent') = sync session in
        ((do vault ← synced; ok (session, vault)), sent ++ sent')

    unfoldable pub fetch_vault : Sent (BitwardenSession × SyncResponse)
    unfolding sync_after login_with_api_key
    fetch_vault = sync_after login_with_api_key

    -- `BitwardenProvider::resolve`: the refresh fetches from the server.
    unfoldable pub resolve_upstream :
        Readings → Selector → ClientState → Result ClientError SecretDocument × ClientState
    unfolding resolve_with_cached_sync fetch_vault
    resolve_upstream t selector s =
        resolve_with_cached_sync client.cache_config p t fetch_vault.0 selector s
