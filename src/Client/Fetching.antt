-- ===== src/Client/Fetching.antt =====
-- What a fetched vault comes from, and where the requests for it go.
use vaultwarden_eso_provider.Prelude.{
  ◌≡◌, refl, ap, ap₂, ◌∙◌, sym, not, Option, some, List, [], ◌∷◌, ◌++◌, Result, ok, err, >>=-eq-ok,
  ok_injective, map_err, map_err-eq-ok, ok_or, ok_or-eq-ok, bail_if,
}
use vaultwarden_eso_provider.Text.{codes}
use vaultwarden_eso_provider.Primitives.{Primitives}
use vaultwarden_eso_provider.Errors.{ClientError, ApiError, api, http, unlock_task_failed}
use vaultwarden_eso_provider.Api.{HttpResponse, TokenResponse, BitwardenSession, decode_json}
use vaultwarden_eso_provider.Api.Session.{IsSession, unlock_session-IsSession}
use vaultwarden_eso_provider.Vault.{SyncResponse}
use vaultwarden_eso_provider.Endpoints.{UrlCrate, endpoint_url}
use vaultwarden_eso_provider.Client.{
  bitwarden_client_version, Decoders, Runtime, ApiClient, ApiRequest, Payload, Upstream, Sent,
  send_to, token_form, bearer_get, token_request, unlock_response, login_with_api_key, sync_url,
  sync, sync_after, fetch_vault,
}

module _ (c : UrlCrate) where
  -- A call of `send_to` that succeeds had a URL and a response, and sent that one request.
  record WasSent {A : Type 0} (answer : ApiRequest c → Option HttpResponse)
      (url : Result ApiError c.Url) (payload : Payload) (next : HttpResponse → Result ClientError A)
      (a : A) (sent : List (ApiRequest c)) : Type 0 where
    target : c.Url
    reached : url ≡ ok target
    request : ApiRequest c
    carried : request ≡ record {
      url = target;
      client_version = codes bitwarden_client_version;
      payload = payload;
    }
    response : HttpResponse
    answered : answer request ≡ some response
    given : next response ≡ ok a
    only : sent ≡ request ∷ []

  send_to-WasSent :
      {A : Type 0} (answer : ApiRequest c → Option HttpResponse) (url : Result ApiError c.Url)
      (payload : Payload) (next : HttpResponse → Result ClientError A) (a : A)
      → (send_to c answer url payload next).0 ≡ ok a
      → WasSent answer url payload next a (send_to c answer url payload next).1
  unfolding send_to
  send_to-WasSent answer (err e) payload next a h = cc
  send_to-WasSent answer (ok url) payload next a h =
      let request : ApiRequest c = record {
        url = url;
        client_version = codes bitwarden_client_version;
        payload = payload;
      } in
      let (response, e, given) = >>=-eq-ok (ok_or (api http) (answer request)) next h in
      record {
        target = url;
        reached = refl;
        request = request;
        carried = refl;
        response = response;
        answered = ok_or-eq-ok (api http) (answer request) e;
        given = given;
        only = refl;
      }

  module _ {C : Type 0} (p : Primitives) (decoders : Decoders) (runtime : Runtime)
      (upstream : Upstream c C) (client : ApiClient c C) where
    -- A vault that was fetched: the form of the login was sent to the identity endpoint; the
    -- session was unlocked from its response with the master password, within the memory limit; and
    -- the vault was decoded from the response to the sync, sent with the token of that session.
    pub record IsFetched (session : BitwardenSession) (vault : SyncResponse)
        (sent : List (ApiRequest c)) : Type 0 where
      pub login_url : c.Url
      pub at_identity :
          endpoint_url c client.endpoints.identity_url (codes "connect" ∷ codes "token" ∷ [])
          ≡ ok login_url
      pub vault_url : c.Url
      pub at_api : sync_url c p decoders runtime upstream client ≡ ok vault_url
      pub login : ApiRequest c
      pub logs_in : login ≡ record {
        url = login_url;
        client_version = codes bitwarden_client_version;
        payload = token_form (token_request c p decoders runtime upstream client);
      }
      pub login_response : HttpResponse
      pub logged_in : upstream.answer client.http login ≡ some login_response
      pub token : TokenResponse
      pub decoded : decode_json decoders.from_token login_response "token" ≡ ok token
      pub unlocked :
          IsSession p token client.auth.master_password client.argon2_memory_limit_mib session
      pub synchronize : ApiRequest c
      pub with_token : synchronize ≡ record {
        url = vault_url;
        client_version = codes bitwarden_client_version;
        payload = bearer_get session.access_token;
      }
      pub sync_response : HttpResponse
      pub synced : upstream.answer client.http synchronize ≡ some sync_response
      pub read : decode_json decoders.from_sync sync_response "sync" ≡ ok vault
      pub both : sent ≡ login ∷ synchronize ∷ []

    unlock_response-IsSession :
        (response : HttpResponse) (session : BitwardenSession)
        → unlock_response c p decoders runtime upstream client response ≡ ok session
        → (token : TokenResponse) × (decode_json decoders.from_token response "token" ≡ ok token)
          × IsSession p token client.auth.master_password client.argon2_memory_limit_mib session
    unfolding unlock_response
    unlock_response-IsSession response session h =
        let (token, e₁, h₁) =
          >>=-eq-ok (map_err api (decode_json decoders.from_token response "token")) _ h in
        let (_, _, h₂) =
          >>=-eq-ok (bail_if (not runtime.permit_granted) (api unlock_task_failed)) _ h₁ in
        let (_, _, h₃) =
          >>=-eq-ok (bail_if (not runtime.task_completed) (api unlock_task_failed)) _ h₂ in
        (
          token,
          map_err-eq-ok api (decode_json decoders.from_token response "token") e₁,
          unlock_session-IsSession p token client.auth.master_password
              client.argon2_memory_limit_mib session h₃,
        )

    sync_after-IsFetched :
        (logged_in : Sent c BitwardenSession) (session : BitwardenSession) (vault : SyncResponse)
        → (sync_after c p decoders runtime upstream client logged_in).0 ≡ ok (session, vault)
        → (logged_in.0 ≡ ok session)
          × ((sync c p decoders runtime upstream client session).0 ≡ ok vault)
          × ((sync_after c p decoders runtime upstream client logged_in).1
              ≡ logged_in.1 ++ (sync c p decoders runtime upstream client session).1)
    unfolding sync_after
    sync_after-IsFetched (err e, sent) session vault h = cc
    sync_after-IsFetched (ok session', sent) session vault h =
        let (vault', e, h₁) =
          >>=-eq-ok (sync c p decoders runtime upstream client session').0 _ h in
        let same = ok_injective h₁ in
        let same_session : session' ≡ session = ap (λ pair. pair.0) same in
        let same_vault : vault' ≡ vault = ap (λ pair. pair.1) same in
        rw (sym same_session, sym same_vault) (refl, e, refl)

    -- A fetch that succeeds logged in at the identity endpoint, unlocked the session from the
    -- response with the master password, and decoded the vault from the response to a sync at the API
    -- endpoint with the token of that session; these two requests are all that it sent.
    pub fetch_vault-IsFetched :
        (session : BitwardenSession) (vault : SyncResponse)
        → (fetch_vault c p decoders runtime upstream client).0 ≡ ok (session, vault)
        → IsFetched session vault (fetch_vault c p decoders runtime upstream client).1
    unfolding fetch_vault login_with_api_key sync
    fetch_vault-IsFetched session vault h =
        let logged_in = login_with_api_key c p decoders runtime upstream client in
        let (is_in, is_synced, all_sent) = sync_after-IsFetched logged_in session vault h in
        let login =
          send_to-WasSent (upstream.answer client.http)
            (endpoint_url c client.endpoints.identity_url (codes "connect" ∷ codes "token" ∷ []))
            (token_form (token_request c p decoders runtime upstream client))
            (unlock_response c p decoders runtime upstream client) session is_in in
        let synced =
          send_to-WasSent (upstream.answer client.http)
            (sync_url c p decoders runtime upstream client) (bearer_get session.access_token)
            (λ response. map_err api (decode_json decoders.from_sync response "sync")) vault
            is_synced in
        let (token, decoded, unlocked) =
          unlock_response-IsSession login.response session login.given in
        record {
          login_url = login.target;
          at_identity = login.reached;
          vault_url = synced.target;
          at_api = synced.reached;
          login = login.request;
          logs_in = login.carried;
          login_response = login.response;
          logged_in = login.answered;
          token = token;
          decoded = decoded;
          unlocked = unlocked;
          synchronize = synced.request;
          with_token = synced.carried;
          sync_response = synced.response;
          synced = synced.answered;
          read =
              map_err-eq-ok api (decode_json decoders.from_sync synced.response "sync")
                synced.given;
          both = all_sent ∙ ap₂ (λ xs ys. xs ++ ys) login.only synced.only;
        }
