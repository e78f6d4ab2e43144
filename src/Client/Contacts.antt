-- ===== src/Client/Contacts.antt =====
-- The URLs that a fetch sends to.
use vaultwarden_eso_provider.Prelude.{
  ◌≡◌, refl, ap, ◌∙◌, sym, subst, Bool, append_assoc, List, [], ◌∷◌, ◌++◌, Result, ok, err,
  >>=-eq-ok, ok_injective, map_err, All, All-append,
}
use vaultwarden_eso_provider.Text.{codes}
use vaultwarden_eso_provider.Primitives.{Primitives}
use vaultwarden_eso_provider.Errors.{ClientError, ApiError, api}
use vaultwarden_eso_provider.Api.{HttpResponse, BitwardenSession, decode_json}
use vaultwarden_eso_provider.Endpoints.{UrlCrate, endpoint_url}
use vaultwarden_eso_provider.Endpoints.Security.{
  KeepsOrigin, IsSecure, AreSecure, SameOrigin-IsSecure, endpoint_url-IsSecure,
}
use vaultwarden_eso_provider.Client.{
  bitwarden_client_version, Decoders, Runtime, ApiClient, ApiRequest, Payload, Sent, Upstream,
  HttpClient, no_redirects, http_client_from, with_options, contacted, send_to, token_form,
  bearer_get, token_request, unlock_response, login_with_api_key, sync_url, sync, sync_after,
  fetch_vault,
}
use vaultwarden_eso_provider.Client.Options.{ClientOptions}
use vaultwarden_eso_provider.Client.Building.{with_options-fields}

module _ (c : UrlCrate) where
  -- Documented of reqwest: a client whose policy is to follow no redirect sends a request to its own
  -- URL and to no other.
  abbrev pub RespectsPolicy : {C : Type 0} → Upstream c C → Type 0
  RespectsPolicy {C} upstream =
      (client : HttpClient C) (request : ApiRequest c)
      → client.redirect_policy ≡ no_redirects
      → upstream.contacts client request ≡ request.url ∷ []

  contacted-append :
      {C : Type 0} (upstream : Upstream c C) (client : HttpClient C) (rs ts : List (ApiRequest c))
      → contacted c upstream client (rs ++ ts)
        ≡ contacted c upstream client rs ++ contacted c upstream client ts
  unfolding contacted
  contacted-append upstream client [] ts = refl
  contacted-append upstream client (r ∷ rs) ts =
      ap (λ us. upstream.contacts client r ++ us) (contacted-append upstream client rs ts)
      ∙ sym (
          append_assoc (upstream.contacts client r) (contacted c upstream client rs)
            (contacted c upstream client ts))

  module _ {C : Type 0} (p : Primitives) (decoders : Decoders) (runtime : Runtime)
      (upstream : Upstream c C) (client : ApiClient c C) (keeps : KeepsOrigin c)
      (respects : RespectsPolicy upstream) (off : client.http.redirect_policy ≡ no_redirects)
      (secure : AreSecure c client.endpoints) where
    sent_to-IsSecure :
        {A : Type 0} (url : Result ApiError c.Url) (payload : Payload)
        (next : HttpResponse → Result ClientError A)
        → ((target : c.Url) → url ≡ ok target → IsSecure c target)
        → All (IsSecure c) (
            contacted c upstream client.http
              (send_to c (upstream.answer client.http) url payload next).1)
    unfolding send_to contacted
    sent_to-IsSecure (err e) payload next h = tt
    sent_to-IsSecure (ok url) payload next h =
        rw
          (respects client.http
            (record {
              url = url;
              client_version = codes bitwarden_client_version;
              payload = payload;
            })
            off)
          (h url refl, tt)

    sync_url-IsSecure :
        (url : c.Url) → sync_url c p decoders runtime upstream client ≡ ok url → IsSecure c url
    unfolding sync_url
    sync_url-IsSecure url h =
        let (base, e, h₁) =
          >>=-eq-ok (endpoint_url c client.endpoints.api_url (codes "sync" ∷ [])) _ h in
        subst (IsSecure c) (ok_injective h₁) (
          SameOrigin-IsSecure c (c.append_pair (codes "excludeDomains") (codes "true") base) base
            (keeps.append_pair (codes "excludeDomains") (codes "true") base)
            (endpoint_url-IsSecure c keeps client.endpoints.api_url base (codes "sync" ∷ [])
              secure.1 e))

    sync_after-IsSecure :
        (logged_in : Sent c BitwardenSession)
        → All (IsSecure c) (contacted c upstream client.http logged_in.1)
        → All (IsSecure c) (
            contacted c upstream client.http
              (sync_after c p decoders runtime upstream client logged_in).1)
    unfolding sync_after sync
    sync_after-IsSecure (err e, sent) h = h
    sync_after-IsSecure (ok session, sent) h =
        let sent' = (sync c p decoders runtime upstream client session).1 in
        subst (All (IsSecure c)) (sym (contacted-append upstream client.http sent sent')) (
          All-append (IsSecure c) (contacted c upstream client.http sent)
            (contacted c upstream client.http sent') h
            (sent_to-IsSecure (sync_url c p decoders runtime upstream client)
              (bearer_get session.access_token)
              (λ response. map_err api (decode_json decoders.from_sync response "sync"))
              sync_url-IsSecure))

    client-IsSecure :
        All
          (IsSecure c)
          (contacted c upstream client.http (fetch_vault c p decoders runtime upstream client).1)
    unfolding fetch_vault login_with_api_key
    client-IsSecure =
        let segments = codes "connect" ∷ codes "token" ∷ [] in
        sync_after-IsSecure (login_with_api_key c p decoders runtime upstream client) (
          sent_to-IsSecure (endpoint_url c client.endpoints.identity_url segments)
            (token_form (token_request c p decoders runtime upstream client))
            (unlock_response c p decoders runtime upstream client)
            (λ url e.
              endpoint_url-IsSecure c keeps client.endpoints.identity_url url segments secure.0 e))

  -- With URLs whose methods keep scheme and host, and an HTTP library that follows no redirect where
  -- it is told so: a client that was built from options with endpoints that use HTTPS or the local
  -- host sends nothing of a fetch to a URL that does not, whatever the server answers, a redirect
  -- included.
  pub fetch_vault-IsSecure :
      {C : Type 0} (p : Primitives) (decoders : Decoders) (runtime : Runtime)
      (upstream : Upstream c C) (builds : HttpClient C → Bool) (options : ClientOptions c C)
      (client : ApiClient c C)
      → KeepsOrigin c
      → RespectsPolicy upstream
      → AreSecure c options.endpoints
      → with_options c builds options ≡ ok client
      → All
          (IsSecure c)
          (contacted c upstream client.http (fetch_vault c p decoders runtime upstream client).1)
  unfolding http_client_from
  fetch_vault-IsSecure p decoders runtime upstream builds options client keeps respects secure
        built =
      let (_, _, same) = with_options-fields c builds options client built in
      client-IsSecure p decoders runtime upstream client keeps respects
        (ap (λ (k : ApiClient c _). k.http.redirect_policy) (sym same))
        (subst (λ (k : ApiClient c _). AreSecure c k.endpoints) same secure)
