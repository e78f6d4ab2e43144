-- ===== src/Endpoints/Security.antt =====
-- Every URL that the endpoints lead to uses HTTPS, or HTTP on the local host.
use vaultwarden_eso_provider.Prelude.{
  ◌≡◌, ◌↔◌, ◌⊎◌, inl, inr, ap, true, false, Option, none, some, List, [], ◌∷◌, ok, arith, >>=-eq-ok,
  ok_injective, map_err, map_err-eq-ok, ok_or, String, bail_if, bail_if-eq-ok, ok_or-eq-ok,
  Bool-cases, subst, not, unwrap_or,
}
use vaultwarden_eso_provider.Text.{Text, codes, text_eq}
use vaultwarden_eso_provider.Text.Laws.{text_eq_iff}
use vaultwarden_eso_provider.Core.{require_non_empty, is_blank, empty_field}
use vaultwarden_eso_provider.Errors.{
  validation, invalid_endpoint, insecure_endpoint, invalid_base_url,
}
use vaultwarden_eso_provider.Endpoints.{
  UrlCrate, BitwardenEndpoints, is_localhost, is_insecure, parse_named, append_path_segments,
  normalize_endpoint_base, from_single_origin, parse_split, push_segments, endpoint_url,
}

-- One of the names of the local host.
abbrev pub IsLocal : Option Text → Type 0
IsLocal host =
    (host ≡ some (codes "localhost"))
    ⊎ ((host ≡ some (codes "127.0.0.1")) ⊎ (host ≡ some (codes "::1")))

is_localhost_sound : (host : Option Text) → is_localhost (unwrap_or [] host) ≡ true → IsLocal host
unfolding text_eq
is_localhost_sound none h = cc
is_localhost_sound (some host) h = elim (Bool-cases (text_eq host (codes "localhost"))) [
  | inl first ↦ inl (ap some ((text_eq_iff host (codes "localhost")).0 first))
  | inr other ↦ elim (Bool-cases (text_eq host (codes "127.0.0.1"))) [
    | inl second ↦ inr (inl (ap some ((text_eq_iff host (codes "127.0.0.1")).0 second)))
    | inr neither ↦
        inr (inr (ap some ((text_eq_iff host (codes "::1")).0 (rw (other, neither) at h))))
  ]
]

is_localhost_complete :
    (host : Option Text) → IsLocal host → is_localhost (unwrap_or [] host) ≡ true
unfolding text_eq
is_localhost_complete host (inl e) = rw e
is_localhost_complete host (inr (inl e)) = rw e
is_localhost_complete host (inr (inr e)) = rw e

module _ (c : UrlCrate) where
  -- HTTPS, or HTTP on one of the names of the local host.
  abbrev pub IsSecure : c.Url → Type 0
  IsSecure url =
      (c.scheme url ≡ codes "https") ⊎ ((c.scheme url ≡ codes "http") × IsLocal (c.host_str url))

  -- What the methods of a URL that write its path, query and fragment keep.
  abbrev pub SameOrigin : c.Url → c.Url → Type 0
  SameOrigin url url' = (c.scheme url ≡ c.scheme url') × (c.host_str url ≡ c.host_str url')

  pub record KeepsOrigin : Type 0 where
    pub clear_query : (url : c.Url) → SameOrigin (c.clear_query url) url
    pub clear_fragment : (url : c.Url) → SameOrigin (c.clear_fragment url) url
    pub set_path : (path : Text) (url : c.Url) → SameOrigin (c.set_path path url) url
    pub pop_if_empty : (url : c.Url) → SameOrigin (c.pop_if_empty url) url
    pub push_segment : (segment : Text) (url : c.Url) → SameOrigin (c.push_segment segment url) url
    pub append_pair :
        (name value : Text) (url : c.Url) → SameOrigin (c.append_pair name value url) url

  pub SameOrigin-IsSecure : (url url' : c.Url) → SameOrigin url url' → IsSecure url' → IsSecure url
  SameOrigin-IsSecure url url' (same_scheme, same_host) secure = rw (same_scheme, same_host) secure

  is_insecure-IsSecure : (url : c.Url) → is_insecure c url ≡ false → IsSecure url
  unfolding is_insecure
  is_insecure-IsSecure url h = elim (Bool-cases (text_eq (c.scheme url) (codes "https"))) [
    | inl secure ↦ inl ((text_eq_iff (c.scheme url) (codes "https")).0 secure)
    | inr other ↦
        let plain : text_eq (c.scheme url) (codes "http") ≡ true = ground arith in
        let near : is_localhost (unwrap_or [] (c.host_str url)) ≡ true = ground arith in
        inr (
          (text_eq_iff (c.scheme url) (codes "http")).0 plain,
          is_localhost_sound (c.host_str url) near,
        )
  ]

  IsSecure-is_insecure : (url : c.Url) → IsSecure url → is_insecure c url ≡ false
  unfolding is_insecure text_eq
  IsSecure-is_insecure url (inl e) = rw e
  IsSecure-is_insecure url (inr (e, near)) = rw (e, is_localhost_complete (c.host_str url) near)

  -- A text is accepted as an endpoint, with a given URL, exactly when it is not blank, is parsed as
  -- that URL, and the URL has HTTPS, or HTTP with a name of the local host.
  pub parse_named_iff :
      (raw : Text) (field_name : String) (url : c.Url)
      → (parse_named c raw field_name ≡ ok url)
        ↔ ((is_blank raw ≡ false) × (c.parse_url raw ≡ some url) × IsSecure url)
  unfolding parse_named require_non_empty
  parse_named_iff raw field_name url = (
    λ h.
        let (_, e₁, h₁) = >>=-eq-ok (map_err validation (require_non_empty raw field_name)) _ h in
        let (base_url, e₂, h₂) = >>=-eq-ok (ok_or invalid_endpoint (c.parse_url raw)) _ h₁ in
        let (_, e₃, h₃) = >>=-eq-ok (bail_if (is_insecure c base_url) insecure_endpoint) _ h₂ in
        subst (λ u. (is_blank raw ≡ false) × (c.parse_url raw ≡ some u) × IsSecure u)
          (ok_injective h₃)
          (
            bail_if-eq-ok (is_blank raw) (empty_field field_name) (map_err-eq-ok validation _ e₁),
            ok_or-eq-ok invalid_endpoint (c.parse_url raw) e₂,
            is_insecure-IsSecure base_url
                (bail_if-eq-ok (is_insecure c base_url) insecure_endpoint e₃),
          ),
    λ (solid, parsed, secure). rw (solid, parsed, IsSecure-is_insecure url secure),
  )

  abbrev pub AreSecure : BitwardenEndpoints c → Type 0
  AreSecure endpoints = IsSecure endpoints.identity_url × IsSecure endpoints.api_url

  module _ (keeps : KeepsOrigin) where
    cleared-IsSecure :
        (url : c.Url) → IsSecure url → IsSecure (c.clear_fragment (c.clear_query url))
    cleared-IsSecure url secure =
        SameOrigin-IsSecure (c.clear_fragment (c.clear_query url)) (c.clear_query url)
          (keeps.clear_fragment (c.clear_query url))
          (SameOrigin-IsSecure (c.clear_query url) url (keeps.clear_query url) secure)

    append_path_segments-IsSecure :
        (url : c.Url) (segments : List Text)
        → IsSecure url
        → IsSecure (append_path_segments c url segments)
    unfolding append_path_segments
    append_path_segments-IsSecure url segments secure =
        SameOrigin-IsSecure _ _ (keeps.set_path _ _) (cleared-IsSecure url secure)

    pub from_single_origin-AreSecure :
        (url : c.Url) → IsSecure url → AreSecure (from_single_origin c url)
    unfolding from_single_origin
    from_single_origin-AreSecure url secure = (
      append_path_segments-IsSecure url (codes "identity" ∷ []) secure,
      append_path_segments-IsSecure url (codes "api" ∷ []) secure,
    )

    pub parse_split-AreSecure :
        (identity_url api_url : Text) (endpoints : BitwardenEndpoints c)
        → parse_split c identity_url api_url ≡ ok endpoints
        → AreSecure endpoints
    unfolding parse_split normalize_endpoint_base
    parse_split-AreSecure identity_url api_url endpoints h =
        let (identity, e₁, h₁) = >>=-eq-ok (parse_named c identity_url "identity_url") _ h in
        let (api, e₂, h₂) = >>=-eq-ok (parse_named c api_url "api_url") _ h₁ in
        let (_, _, secure_identity) = (parse_named_iff identity_url "identity_url" identity).0 e₁ in
        let (_, _, secure_api) = (parse_named_iff api_url "api_url" api).0 e₂ in
        subst AreSecure (ok_injective h₂) (
          append_path_segments-IsSecure identity [] secure_identity,
          append_path_segments-IsSecure api [] secure_api,
        )

    push_segments-IsSecure :
        (segments : List Text) (url : c.Url)
        → IsSecure url
        → IsSecure (push_segments c segments url)
    unfolding push_segments
    push_segments-IsSecure [] url secure = secure
    push_segments-IsSecure (segment ∷ segments) url secure =
        push_segments-IsSecure segments (c.push_segment segment url) (
          SameOrigin-IsSecure (c.push_segment segment url) url (keeps.push_segment segment url)
            secure)

    pub endpoint_url-IsSecure :
        (base_url url : c.Url) (segments : List Text)
        → IsSecure base_url
        → endpoint_url c base_url segments ≡ ok url
        → IsSecure url
    unfolding endpoint_url
    endpoint_url-IsSecure base_url url segments secure h =
        let cleared = c.clear_fragment (c.clear_query base_url) in
        let (_, _, h₁) = >>=-eq-ok (bail_if (not (c.is_base cleared)) invalid_base_url) _ h in
        subst IsSecure (ok_injective h₁) (
          push_segments-IsSecure segments (c.pop_if_empty cleared) (
            SameOrigin-IsSecure (c.pop_if_empty cleared) cleared (keeps.pop_if_empty cleared)
              (cleared-IsSecure base_url secure)))
