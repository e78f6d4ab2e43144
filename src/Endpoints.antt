-- ===== src/Endpoints.antt =====
-- The endpoints of crates/bweso-bitwarden/src/lib.rs, and `endpoint_url` of src/api.rs; URLs are those
-- of the `url` crate.
pub mod Security
use vaultwarden_eso_provider.Prelude.{
  ℕ, String, Bool, true, false, not, ◌&&◌, ◌||◌, Option, none, some, List, [], ◌∷◌, ◌++◌, ◌≡◌,
  Result, ok, err, ◌>>=◌, ◌>>◌, map_err, ok_or, bail_if, unwrap_or, ◌==◌, if◌then◌else◌,
}
use vaultwarden_eso_provider.Text.{Text, codes, text_eq, trim_start_matches, trim_end_matches}
use vaultwarden_eso_provider.Core.{require_non_empty}
use vaultwarden_eso_provider.Errors.{
  ClientError, ApiError, validation, invalid_endpoint, insecure_endpoint, invalid_base_url,
}

-- `url::Url`, with the functions that the program calls.
pub record UrlCrate : Type 1 where
  pub Url : Type 0
  -- `Url::parse`; `none` is its `Err`.
  pub parse_url : Text → Option Url
  pub scheme : Url → Text
  pub host_str : Url → Option Text
  pub url_path : Url → Text
  pub url_query : Url → Option Text
  pub port_or_known_default : Url → Option ℕ
  -- `set_query(None)`, `set_fragment(None)`, `set_path(path)`.
  pub clear_query : Url → Url
  pub clear_fragment : Url → Url
  pub set_path : Text → Url → Url
  -- Whether `path_segments_mut` returns the segments; its `pop_if_empty` and `push`.
  pub is_base : Url → Bool
  pub pop_if_empty : Url → Url
  pub push_segment : Text → Url → Url
  -- `query_pairs_mut().append_pair(name, value)`.
  pub append_pair : Text → Text → Url → Url

-- `str::trim_matches` with one character.
abbrev pub trim_matches : ℕ → Text → Text
trim_matches c s = trim_end_matches (λ d. d == c) (trim_start_matches (λ d. d == c) s)

abbrev pub is_localhost : Text → Bool
is_localhost host =
    text_eq host (codes "localhost")
    || text_eq host (codes "127.0.0.1")
    || text_eq host (codes "::1")

module _ (c : UrlCrate) where
  pub record BitwardenEndpoints : Type 0 where
    pub identity_url : c.Url
    pub api_url : c.Url

  -- Whether the transport of a URL is refused.
  unfoldable pub is_insecure : c.Url → Bool
  is_insecure url =
      not (text_eq (c.scheme url) (codes "https"))
      && not (text_eq (c.scheme url) (codes "http") && is_localhost (unwrap_or [] (c.host_str url)))

  -- `BitwardenEndpoint::parse_named`; an endpoint is its URL.
  unfoldable pub parse_named : Text → String → Result ClientError c.Url
  unfolding is_insecure
  parse_named raw field_name = do
    map_err validation (require_non_empty raw field_name)
    base_url ← ok_or invalid_endpoint (c.parse_url raw)
    bail_if (is_insecure base_url) insecure_endpoint
    ok base_url

  -- `BitwardenEndpoint::parse`.
  unfoldable pub parse_endpoint : Text → Result ClientError c.Url
  unfolding parse_named
  parse_endpoint raw = parse_named raw "single_origin_url"

  -- The loop that pushes the segments.
  unfoldable pub push_all : Text → List Text → Text
  push_all path [] = path
  push_all path (segment ∷ segments) = push_all (path ++ b'/' ∷ trim_matches b'/' segment) segments

  unfoldable pub append_path_segments : c.Url → List Text → c.Url
  unfolding push_all
  append_path_segments base_url segments =
      let url = c.clear_fragment (c.clear_query base_url) in
      c.set_path (push_all (trim_end_matches (λ d. d == b'/') (c.url_path url)) segments) url

  unfoldable pub normalize_endpoint_base : c.Url → c.Url
  unfolding append_path_segments
  normalize_endpoint_base base_url = append_path_segments base_url []

  -- `BitwardenEndpoints::from_single_origin`.
  unfoldable pub from_single_origin : c.Url → BitwardenEndpoints
  unfolding append_path_segments
  from_single_origin base_url = record {
    identity_url = append_path_segments base_url (codes "identity" ∷ []);
    api_url = append_path_segments base_url (codes "api" ∷ []);
  }

  -- `BitwardenEndpoints::parse_split`.
  unfoldable pub parse_split : Text → Text → Result ClientError BitwardenEndpoints
  unfolding parse_named normalize_endpoint_base
  parse_split identity_url api_url = do
    identity ← parse_named identity_url "identity_url"
    api ← parse_named api_url "api_url"
    ok (record {
      identity_url = normalize_endpoint_base identity;
      api_url = normalize_endpoint_base api;
    })

  -- The loop over the segments of `endpoint_url`.
  unfoldable pub push_segments : List Text → c.Url → c.Url
  push_segments [] url = url
  push_segments (segment ∷ segments) url = push_segments segments (c.push_segment segment url)

  -- `BitwardenApiClient::endpoint_url`.
  unfoldable pub endpoint_url : c.Url → List Text → Result ApiError c.Url
  unfolding push_segments
  endpoint_url base_url segments =
      let url = c.clear_fragment (c.clear_query base_url) in
      do
        bail_if (not (c.is_base url)) invalid_base_url
        ok (push_segments segments (c.pop_if_empty url))
