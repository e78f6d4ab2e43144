-- ===== src/Auth/Bearer.antt =====
-- Which headers carry a token.
use vaultwarden_eso_provider.Prelude.{
  ◌≡◌, ◌≢◌, ◌↔◌, true, false, Option, none, some, List, [], ◌∷◌, ◌++◌, arith, Option-cases, inl,
  inr, any,
}
use vaultwarden_eso_provider.Text.{
  Text, codes, split_once, eq_ignore_ascii_case, is_ascii_whitespace,
}
use vaultwarden_eso_provider.Text.Splitting.{Avoids, split_once_sound, split_once_complete}
use vaultwarden_eso_provider.Auth.{bearer_token, bearer_from}

-- One authorization header, with the scheme `Bearer`, a space and the token.
pub record Carries (headers : List (Option Text)) (token : Text) : Type 0 where
  pub scheme : Text
  pub whole : headers ≡ some (scheme ++ b' ' ∷ token) ∷ []
  pub no_space : Avoids b' ' scheme
  pub is_bearer : eq_ignore_ascii_case scheme (codes "Bearer") ≡ true
  pub some_token : token ≢ []
  pub solid : any is_ascii_whitespace token ≡ false

bearer_from_sound :
    (scheme token t : Text)
    → bearer_from (scheme, token) ≡ some t
    → (token ≡ t)
      × (eq_ignore_ascii_case scheme (codes "Bearer") ≡ true)
      × (token ≢ [])
      × (any is_ascii_whitespace token ≡ false)
unfolding bearer_from
bearer_from_sound scheme token t h = ground arith

none_differs : {t : Text} → ◌≡◌ {A = Option Text} none (some t) → ⊥
none_differs h = cc

bearer_token_sound :
    (headers : List (Option Text)) (token : Text)
    → bearer_token headers ≡ some token
    → Carries headers token
unfolding bearer_token
bearer_token_sound [] token h = cc
bearer_token_sound (none ∷ headers) token h = cc
bearer_token_sound (some raw ∷ other ∷ headers) token h = cc
bearer_token_sound (some raw ∷ []) token h = elim (Option-cases (split_once b' ' raw)) [
  | inl unsplit ↦ absurd (none_differs (rw unsplit at h))
  | inr ((scheme, t), e) ↦
      let (same, bearer, some_token, solid) = bearer_from_sound scheme t token (rw e at h) in
      let (whole, no_space) = split_once_sound b' ' raw scheme t e in
      record {
        scheme = scheme;
        whole = ground arith;
        no_space = no_space;
        is_bearer = bearer;
        some_token = rw (← same) some_token;
        solid = rw (← same) solid;
      }
]

bearer_token_complete :
    (headers : List (Option Text)) (token : Text)
    → Carries headers token
    → bearer_token headers ≡ some token
unfolding bearer_token bearer_from
bearer_token_complete headers token c =
    rw (c.whole, split_once_complete b' ' c.scheme token c.no_space) (ground arith)

-- A request carries a token exactly when it has one authorization header, and this is a scheme
-- that is `Bearer` up to case, a space, and the token, which is not empty and has no white space.
pub bearer_token_iff :
    (headers : List (Option Text)) (token : Text)
    → (bearer_token headers ≡ some token) ↔ Carries headers token
bearer_token_iff headers token =
    (bearer_token_sound headers token, bearer_token_complete headers token)
