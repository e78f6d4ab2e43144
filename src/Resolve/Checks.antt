-- ===== src/Resolve/Checks.antt =====
-- What a request passes before the provider is asked, and what it leaves.
use vaultwarden_eso_provider.Prelude.{
  ℕ, String, ◌≡◌, ◌⊎◌, true, false, Option, some, [], ◌∷◌, Result, ok, err, refl, sym, subst, ◌∙◌,
  inl, inr, Bool-cases, Option-cases,
}
use vaultwarden_eso_provider.Utf8.{Bytes}
use vaultwarden_eso_provider.Primitives.{Primitives}
use vaultwarden_eso_provider.Core.{RemoteRef, SecretDocument}
use vaultwarden_eso_provider.Errors.{ClientError}
use vaultwarden_eso_provider.Selector.{Selector, selector_from}
use vaultwarden_eso_provider.Policy.{allows}
use vaultwarden_eso_provider.Auth.{AuthorizedScope, authorize, scope_allows}
use vaultwarden_eso_provider.Resolve.{
  AppState, ResolveHttpRequest, Answered, Recorded, Decoded, decoded, refused, timed_out,
  is_exhausted, refuse, answer_with, resolve_selector, resolve_decoded, resolve_authorized, resolve,
  decode_resolve_request,
}
use vaultwarden_eso_provider.Resolve.Messages.{public_error_message, provider_status_and_kind}

module _ {S : Type 0} (provider : Selector → S → Result ClientError SecretDocument × S)
    (state : AppState) where
  -- The request passed every check, in this order, and got what the provider answers.
  pub record IsAsked (p : Primitives) (from_slice : Bytes → Option RemoteRef)
      (request : ResolveHttpRequest) (s : S) (a : Answered S) : Type 0 where
    pub auth_scope : AuthorizedScope
    pub authorized : authorize p state.auth request.authorization ≡ some auth_scope
    pub remote_ref : RemoteRef
    pub read : decode_resolve_request from_slice request ≡ decoded remote_ref
    pub admitted : is_exhausted state.permits ≡ false
    pub selector : Selector
    pub validated : selector_from remote_ref ≡ ok selector
    pub allowed : allows state.selector_policy selector.key ≡ true
    pub in_scope : scope_allows auth_scope selector.key ≡ true
    pub asked : a ≡ answer_with (provider selector s)

  -- The request was refused, and the provider was not asked.
  abbrev pub IsRefused : S → Answered S → Type 0
  IsRefused s a = (status : ℕ) × (kind : String) × (a ≡ refuse s (status, kind))

  selector_cases :
      (auth_scope : AuthorizedScope) (s : S) (r : Result ClientError Selector)
      → ((selector : Selector) × (r ≡ ok selector)
          × (allows state.selector_policy selector.key ≡ true)
          × (scope_allows auth_scope selector.key ≡ true)
          × (resolve_selector provider state auth_scope s r ≡ answer_with (provider selector s)))
        ⊎ IsRefused s (resolve_selector provider state auth_scope s r)
  unfolding resolve_selector
  selector_cases auth_scope s (err error) =
      inr ((provider_status_and_kind error).0, (provider_status_and_kind error).1, refl)
  selector_cases auth_scope s (ok selector) =
      elim (Bool-cases (allows state.selector_policy selector.key)) [
        | inr denied ↦ inr (403, "policy_denied", rw denied)
        | inl allowed ↦ elim (Bool-cases (scope_allows auth_scope selector.key)) [
          | inr outside ↦ inr (403, "policy_denied", rw (allowed, outside))
          | inl inside ↦ inl (selector, refl, allowed, inside, rw (allowed, inside))
        ]
      ]

  decoded_cases :
      (auth_scope : AuthorizedScope) (s : S) (d : Decoded)
      → ((remote_ref : RemoteRef) × (d ≡ decoded remote_ref)
          × (is_exhausted state.permits ≡ false)
          × (resolve_decoded provider state auth_scope s d
              ≡ resolve_selector provider state auth_scope s (selector_from remote_ref)))
        ⊎ IsRefused s (resolve_decoded provider state auth_scope s d)
  unfolding resolve_decoded
  decoded_cases auth_scope s timed_out = inr (408, "request_timeout", refl)
  decoded_cases auth_scope s (refused status) = inr (status, "validation", refl)
  decoded_cases auth_scope s (decoded remote_ref) = elim (Bool-cases (is_exhausted state.permits)) [
    | inl exhausted ↦ inr (503, "overloaded", rw exhausted)
    | inr admitted ↦ inl (remote_ref, refl, admitted, rw admitted)
  ]

  -- A request either gets the answer of the provider, after it was authenticated, its body was read
  -- and admitted, its selector validated, and its key allowed by the policy and by the scope of its
  -- token; or it is refused, and the state of the provider is untouched.
  pub resolve_cases :
      (p : Primitives) (from_slice : Bytes → Option RemoteRef) (request : ResolveHttpRequest)
      (s : S)
      → IsAsked p from_slice request s (resolve provider state p from_slice request s)
        ⊎ IsRefused s (resolve provider state p from_slice request s)
  unfolding resolve resolve_authorized
  resolve_cases p from_slice request s =
      elim (Option-cases (authorize p state.auth request.authorization)) [
        | inl unknown ↦ inr (401, "auth", rw unknown)
        | inr (auth_scope, authorized) ↦
            elim (decoded_cases auth_scope s (decode_resolve_request from_slice request)) [
              | inr (status, kind, e) ↦ inr (status, kind, rw authorized e)
              | inl (remote_ref, read, admitted, e) ↦
                  elim (selector_cases auth_scope s (selector_from remote_ref)) [
                    | inr (status, kind, e') ↦ inr (status, kind, rw authorized (e ∙ e'))
                    | inl (selector, validated, allowed, in_scope, e') ↦ inl (record {
                      auth_scope = auth_scope;
                      authorized = authorized;
                      remote_ref = remote_ref;
                      read = read;
                      admitted = admitted;
                      selector = selector;
                      validated = validated;
                      allowed = allowed;
                      in_scope = in_scope;
                      asked = rw authorized (e ∙ e');
                    })
                  ]
            ]
      ]

-- An answer and the metric of its request agree.
abbrev pub Agrees : Result (ℕ × String) SecretDocument → Recorded → Type 0
Agrees (ok document) r = (r.status ≡ 200) × (r.outcome ≡ "success") × (r.error_kind ≡ "none")
Agrees (err (status, message)) r =
    (r.status ≡ status) × (r.outcome ≡ "error") × (message ≡ public_error_message r.error_kind)

-- One metric is recorded, and it agrees with the answer.
abbrev pub IsRecorded : {S : Type 0} → Answered S → Type 0
IsRecorded a = (r : Recorded) × (a.recorded ≡ r ∷ []) × Agrees a.answer r

refuse-IsRecorded :
    {S : Type 0} (s : S) (status : ℕ) (kind : String) → IsRecorded (refuse s (status, kind))
unfolding refuse
refuse-IsRecorded s status kind =
    (record { status = status; outcome = "error"; error_kind = kind }, refl, (refl, refl, refl))

answer_with-IsRecorded :
    {S : Type 0} (x : Result ClientError SecretDocument × S) → IsRecorded (answer_with x)
unfolding answer_with
answer_with-IsRecorded (ok document, s) =
    (record { status = 200; outcome = "success"; error_kind = "none" }, refl, (refl, refl, refl))
answer_with-IsRecorded (err error, s) =
    refuse-IsRecorded s (provider_status_and_kind error).0 (provider_status_and_kind error).1

-- Every request leaves exactly one metric, with the status of its answer; on success it is the one
-- of a success, and otherwise the message of the answer is the public one of the recorded kind.
pub resolve-IsRecorded :
    {S : Type 0} (provider : Selector → S → Result ClientError SecretDocument × S)
    (state : AppState) (p : Primitives) (from_slice : Bytes → Option RemoteRef)
    (request : ResolveHttpRequest) (s : S)
    → IsRecorded (resolve provider state p from_slice request s)
resolve-IsRecorded provider state p from_slice request s =
    elim (resolve_cases provider state p from_slice request s) [
      | inl asked ↦
          subst IsRecorded (sym asked.asked) (answer_with-IsRecorded (provider asked.selector s))
      | inr (status, kind, e) ↦ subst IsRecorded (sym e) (refuse-IsRecorded s status kind)
    ]
