-- ===== src/Tests/Provider.antt =====
-- Witnesses on policies, tokens and requests.
use vaultwarden_eso_provider.Prelude.{
  ℕ, suc, ◌≡◌, ◌≤◌, ◌↔◌, ◌⊎◌, Bool, false, Option, none, some, [], ◌∷◌, Result, ok, err, refl, inl,
}
use vaultwarden_eso_provider.Text.{
  Text, codes, byte_len, trim, is_whitespace, text_eq, lines, split, starts_with, is_ascii_graphic,
}
use vaultwarden_eso_provider.Utf8.{Bytes, as_bytes, from_utf8}
use vaultwarden_eso_provider.Core.{RemoteRef, SecretDocument, is_blank, require_non_empty}
use vaultwarden_eso_provider.Errors.{ClientError, api, cipher_not_found}
use vaultwarden_eso_provider.Selector.{Selector}
use vaultwarden_eso_provider.Policy.{
  Files, PolicyRules, PolicyArgs, SelectorPolicy, PolicyError, allow_list, from_args, reload,
  evaluate, has_file, read_if_some, read_policy_file, normalize_policy_entries, lines_entries,
}
use vaultwarden_eso_provider.Policy.Reload.{IsRestricted, reload_cases}
use vaultwarden_eso_provider.Auth.{
  ScopedAuthRules, scoped, authorize_scoped, digest_of, bearer_token, disabled_insecure,
}
use vaultwarden_eso_provider.Auth.Config.{
  RawAuthPolicy, rules_from, read_capabilities, read_tokens, read_rules, normalize_entries,
  validate_scoped_token,
}
use vaultwarden_eso_provider.Auth.Bearer.{Carries, bearer_token_iff}
use vaultwarden_eso_provider.Auth.Scopes.{Grants, authorize_scoped_iff}
use vaultwarden_eso_provider.Resolve.{AppState, ResolveHttpRequest, whole, resolve}
use vaultwarden_eso_provider.Resolve.Messages.{provider_status_and_kind}
use vaultwarden_eso_provider.Resolve.Statuses.{provider_status_and_kind-not_found}
use vaultwarden_eso_provider.Resolve.Checks.{
  IsAsked, IsRefused, IsRecorded, resolve_cases, resolve-IsRecorded,
}
use vaultwarden_eso_provider.Tests.Samples.{toy}

-- Every path holds one entry.
abbrev pub files : Files
files = λ path. some (codes "id:8")

abbrev pub args : PolicyArgs
args = record {
  allowed_keys = codes " id:7 " ∷ [];
  allowed_key_prefixes = [];
  allowed_keys_file = some (codes "keys");
  allowed_key_prefixes_file = none;
  allow_all_selectors = false;
}

abbrev pub policy : SelectorPolicy
policy = record {
  rules = allow_list (codes "id:7" ∷ codes "id:8" ∷ []) [];
  sources = record {
    inline_keys = codes "id:7" ∷ [];
    inline_key_prefixes = [];
    keys_file = some (codes "keys");
    key_prefixes_file = none;
  };
}

pub policy_started : from_args files args ≡ ok policy
unfolding from_args normalize_policy_entries require_non_empty is_blank trim is_whitespace evaluate
    read_if_some read_policy_file from_utf8 lines lines_entries split starts_with has_file
policy_started = refl

pub policy-IsRestricted : IsRestricted policy
unfolding trim is_whitespace
policy-IsRestricted = (
  (((refl, (λ e. cc)), ((refl, (λ e. cc)), tt)), tt, inl (λ e. cc)),
  (((refl, (λ e. cc)), tt), tt),
)

reload_cases_example :
    ((e : PolicyError)
      → evaluate files policy.sources ≡ err e
      → reload files policy ≡ (err e, policy))
    × ((rules : PolicyRules)
        → evaluate files policy.sources ≡ ok rules
        → (changed : Bool) × (reload files policy ≡ (ok changed, record policy { rules = rules })))
unfolding has_file
reload_cases_example = reload_cases files policy refl

bearer_token_iff_example :
    (bearer_token (some (codes "bearer t") ∷ []) ≡ some (codes "t"))
    ↔ Carries (some (codes "bearer t") ∷ []) (codes "t")
bearer_token_iff_example = bearer_token_iff (some (codes "bearer t") ∷ []) (codes "t")

abbrev token : Text
token = codes "0123456789abcdef0123456789abcdef"

abbrev pub raw_policy : RawAuthPolicy
raw_policy = record {
  version = 1;
  capabilities =
      record {
        name = codes "team";
        tokens = token ∷ [];
        allowed_keys = codes "id:7" ∷ [];
        allowed_key_prefixes = [];
      }
      ∷ [];
}

abbrev pub scoped_rules : ScopedAuthRules
scoped_rules =
    record { tokens = toy.sha256 token ∷ []; selector_rules = allow_list (codes "id:7" ∷ []) [] }
    ∷ []

pub accepted : rules_from toy raw_policy ≡ ok scoped_rules
unfolding rules_from read_capabilities read_tokens read_rules normalize_entries
    validate_scoped_token digest_of as_bytes byte_len trim is_whitespace text_eq is_ascii_graphic
accepted = refl

authorize_scoped_iff_example :
    (authorize_scoped toy scoped_rules token ≡ some (scoped (allow_list (codes "id:7" ∷ []) [])))
    ↔ ((32 ≤ byte_len token)
        × (byte_len token ≤ 4096)
        × Grants scoped_rules (digest_of toy token) (allow_list (codes "id:7" ∷ []) []))
authorize_scoped_iff_example =
    authorize_scoped_iff toy raw_policy scoped_rules token (allow_list (codes "id:7" ∷ []) [])
      accepted

provider_status_and_kind-not_found_example :
    ((provider_status_and_kind (api cipher_not_found)).0 ≡ 404)
    ↔ (api cipher_not_found ≡ api cipher_not_found)
provider_status_and_kind-not_found_example =
    provider_status_and_kind-not_found (api cipher_not_found)

-- A provider that counts its calls.
abbrev pub counting : Selector → ℕ → Result ClientError SecretDocument × ℕ
counting = λ selector n. (err (api cipher_not_found), suc n)

abbrev pub state : AppState
state = record { selector_policy = policy.rules; auth = disabled_insecure; permits = some 1 }

abbrev pub request : ResolveHttpRequest
request = record {
  authorization = [];
  content_type = some (some (codes "application/json"));
  body = whole [];
}

abbrev pub from_slice : Bytes → Option RemoteRef
from_slice = λ body. some (record { key = codes "id:7"; property = none; version = none })

resolve_cases_example :
    IsAsked counting state toy from_slice request 0
      (resolve counting state toy from_slice request 0)
    ⊎ IsRefused counting state 0 (resolve counting state toy from_slice request 0)
resolve_cases_example = resolve_cases counting state toy from_slice request 0

resolve-IsRecorded_example : IsRecorded (resolve counting state toy from_slice request 0)
resolve-IsRecorded_example = resolve-IsRecorded counting state toy from_slice request 0
