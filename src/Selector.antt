-- ===== src/Selector.antt =====
-- `BitwardenSelector` of crates/bweso-bitwarden/src/lib.rs, and `CipherLookup` of src/api.rs.
pub mod Validation
use vaultwarden_eso_provider.Prelude.{
  Bool, true, false, not, Option, none, some, Result, ok, err, ◌>>=◌, ◌>>◌, map_err, bail_if,
  is_some_and, or_else,
}
use vaultwarden_eso_provider.Text.{Text, codes, trim, strip_prefix}
use vaultwarden_eso_provider.Core.{RemoteRef, is_blank, require_non_empty}
use vaultwarden_eso_provider.Errors.{
  ClientError, validation, unsupported_version_selector, unprefixed_selector_key,
}

pub record Selector : Type 0 where
  pub key : Text
  pub property : Option Text

-- The value behind a prefix must not be blank.
unfoldable pub validate_prefixed : Option Text → Result ClientError (Unit {0})
validate_prefixed none = err unprefixed_selector_key
validate_prefixed (some value) = map_err validation (require_non_empty value "remote_ref.key")

unfoldable pub validate_selector_key : Text → Result ClientError (Unit {0})
validate_selector_key key =
    validate_prefixed (or_else (strip_prefix key (codes "id:")) (strip_prefix key (codes "name:")))

unfoldable pub selector_property : Option Text → Result ClientError (Option Text)
selector_property none = ok none
selector_property (some property) = do
  map_err validation (require_non_empty property "remote_ref.property")
  ok (some (trim property))

-- `BitwardenSelector::try_from`.
unfoldable pub selector_from : RemoteRef → Result ClientError Selector
selector_from remote_ref = do
  map_err validation (require_non_empty remote_ref.key "remote_ref.key")
  bail_if (is_some_and remote_ref.version (λ version. not (is_blank version)))
      unsupported_version_selector
  property ← selector_property remote_ref.property
  let key = trim remote_ref.key
  validate_selector_key key
  ok (record { key = key; property = property })

-- What a key names: an item's identifier or its name.
pub data CipherLookup : Type 0 where
  by_id by_name : Text → CipherLookup

unfoldable pub lookup_prefixed : Option Text → Option Text → Result ClientError CipherLookup
lookup_prefixed (some id) name = ok (by_id id)
lookup_prefixed none (some name) = ok (by_name name)
lookup_prefixed none none = err unprefixed_selector_key

-- `CipherLookup::from_key`.
unfoldable pub lookup_from_key : Text → Result ClientError CipherLookup
lookup_from_key key =
    lookup_prefixed (strip_prefix key (codes "id:")) (strip_prefix key (codes "name:"))
