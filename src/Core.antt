-- ===== src/Core.antt =====
-- crates/bweso-core/src/lib.rs: the shared records and the validation of required fields.
use vaultwarden_eso_provider.Prelude.{String, Bool, Option, [], Result, bail_if, is_empty}
use vaultwarden_eso_provider.Text.{Text, trim}
use vaultwarden_eso_provider.TreeMap.{TreeMap, insert, text_ord}

pub record RemoteRef : Type 0 where
  pub key : Text
  pub property : Option Text
  pub version : Option Text

-- The field `data` of the source is `entries` here.
pub record SecretDocument : Type 0 where
  pub entries : TreeMap Text Text
  pub metadata : TreeMap Text Text

-- `SecretDocument::default`.
abbrev pub empty_document : SecretDocument
empty_document = record { entries = []; metadata = [] }

-- `SecretDocument::single`.
unfoldable pub single : Text → Text → SecretDocument
single key value = record { entries = insert key value []; metadata = [] }

pub data ValidationError : Type 0 where
  empty_field : String → ValidationError

-- Whether a text is empty after trimming.
unfoldable pub is_blank : Text → Bool
is_blank value = is_empty (trim value)

unfoldable pub require_non_empty : Text → String → Result ValidationError (Unit {0})
require_non_empty value field = bail_if (is_blank value) (empty_field field)
