-- ===== src/Cipher/Property.antt =====
-- `extract_property` at a custom field, and its agreement with the whole document.
use vaultwarden_eso_provider.Prelude.{◌≢◌, none, List, ◌++◌, All}
use vaultwarden_eso_provider.Text.{Text, codes}
use vaultwarden_eso_provider.TreeMap.{text_ord}
use vaultwarden_eso_provider.Cipher.{DecryptedField}
use vaultwarden_eso_provider.Cipher.Pairs.{Pairs}

-- The selector of a custom field.
abbrev pub field_property : Text → Text
field_property n = codes "field." ++ n

-- Every custom field has a value.
abbrev pub HasValues : List DecryptedField → Type 0
HasValues fields = All (λ field. field.value ≢ none) fields
