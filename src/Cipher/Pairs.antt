-- ===== src/Cipher/Pairs.antt =====
-- The name and value pairs that an item offers to a document, and the conventional ones in it.
use vaultwarden_eso_provider.Prelude.{
  ◌≡◌, ◌≢◌, refl, String, Option, none, some, List, [], ◌∷◌, ◌++◌, arith, if◌then◌else◌, or_else,
  All,
}
use vaultwarden_eso_provider.Text.{Text, codes, text_eq}
use vaultwarden_eso_provider.Text.Laws.{text_eq_iff, text_cmp_iff}
use vaultwarden_eso_provider.TreeMap.{text_ord, get, get-insert}
use vaultwarden_eso_provider.Core.{SecretDocument, is_blank}
use vaultwarden_eso_provider.Cipher.{
  DecryptedCipher, DecryptedField, DecryptedLogin, DecryptedSshKey,
}
use vaultwarden_eso_provider.Cipher.Extraction.{
  insert_optional, insert_login, insert_ssh_key, conventional,
}

abbrev pub Pairs : Type 0
Pairs = List (Text × Text)

-- The value at the first pair with the key.
unfoldable pub lookup : Pairs → Text → Option Text
lookup [] k = none
lookup ((j, v) ∷ ps) k = if text_eq j k then some v else lookup ps k

-- No two pairs have one key.
abbrev pub Distinct : Pairs → Type 0
Distinct [] = Unit
Distinct ((k, v) ∷ ps) = All (λ q. q.0 ≢ k) ps × Distinct ps

abbrev pub optional_pair : String → Option Text → Pairs
optional_pair key none = []
optional_pair key (some value) = (codes key, value) ∷ []

abbrev pub login_pairs : Option DecryptedLogin → Pairs
login_pairs none = []
login_pairs (some login) =
    optional_pair "totp" login.totp
    ++ (optional_pair "password" login.password ++ optional_pair "username" login.username)

abbrev pub ssh_key_pairs : Option DecryptedSshKey → Pairs
ssh_key_pairs none = []
ssh_key_pairs (some ssh_key) =
    optional_pair "keyFingerprint" ssh_key.key_fingerprint
    ++ (optional_pair "publicKey" ssh_key.public_key
        ++ optional_pair "privateKey" ssh_key.private_key)

-- The values that an item has under the conventional names.
abbrev pub conventional_pairs : DecryptedCipher → Pairs
conventional_pairs c =
    ssh_key_pairs c.ssh_key ++ (login_pairs c.login ++ optional_pair "notes" c.notes)

abbrev pub field_pair : Option Text → Option Text → Pairs
field_pair none value = []
field_pair (some name) none = []
field_pair (some name) (some value) = if is_blank name then [] else (name, value) ∷ []

-- The custom fields that have a value and a name that is not blank.
abbrev pub field_pairs : List DecryptedField → Pairs
field_pairs [] = []
field_pairs (field ∷ fields) = field_pair field.name field.value ++ field_pairs fields

pub lookup-append :
    (ps qs : Pairs) (k : Text) → lookup (ps ++ qs) k ≡ or_else (lookup ps k) (lookup qs k)
unfolding lookup
lookup-append [] qs k = refl
lookup-append ((j, v) ∷ ps) qs k = ground (arith, lookup-append ps qs k)

get-insert_optional :
    (d : SecretDocument) (key : String) (o : Option Text) (k : Text)
    → get (insert_optional d key o).entries k
      ≡ or_else (lookup (optional_pair key o) k) (get d.entries k)
unfolding insert_optional lookup
get-insert_optional d key none k = refl
get-insert_optional d key (some v) k = ground (
  arith,
  get-insert (codes key) k v d.entries,
  text_cmp_iff k (codes key),
  text_eq_iff (codes key) k,
)

or_else_assoc : (a b c : Option Text) → or_else a (or_else b c) ≡ or_else (or_else a b) c
or_else_assoc none b c = refl
or_else_assoc (some a) b c = refl

get-insert_login :
    (d : SecretDocument) (o : Option DecryptedLogin) (k : Text)
    → get (insert_login d o).entries k ≡ or_else (lookup (login_pairs o) k) (get d.entries k)
unfolding insert_login
get-insert_login d none k = unfold lookup in refl
get-insert_login d (some login) k = simp (get-insert_optional, lookup-append, or_else_assoc)

get-insert_ssh_key :
    (d : SecretDocument) (o : Option DecryptedSshKey) (k : Text)
    → get (insert_ssh_key d o).entries k ≡ or_else (lookup (ssh_key_pairs o) k) (get d.entries k)
unfolding insert_ssh_key
get-insert_ssh_key d none k = unfold lookup in refl
get-insert_ssh_key d (some ssh_key) k = simp (get-insert_optional, lookup-append, or_else_assoc)

pub or_else-none : (a : Option Text) → or_else a none ≡ a
or_else-none none = refl
or_else-none (some a) = refl

pub get-conventional :
    (c : DecryptedCipher) (k : Text)
    → get (conventional c).entries k ≡ lookup (conventional_pairs c) k
unfolding conventional
get-conventional c k =
    simp (get-insert_ssh_key, get-insert_login, get-insert_optional, lookup-append)
      (unfold get in simp or_else-none)

metadata-insert_optional :
    (d : SecretDocument) (key : String) (o : Option Text)
    → (insert_optional d key o).metadata ≡ d.metadata
unfolding insert_optional
metadata-insert_optional d key none = refl
metadata-insert_optional d key (some v) = refl

metadata-insert_login :
    (d : SecretDocument) (o : Option DecryptedLogin) → (insert_login d o).metadata ≡ d.metadata
unfolding insert_login
metadata-insert_login d none = refl
metadata-insert_login d (some login) = simp metadata-insert_optional

metadata-insert_ssh_key :
    (d : SecretDocument) (o : Option DecryptedSshKey) → (insert_ssh_key d o).metadata ≡ d.metadata
unfolding insert_ssh_key
metadata-insert_ssh_key d none = refl
metadata-insert_ssh_key d (some ssh_key) = simp metadata-insert_optional

pub metadata-conventional : (c : DecryptedCipher) → (conventional c).metadata ≡ []
unfolding conventional
metadata-conventional c =
    simp (metadata-insert_ssh_key, metadata-insert_login, metadata-insert_optional)
