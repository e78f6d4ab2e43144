-- ===== src/Vault/Disclosure.antt =====
-- The item that a lookup by identifier or by name finds.
use mathlib.Core.List.{Memᴰ}
use vaultwarden_eso_provider.Prelude.{
  ◌≡◌, ◌⊎◌, refl, sym, ap, ◌∙◌, Bool, true, false, Option, none, some, List, [], ◌∷◌, arith, ok,
  >>=-eq-ok, map_err, map_err-eq-ok, bail_if, is_some, Bool-cases, inl, inr,
}
use vaultwarden_eso_provider.Text.{Text}
use vaultwarden_eso_provider.Text.Laws.{text_eq_iff}
use vaultwarden_eso_provider.TreeMap.{text_ord}
use vaultwarden_eso_provider.Primitives.{Primitives}
use vaultwarden_eso_provider.Crypto.{AuthenticatedSymmetricKey}
use vaultwarden_eso_provider.Cipher.{EncryptedCipher, DecryptedCipher, decrypt}
use vaultwarden_eso_provider.Cipher.Extraction.{name_is}
use vaultwarden_eso_provider.Errors.{cipher, api, unsupported_shared_item}
use vaultwarden_eso_provider.Selector.{CipherLookup, by_id, by_name}
use vaultwarden_eso_provider.Vault.{
  SyncResponse, find_cipher_by_id, name_result, match_name, scan_names, resolve_synced_cipher_by_id,
  resolve_synced_cipher_by_name, resolve_lookup,
}
use vaultwarden_eso_provider.Vault.ById.{find_cipher_by_id-Mem}
use vaultwarden_eso_provider.Vault.ByName.{scan-deleted, scan-shared, scan-personal}

-- The item answers to the identifier, or its decrypted name to the name.
abbrev pub AnswersTo : EncryptedCipher → DecryptedCipher → CipherLookup → Type 0
AnswersTo c item (by_id id) = c.id ≡ id
AnswersTo c item (by_name name) = item.name ≡ some name

name_is_sound : (name : Text) (o : Option Text) → name_is name o ≡ true → o ≡ some name
unfolding name_is
name_is_sound name none h = cc
name_is_sound name (some other) h = ap some ((text_eq_iff other name).0 h)

match_name-Named :
    (name : Text) (found : Option DecryptedCipher) (d : DecryptedCipher)
    (r : Option DecryptedCipher)
    → match_name name found d ≡ ok r
    → (r ≡ found) ⊎ ((r ≡ some d) × (d.name ≡ some name))
unfolding match_name
match_name-Named name found d r h = elim (Bool-cases (name_is name d.name)) [
  | inr other ↦ inl (ground arith)
  | inl same ↦ elim (Bool-cases (is_some found)) [
    | inl second ↦ absurd (ground arith)
    | inr first ↦ inr (ground arith, name_is_sound name d.name same)
  ]
]

module _ (p : Primitives) (key : AuthenticatedSymmetricKey) where
  -- A live personal item of the vault that the lookup names, and its decryption.
  pub record Discloses (ciphers : List EncryptedCipher) (l : CipherLookup) (item : DecryptedCipher)
      : Type 0 where
    pub source : EncryptedCipher
    pub listed : Memᴰ source ciphers
    pub live : is_some source.deleted_date ≡ false
    pub personal : is_some source.organization_id ≡ false
    pub decrypted : decrypt p source key ≡ ok item
    pub answers : AnswersTo source item l

  tail-Discloses :
      {ciphers : List EncryptedCipher} {l : CipherLookup} {item : DecryptedCipher}
      (c : EncryptedCipher)
      → Discloses ciphers l item
      → Discloses (c ∷ ciphers) l item
  tail-Discloses c d = record {
    source = d.source;
    listed = Memᴰ.tail d.listed;
    live = d.live;
    personal = d.personal;
    decrypted = d.decrypted;
    answers = d.answers;
  }

  name_result-found :
      (found : Option DecryptedCipher) (shared : Bool) {item : DecryptedCipher}
      → name_result found shared ≡ ok item
      → found ≡ some item
  unfolding name_result
  name_result-found none shared h = cc
  name_result-found (some f) shared h = ground arith

  or_tail :
      {A : Type 0} {ciphers : List EncryptedCipher} {l : CipherLookup} {item : DecryptedCipher}
      (c : EncryptedCipher)
      → A ⊎ Discloses ciphers l item
      → A ⊎ Discloses (c ∷ ciphers) l item
  or_tail c (inl a) = inl a
  or_tail c (inr d) = inr (tail-Discloses c d)

  first-Discloses :
      (name : Text) (found : Option DecryptedCipher) (c : EncryptedCipher)
      (ciphers : List EncryptedCipher) (item d : DecryptedCipher) (f : Option DecryptedCipher)
      → is_some c.deleted_date ≡ false
      → is_some c.organization_id ≡ false
      → decrypt p c key ≡ ok d
      → (f ≡ found) ⊎ ((f ≡ some d) × (d.name ≡ some name))
      → (f ≡ some item) ⊎ Discloses ciphers (by_name name) item
      → (found ≡ some item) ⊎ Discloses (c ∷ ciphers) (by_name name) item
  first-Discloses name found c ciphers item d f live personal e m (inr later) =
      inr (tail-Discloses c later)
  first-Discloses name found c ciphers item d f live personal e (inl same) (inl here) =
      inl (sym same ∙ here)
  first-Discloses name found c ciphers item d f live personal e (inr (same, named)) (inl here) =
      let this : d ≡ item = ground arith in
      inr (record {
        source = c;
        listed = Memᴰ.head refl;
        live = live;
        personal = personal;
        decrypted = e ∙ ap ok this;
        answers = ap (λ (x : DecryptedCipher). x.name) (sym this) ∙ named;
      })

  scan-Discloses :
      (name : Text) (found : Option DecryptedCipher) (shared : Bool)
      (ciphers : List EncryptedCipher) (item : DecryptedCipher)
      → scan_names p key name found shared ciphers ≡ ok item
      → (found ≡ some item) ⊎ Discloses ciphers (by_name name) item
  scan-Discloses name found shared [] item h =
      inl (unfold scan_names name_result in name_result-found found shared h)
  scan-Discloses name found shared (c ∷ ciphers) item h =
      elim (Bool-cases (is_some c.deleted_date)) [
        | inl deleted ↦ or_tail c (
            scan-Discloses name found shared ciphers item
              (sym (scan-deleted p key name found shared c ciphers deleted) ∙ h))
        | inr live ↦ elim (Bool-cases (is_some c.organization_id)) [
          | inl other ↦ or_tail c (
              scan-Discloses name found true ciphers item
                (sym (scan-shared p key name found shared c ciphers live other) ∙ h))
          | inr personal ↦
              let (d, e, h₁) =
                >>=-eq-ok (map_err cipher (decrypt p c key)) _
                  (sym (scan-personal p key name found shared c ciphers live personal) ∙ h) in
              let (f, e₁, h₂) = >>=-eq-ok (match_name name found d) _ h₁ in
              first-Discloses name found c ciphers item d f live personal (map_err-eq-ok cipher _ e)
                (match_name-Named name found d f e₁) (scan-Discloses name f shared ciphers item h₂)
        ]
      ]

  pub lookup-Discloses :
      (sync : SyncResponse) (l : CipherLookup) (item : DecryptedCipher)
      → resolve_lookup p key sync l ≡ ok item
      → Discloses sync.ciphers l item
  unfolding resolve_lookup resolve_synced_cipher_by_name resolve_synced_cipher_by_id
  lookup-Discloses sync (by_name name) item h =
      elim (scan-Discloses name none false sync.ciphers item h) [
        | inl no_item ↦ absurd (ground arith)
        | inr d ↦ d
      ]
  lookup-Discloses sync (by_id id) item h =
      let (c, e, h₁) = >>=-eq-ok (map_err api (find_cipher_by_id sync.ciphers id)) _ h in
      let (_, e₁, h₂) =
        >>=-eq-ok (bail_if (is_some c.organization_id) (api unsupported_shared_item)) _ h₁ in
      let (listed, named, live) = find_cipher_by_id-Mem sync.ciphers id c (map_err-eq-ok api _ e) in
      record {
        source = c;
        listed = listed;
        live = ground arith;
        personal = ground arith;
        decrypted = map_err-eq-ok cipher _ h₂;
        answers = named;
      }
