-- ===== src/Vault/ByName.antt =====
-- A name selects an item only where it is the one live personal item of that name, and no item that
-- fails to decrypt is taken for an absent one.
use vaultwarden_eso_provider.Prelude.{
  ◌≡◌, ◌⊎◌, refl, ap, ◌∙◌, Bool, true, false, not, ◌&&◌, ◌||◌, Option, none, some, List, [], ◌∷◌,
  ◌++◌, arith, Result, ok, err, ◌>>=◌, >>=-eq-ok, map_err, any, is_some, Bool-cases, Result-cases,
  inl, inr, if◌then◌else◌,
}
use vaultwarden_eso_provider.Text.{Text}
use vaultwarden_eso_provider.Primitives.{Primitives}
use vaultwarden_eso_provider.Crypto.{AuthenticatedSymmetricKey}
use vaultwarden_eso_provider.Cipher.{
  CipherError, EncryptedCipher, DecryptedCipher, decrypt, traverse,
}
use vaultwarden_eso_provider.Cipher.Extraction.{name_is, filter}
use vaultwarden_eso_provider.Errors.{
  ClientError, cipher_not_found, ambiguous_cipher_name, unsupported_shared_item, cipher, api,
}
use vaultwarden_eso_provider.Vault.{
  SyncResponse, is_live, name_result, match_name, scan_names, resolve_synced_cipher_by_name,
}

abbrev pub is_personal : EncryptedCipher → Bool
is_personal c = is_live c && not (is_some c.organization_id)

abbrev pub is_shared : EncryptedCipher → Bool
is_shared c = is_live c && is_some c.organization_id

abbrev has_name : Text → DecryptedCipher → Bool
has_name name d = name_is name d.name

abbrev to_list : Option DecryptedCipher → List DecryptedCipher
to_list none = []
to_list (some d) = d ∷ []

-- The decision over the items that have the name: there is one, none (are there shared items?), or
-- more than one.
unfoldable pub decide : List DecryptedCipher → Bool → Result ClientError DecryptedCipher
decide [] shared = err (api (if shared then unsupported_shared_item else cipher_not_found))
decide (d ∷ []) shared = ok d
decide (d ∷ d' ∷ rest) shared = err (api ambiguous_cipher_name)

decide-name_result :
    (found : Option DecryptedCipher) (shared : Bool)
    → name_result found shared ≡ decide (to_list found) shared
unfolding name_result decide
decide-name_result none shared = refl
decide-name_result (some d) shared = refl

module _ (p : Primitives) (key : AuthenticatedSymmetricKey) (name : Text) where
  -- The live personal items, decrypted in order up to the first failure.
  abbrev pub decrypt_personal : List EncryptedCipher → Result CipherError (List DecryptedCipher)
  decrypt_personal ciphers = traverse (λ c. decrypt p c key) (filter is_personal ciphers)

  abbrev pub named : List DecryptedCipher → List DecryptedCipher
  named items = filter (λ d. name_is name d.name) items

  abbrev pub scan :
      Option DecryptedCipher → Bool → List EncryptedCipher → Result ClientError DecryptedCipher
  scan = scan_names p key name

  -- One decrypted item in front, where the rest of the scan follows the decision.
  scan_match :
      (found : Option DecryptedCipher) (shared : Bool) (ciphers : List EncryptedCipher)
      (d : DecryptedCipher) (items : List DecryptedCipher) (all_shared : Bool)
      → ((f : Option DecryptedCipher)
          → scan f shared ciphers ≡ decide (to_list f ++ named items) all_shared)
      → (match_name name found d >>= λ f. scan f shared ciphers)
        ≡ decide (to_list found ++ named (d ∷ items)) all_shared
  unfolding match_name filter
  scan_match none shared ciphers d items all_shared ih = elim (Bool-cases (name_is name d.name)) [
    | inl same ↦ rw same (ih (some d))
    | inr other ↦ rw other (ih none)
  ]
  scan_match (some f) shared ciphers d items all_shared ih =
      elim (Bool-cases (name_is name d.name)) [
        | inl same ↦ rw same (unfold decide in refl)
        | inr other ↦ rw other (ih (some f))
      ]

  module _ (found : Option DecryptedCipher) (shared : Bool) (c : EncryptedCipher)
      (ciphers : List EncryptedCipher) where
    pub scan-deleted :
        is_some c.deleted_date ≡ true → scan found shared (c ∷ ciphers) ≡ scan found shared ciphers
    unfolding scan_names
    scan-deleted h = rw (h, scan_names)

    pub scan-shared :
        is_some c.deleted_date ≡ false
        → is_some c.organization_id ≡ true
        → scan found shared (c ∷ ciphers) ≡ scan found true ciphers
    unfolding scan_names
    scan-shared h k = rw (h, k, scan_names)

    pub scan-personal :
        is_some c.deleted_date ≡ false
        → is_some c.organization_id ≡ false
        → scan found shared (c ∷ ciphers) ≡ (
            map_err cipher (decrypt p c key) >>= λ d.
            match_name name found d >>= λ f. scan f shared ciphers)
    unfolding scan_names
    scan-personal h k = rw (h, k, scan_names)

  scan-nil :
      (found : Option DecryptedCipher) (shared : Bool)
      → scan found shared [] ≡ decide (to_list found ++ []) (shared || false)
  unfolding scan_names name_result decide
  scan-nil none shared = ground arith
  scan-nil (some d) shared = refl

  or-true : (b : Bool) → (b || true) ≡ true
  or-true b = ground arith

  scan-decide :
      (found : Option DecryptedCipher) (shared : Bool) (ciphers : List EncryptedCipher)
      (items : List DecryptedCipher)
      → decrypt_personal ciphers ≡ ok items
      → scan found shared ciphers
        ≡ decide (to_list found ++ named items) (shared || any is_shared ciphers)
  unfolding filter traverse
  scan-decide found shared [] items h =
      let none_left : items ≡ [] = ground arith in rw none_left (scan-nil found shared)
  scan-decide found shared (c ∷ ciphers) items h = elim (Bool-cases (is_some c.deleted_date)) [
    | inl deleted ↦
        rw (scan-deleted found shared c ciphers deleted, deleted)
          (scan-decide found shared ciphers items (rw deleted at h))
    | inr live ↦ elim (Bool-cases (is_some c.organization_id)) [
      | inl other ↦
          rw (scan-shared found shared c ciphers live other, live, other, or-true shared)
            (scan-decide found true ciphers items (rw (live, other) at h))
      | inr personal ↦
          let (b, e, h₁) = >>=-eq-ok (decrypt p c key) _ (rw (live, personal) at h) in
          let (bs, es, h₂) = >>=-eq-ok (decrypt_personal ciphers) _ h₁ in
          let same : b ∷ bs ≡ items = ground arith in
          rw (scan-personal found shared c ciphers live personal, e, live, personal, ← same)
            (scan_match found shared ciphers b bs (shared || any is_shared ciphers)
              (λ f. scan-decide f shared ciphers bs es))
    ]
  ]

  -- A failure to decrypt that the scan meets, or a second match in front of it.
  abbrev pub Fails : Result ClientError DecryptedCipher → CipherError → Type 0
  Fails r e = (r ≡ err (cipher e)) ⊎ (r ≡ err (api ambiguous_cipher_name))

  match-Fails :
      (found : Option DecryptedCipher) (shared : Bool) (ciphers : List EncryptedCipher)
      (d : DecryptedCipher) (e : CipherError)
      → ((f : Option DecryptedCipher) → Fails (scan f shared ciphers) e)
      → Fails (match_name name found d >>= λ f. scan f shared ciphers) e
  unfolding match_name
  match-Fails none shared ciphers d e ih = elim (Bool-cases (name_is name d.name)) [
    | inl same ↦ rw same (ih (some d))
    | inr other ↦ rw other (ih none)
  ]
  match-Fails (some f) shared ciphers d e ih = elim (Bool-cases (name_is name d.name)) [
    | inl same ↦ rw same (inr refl)
    | inr other ↦ rw other (ih (some f))
  ]

  first-Fails :
      (found : Option DecryptedCipher) (shared : Bool) (c : EncryptedCipher)
      (ciphers : List EncryptedCipher) (e : CipherError)
      → (do d ← decrypt p c key; ds ← decrypt_personal ciphers; ok (d ∷ ds)) ≡ err e
      → ((f : Option DecryptedCipher)
          → decrypt_personal ciphers ≡ err e
          → Fails (scan f shared ciphers) e)
      → Fails
          (map_err cipher (decrypt p c key) >>= λ d.
            match_name name found d >>= λ f. scan f shared ciphers)
          e
  first-Fails found shared c ciphers e h ih = elim (Result-cases (decrypt p c key)) [
    | inr (x, failed) ↦
        let same : x ≡ e = ground arith in rw failed (inl (ap (λ y. err (cipher y)) same))
    | inl (d, fine) ↦ elim (Result-cases (decrypt_personal ciphers)) [
      | inl (ds, all_fine) ↦ absurd (ground arith)
      | inr (x, failed) ↦
          let same : x ≡ e = ground arith in
          rw fine (match-Fails found shared ciphers d e (λ f. ih f (failed ∙ ap err same)))
    ]
  ]

  scan-Fails :
      (found : Option DecryptedCipher) (shared : Bool) (ciphers : List EncryptedCipher)
      (e : CipherError)
      → decrypt_personal ciphers ≡ err e
      → Fails (scan found shared ciphers) e
  unfolding filter traverse
  scan-Fails found shared [] e h = cc
  scan-Fails found shared (c ∷ ciphers) e h = elim (Bool-cases (is_some c.deleted_date)) [
    | inl deleted ↦
        rw (scan-deleted found shared c ciphers deleted)
          (scan-Fails found shared ciphers e (rw deleted at h))
    | inr live ↦ elim (Bool-cases (is_some c.organization_id)) [
      | inl other ↦
          rw (scan-shared found shared c ciphers live other)
            (scan-Fails found true ciphers e (rw (live, other) at h))
      | inr personal ↦ rw (scan-personal found shared c ciphers live personal) (
          first-Fails found shared c ciphers e (rw (live, personal) at h)
            (λ f h'. scan-Fails f shared ciphers e h'))
    ]
  ]

  -- Where every live personal item decrypts, a name gives the one item that has it, the error of an
  -- ambiguous name where several have it, and where none has it the error for shared items or for a
  -- missing item, as there are live shared items or not. Where one fails to decrypt, the result is
  -- that failure or the error of an ambiguous name, and never that the item is missing.
  pub resolve_synced_cipher_by_name_cases :
      (sync : SyncResponse)
      → ((items : List DecryptedCipher)
          → decrypt_personal sync.ciphers ≡ ok items
          → resolve_synced_cipher_by_name p key sync name
            ≡ decide (named items) (any is_shared sync.ciphers))
        × ((e : CipherError)
            → decrypt_personal sync.ciphers ≡ err e
            → Fails (resolve_synced_cipher_by_name p key sync name) e)
  unfolding resolve_synced_cipher_by_name
  resolve_synced_cipher_by_name_cases sync =
      (scan-decide none false sync.ciphers, scan-Fails none false sync.ciphers)
