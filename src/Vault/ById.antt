-- ===== src/Vault/ById.antt =====
-- The item that an identifier selects, whatever the other items are.
use mathlib.Core.List.{Memᴰ}
use vaultwarden_eso_provider.Prelude.{
  ◌≡◌, refl, ap, ◌∙◌, true, ◌&&◌, List, [], ◌∷◌, arith, ok, Bool-cases, inl, inr,
}
use vaultwarden_eso_provider.Text.{Text, text_eq}
use vaultwarden_eso_provider.Text.Laws.{text_eq_iff}
use vaultwarden_eso_provider.Cipher.{EncryptedCipher}
use vaultwarden_eso_provider.Cipher.Extraction.{filter}
use vaultwarden_eso_provider.Vault.{is_live, find_cipher_by_id}

pub find_cipher_by_id-Mem :
    (ciphers : List EncryptedCipher) (id : Text) (c : EncryptedCipher)
    → find_cipher_by_id ciphers id ≡ ok c
    → Memᴰ c ciphers × (c.id ≡ id) × (is_live c ≡ true)
unfolding find_cipher_by_id
find_cipher_by_id-Mem [] id c h = cc
find_cipher_by_id-Mem (x ∷ ciphers) id c h = elim (Bool-cases (text_eq x.id id && is_live x)) [
  | inl here ↦
      let same : c ≡ x = ground arith in
      (
        Memᴰ.head same,
        ap (λ (y : EncryptedCipher). y.id) same ∙ ground (arith, text_eq_iff x.id id),
        ap is_live same ∙ ground arith,
      )
  | inr later ↦
      let (m, named, live) = find_cipher_by_id-Mem ciphers id c (rw later at h) in
      (Memᴰ.tail m, named, live)
]

-- Deleted items play no part.
pub find_cipher_by_id-filter :
    (ciphers : List EncryptedCipher) (id : Text)
    → find_cipher_by_id (filter is_live ciphers) id ≡ find_cipher_by_id ciphers id
unfolding find_cipher_by_id filter
find_cipher_by_id-filter [] id = refl
find_cipher_by_id-filter (x ∷ ciphers) id = elim (Bool-cases (is_live x)) [
  | inl live ↦ rw live (ground (arith, find_cipher_by_id-filter ciphers id))
  | inr deleted ↦ rw deleted (ground (arith, find_cipher_by_id-filter ciphers id))
]
