-- ===== src/Cipher/Document.antt =====
-- What `to_secret_document` puts into the document of an item, and when it refuses the item.
use vaultwarden_eso_provider.Prelude.{
  ◌≡◌, ◌≢◌, ◌↔◌, refl, sym, ap, ◌∙◌, false, none, [], ◌∷◌, ◌++◌, arith, ok, err, ◌>>◌, >>=-eq-ok,
  bail_if, is_empty, All, inl, inr, Bool-cases, Result-cases, subst,
}
use vaultwarden_eso_provider.Text.{Text}
use vaultwarden_eso_provider.Text.Laws.{text_eq_refl, text_cmp_refl}
use vaultwarden_eso_provider.TreeMap.{text_ord, get}
use vaultwarden_eso_provider.Core.{SecretDocument}
use vaultwarden_eso_provider.Cipher.{
  DecryptedCipher, duplicate_document_field, no_extractable_fields,
}
use vaultwarden_eso_provider.Cipher.Extraction.{insert_fields, conventional, to_secret_document}
use vaultwarden_eso_provider.Cipher.Pairs.{
  Pairs, lookup, Distinct, field_pairs, conventional_pairs, lookup-append, get-conventional,
  metadata-conventional,
}
use vaultwarden_eso_provider.Cipher.Insertion.{
  Map, insert_pairs, insert_fields-pairs, Fits, All-imp, insert_pairs_sound, insert_pairs_complete,
  insert_pairs-duplicate,
}

-- The custom names of an item are distinct, and none of them is a conventional name that the item
-- has a value for.
abbrev pub IsUnambiguous : DecryptedCipher → Type 0
IsUnambiguous c =
    All (λ q. lookup (conventional_pairs c) q.0 ≡ none) (field_pairs c.fields)
    × Distinct (field_pairs c.fields)

-- Every pair of an item.
abbrev pub pairs : DecryptedCipher → Pairs
pairs c = field_pairs c.fields ++ conventional_pairs c

Fits-conventional :
    (c : DecryptedCipher) → Fits (conventional c).entries (field_pairs c.fields) ↔ IsUnambiguous c
Fits-conventional c = (
  λ h. (All-imp _ _ (field_pairs c.fields) (λ q e. sym (get-conventional c q.0) ∙ e) h.0, h.1),
  λ h. (All-imp _ _ (field_pairs c.fields) (λ q e. get-conventional c q.0 ∙ e) h.0, h.1),
)

get-loop :
    (c : DecryptedCipher) (d : SecretDocument)
    → insert_pairs (conventional c) (field_pairs c.fields) ≡ ok d
    → (IsUnambiguous c) × (d.metadata ≡ []) × ((k : Text) → get d.entries k ≡ lookup (pairs c) k)
get-loop c d h =
    let (fits, kept, gets) = insert_pairs_sound (conventional c) (field_pairs c.fields) d h in
    (
      (Fits-conventional c).0 fits,
      kept ∙ metadata-conventional c,
      λ k.
          gets k
          ∙ rw (get-conventional c k)
              (sym (lookup-append (field_pairs c.fields) (conventional_pairs c) k)),
    )

empty_map :
    (m : Map) (ps : Pairs) → ((k : Text) → get m k ≡ lookup ps k) → (is_empty m ≡ is_empty ps)
unfolding get lookup
empty_map [] [] h = refl
empty_map [] ((k, v) ∷ ps) h = ground (arith, h k, text_eq_refl k)
empty_map ((k, v) ∷ m) [] h = ground (arith, h k, text_cmp_refl k)
empty_map ((k, v) ∷ m) ((j, w) ∷ ps) h = refl

is_empty_of_ne : (ps : Pairs) → ps ≢ [] → is_empty ps ≡ false
is_empty_of_ne [] h = absurd (h refl)
is_empty_of_ne (p ∷ ps) h = refl

-- The last step of `to_secret_document`.
checked :
    (d d' : SecretDocument) (id : Text)
    → (bail_if (is_empty d.entries) (no_extractable_fields id) >> ok d) ≡ ok d'
    → (d ≡ d') × (is_empty d.entries ≡ false)
checked d d' id h = elim (Bool-cases (is_empty d.entries)) [
  | inl none_left ↦ absurd (ground arith)
  | inr some_left ↦ (ground arith, some_left)
]

-- A document comes only from an item whose custom names are unambiguous. It has no metadata, is not
-- empty, and holds under every key the value that the item offers under it, and no other key.
pub get-to_secret_document :
    (c : DecryptedCipher) (d : SecretDocument)
    → to_secret_document c ≡ ok d
    → IsUnambiguous c
      × (d.metadata ≡ [])
      × (d.entries ≢ [])
      × ((k : Text) → get d.entries k ≡ lookup (pairs c) k)
unfolding to_secret_document
get-to_secret_document c d h =
    let (d₀, e₀, h₀) = >>=-eq-ok (insert_fields (conventional c) c.fields) _ h in
    let (same, some_left) = checked d₀ d c.id h₀ in
    let (unambiguous, no_metadata, gets) =
      get-loop c d₀ (sym (insert_fields-pairs (conventional c) c.fields) ∙ e₀) in
    subst
      (λ x.
        IsUnambiguous c
        × (x.metadata ≡ [])
        × (x.entries ≢ [])
        × ((k : Text) → get x.entries k ≡ lookup (pairs c) k))
      same (unambiguous, no_metadata, (λ e. cc (some_left, ap is_empty e)), gets)

loop_total :
    (c : DecryptedCipher)
    → IsUnambiguous c
    → (d : SecretDocument) × (insert_fields (conventional c) c.fields ≡ ok d)
      × (is_empty d.entries ≡ is_empty (pairs c))
loop_total c u =
    let (d, e) =
      insert_pairs_complete (conventional c) (field_pairs c.fields) ((Fits-conventional c).1 u) in
    (
      d,
      insert_fields-pairs (conventional c) c.fields ∙ e,
      empty_map d.entries (pairs c) (get-loop c d e).2,
    )

loop_duplicate :
    (c : DecryptedCipher)
    → ¬ IsUnambiguous c
    → (name : Text) × (insert_fields (conventional c) c.fields
        ≡ err (duplicate_document_field name))
loop_duplicate c ambiguous =
    elim (Result-cases (insert_pairs (conventional c) (field_pairs c.fields))) [
      | inl (d, e) ↦ absurd (ambiguous (get-loop c d e).0)
      | inr (x, e) ↦
          let (name, same) = insert_pairs-duplicate (conventional c) (field_pairs c.fields) x e in
          (name, insert_fields-pairs (conventional c) c.fields ∙ e ∙ ap err same)
    ]

-- Which of the three results `to_secret_document` has: a document where the custom names are
-- unambiguous and there is a pair, the error that nothing can be extracted where there is none,
-- and otherwise the error that names a duplicate.
pub to_secret_document_cases :
    (c : DecryptedCipher)
    → (IsUnambiguous c → pairs c ≢ [] → (d : SecretDocument) × (to_secret_document c ≡ ok d))
      × (IsUnambiguous c → pairs c ≡ [] → to_secret_document c ≡ err (no_extractable_fields c.id))
      × (¬ IsUnambiguous c
          → (name : Text) × (to_secret_document c ≡ err (duplicate_document_field name)))
unfolding to_secret_document
to_secret_document_cases c = (
  λ u some_pair.
      let (d, e, em) = loop_total c u in (d, rw (e, em ∙ is_empty_of_ne (pairs c) some_pair)),
  λ u no_pair. let (d, e, em) = loop_total c u in rw (e, em ∙ ap is_empty no_pair),
  λ ambiguous. let (name, e) = loop_duplicate c ambiguous in (name, rw e),
)
