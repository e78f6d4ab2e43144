-- ===== src/Cipher/Insertion.antt =====
-- The loop over the custom fields of an item, as insertions into a map.
use vaultwarden_eso_provider.Prelude.{
  ◌≡◌, ◌≢◌, ◌↔◌, refl, Option, none, some, List, [], ◌∷◌, ◌++◌, arith, Result, ok, err, ◌>>=◌, ◌>>◌,
  bail_if, or_else, All, inl, inr, Bool-cases,
}
use vaultwarden_eso_provider.Text.{Text}
use vaultwarden_eso_provider.Text.Laws.{text_eq_iff, text_cmp_iff}
use vaultwarden_eso_provider.TreeMap.{TreeMap, text_ord, get, insert, contains_key, get-insert}
use vaultwarden_eso_provider.Core.{SecretDocument, is_blank}
use vaultwarden_eso_provider.Cipher.{DecryptedField, CipherError, duplicate_document_field}
use vaultwarden_eso_provider.Cipher.Extraction.{insert_field, insert_fields}
use vaultwarden_eso_provider.Cipher.Pairs.{Pairs, lookup, Distinct, field_pair, field_pairs}

abbrev pub Map : Type 0
Map = TreeMap Text Text

-- The loop over the custom fields, over the pairs that they give.
pub insert_pairs : SecretDocument → Pairs → Result CipherError SecretDocument
insert_pairs d [] = ok d
insert_pairs d ((n, v) ∷ ps) = do
  bail_if (contains_key d.entries n) (duplicate_document_field n)
  insert_pairs (record d { entries = insert n v d.entries }) ps

insert_field-pairs :
    (d : SecretDocument) (name value : Option Text) (ps : Pairs)
    {next : SecretDocument → Result CipherError SecretDocument}
    → ((d' : SecretDocument) → next d' ≡ insert_pairs d' ps)
    → (insert_field d name value >>= next) ≡ insert_pairs d (field_pair name value ++ ps)
unfolding insert_field insert_pairs
insert_field-pairs d none value ps ih = ih d
insert_field-pairs d (some name) none ps ih = ih d
insert_field-pairs d (some name) (some value) ps ih = elim (Bool-cases (is_blank name)) [
  | inl blank ↦ rw blank (ih d)
  | inr named ↦ rw named (elim (Bool-cases (contains_key d.entries name)) [
    | inl old ↦ rw old
    | inr new ↦ rw new (ih (record d { entries = insert name value d.entries }))
  ])
]

pub insert_fields-pairs :
    (d : SecretDocument) (fields : List DecryptedField)
    → insert_fields d fields ≡ insert_pairs d (field_pairs fields)
unfolding insert_fields insert_pairs
insert_fields-pairs d [] = refl
insert_fields-pairs d (field ∷ fields) =
    insert_field-pairs d field.name field.value (field_pairs fields)
      (λ next. insert_fields-pairs next fields)

-- The names are new to the map, and none of them occurs twice.
abbrev pub Fits : Map → Pairs → Type 0
Fits m ps = All (λ q. get m q.0 ≡ none) ps × Distinct ps

pub All-imp :
    (P Q : (Text × Text) → Type 0) (ps : Pairs)
    → ((q : Text × Text) → P q → Q q)
    → All P ps
    → All Q ps
All-imp P Q [] f h = tt
All-imp P Q (q ∷ ps) f (h, hs) = (f q h, All-imp P Q ps f hs)

All-and :
    (P Q : (Text × Text) → Type 0) (ps : Pairs) → All P ps → All Q ps → All (λ q. P q × Q q) ps
All-and P Q [] h k = tt
All-and P Q (q ∷ ps) (h, hs) (k, ks) = ((h, k), All-and P Q ps hs ks)

get-insert-none :
    (n v : Text) (m : Map) (j : Text) → (get (insert n v m) j ≡ none) ↔ ((get m j ≡ none) × (j ≢ n))
get-insert-none n v m j = ground (arith, get-insert n j v m, text_cmp_iff j n)

Fits-cons :
    (n v : Text) (m : Map) (ps : Pairs)
    → get m n ≡ none
    → Fits (insert n v m) ps
      ↔ (All (λ q. get m q.0 ≡ none) ps × All (λ q. q.0 ≢ n) ps × Distinct ps)
Fits-cons n v m ps fresh = (
  λ h. (
    All-imp _ _ ps (λ q e. ((get-insert-none n v m q.0).0 e).0) h.0,
    All-imp _ _ ps (λ q e. ((get-insert-none n v m q.0).0 e).1) h.0,
    h.1,
  ),
  λ h. (All-imp _ _ ps (λ q e. (get-insert-none n v m q.0).1 e) (All-and _ _ ps h.0 h.1), h.2),
)

lookup-none : (n : Text) (ps : Pairs) → All (λ q. q.0 ≢ n) ps → lookup ps n ≡ none
unfolding lookup
lookup-none n [] h = refl
lookup-none n ((j, v) ∷ ps) (h, hs) = ground (arith, text_eq_iff j n, lookup-none n ps hs)

get-insert-lookup :
    (n v : Text) (m : Map) (ps : Pairs) (k : Text)
    → All (λ q. q.0 ≢ n) ps
    → or_else (lookup ps k) (get (insert n v m) k) ≡ or_else (lookup ((n, v) ∷ ps) k) (get m k)
unfolding lookup
get-insert-lookup n v m ps k new =
    ground (arith, get-insert n k v m, text_cmp_iff k n, text_eq_iff n k, lookup-none n ps new)

pub insert_pairs_sound :
    (d : SecretDocument) (ps : Pairs) (d' : SecretDocument)
    → insert_pairs d ps ≡ ok d'
    → Fits d.entries ps
      × (d'.metadata ≡ d.metadata)
      × ((k : Text) → get d'.entries k ≡ or_else (lookup ps k) (get d.entries k))
unfolding insert_pairs
insert_pairs_sound d [] d' h = unfold lookup in ground arith
insert_pairs_sound d ((n, v) ∷ ps) d' h =
    let fresh : get d.entries n ≡ none = unfold contains_key in ground arith in
    let next : SecretDocument = record d { entries = insert n v d.entries } in
    let (fits, kept, gets) =
      insert_pairs_sound (record d { entries = insert n v d.entries }) ps d'
        (unfold contains_key in ground arith) in
    let (old, new, distinct) = (Fits-cons n v d.entries ps fresh).0 fits in
    (
      ((fresh, old), (new, distinct)),
      kept,
      λ k. rw (gets k) (get-insert-lookup n v d.entries ps k new),
    )

pub insert_pairs_complete :
    (d : SecretDocument) (ps : Pairs)
    → Fits d.entries ps
    → (d' : SecretDocument) × (insert_pairs d ps ≡ ok d')
unfolding insert_pairs contains_key
insert_pairs_complete d [] h = (d, refl)
insert_pairs_complete d ((n, v) ∷ ps) ((fresh, all), (distinct, rest)) =
    let (d', e) =
      insert_pairs_complete (record d { entries = insert n v d.entries }) ps
        ((Fits-cons n v d.entries ps fresh).1 (all, distinct, rest)) in
    (d', rw fresh e)

pub insert_pairs-duplicate :
    (d : SecretDocument) (ps : Pairs) (e : CipherError)
    → insert_pairs d ps ≡ err e
    → (name : Text) × (e ≡ duplicate_document_field name)
unfolding insert_pairs
insert_pairs-duplicate d [] e h = cc
insert_pairs-duplicate d ((n, v) ∷ ps) e h = elim (Bool-cases (contains_key d.entries n)) [
  | inl old ↦ (n, ground arith)
  | inr new ↦
      insert_pairs-duplicate (record d { entries = insert n v d.entries }) ps e (rw new at h)
]
