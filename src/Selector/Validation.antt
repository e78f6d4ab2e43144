-- ===== src/Selector/Validation.antt =====
-- Which references are accepted, and what their selectors name.
use vaultwarden_eso_provider.Prelude.{
  ◌≡◌, ◌↔◌, refl, sym, ap, ◌∙◌, true, false, not, Option, none, some, ◌++◌, arith, ok, >>=-eq-ok,
  subst, map_err, bail_if, is_some_and, inl, inr, Option-cases,
}
use vaultwarden_eso_provider.Text.{Text, codes, trim, strip_prefix}
use vaultwarden_eso_provider.Text.Laws.{strip_prefix_sound, strip_prefix_complete}
use vaultwarden_eso_provider.Core.{RemoteRef, is_blank, require_non_empty}
use vaultwarden_eso_provider.Errors.{ClientError, validation, unsupported_version_selector}
use vaultwarden_eso_provider.Selector.{
  Selector, validate_prefixed, validate_selector_key, selector_property, selector_from,
  CipherLookup, by_id, by_name, lookup_prefixed, lookup_from_key,
}

-- The key of an item: a prefix and a value that is not blank.
abbrev pub Names : Text → CipherLookup → Type 0
Names key (by_id id) = (key ≡ codes "id:" ++ id) × (is_blank id ≡ false)
Names key (by_name name) = (key ≡ codes "name:" ++ name) × (is_blank name ≡ false)

-- No version, or a blank one.
abbrev pub NoVersion : Option Text → Type 0
NoVersion none = Unit
NoVersion (some version) = is_blank version ≡ true

-- The property is taken over trimmed, and must not be blank.
abbrev pub PropertyOf : Option Text → Option Text → Type 0
PropertyOf none q = q ≡ none
PropertyOf (some property) q = (is_blank property ≡ false) × (q ≡ some (trim property))

selector_property_iff : (o q : Option Text) → (selector_property o ≡ ok q) ↔ PropertyOf o q
unfolding selector_property require_non_empty
selector_property_iff none q = ground arith
selector_property_iff (some property) q = ground arith

validate_selector_key_sound :
    (key : Text) → validate_selector_key key ≡ ok tt → (l : CipherLookup) × Names key l
unfolding validate_selector_key validate_prefixed require_non_empty
validate_selector_key_sound key h = elim (Option-cases (strip_prefix key (codes "id:"))) [
  | inr (id, e) ↦ (by_id id, (strip_prefix_sound key (codes "id:") id e, ground arith))
  | inl no_id ↦ elim (Option-cases (strip_prefix key (codes "name:"))) [
    | inr (name, e) ↦ (by_name name, (strip_prefix_sound key (codes "name:") name e, ground arith))
    | inl no_name ↦ absurd (ground arith)
  ]
]

validate_selector_key_complete :
    (key : Text) (l : CipherLookup) → Names key l → validate_selector_key key ≡ ok tt
unfolding validate_selector_key validate_prefixed require_non_empty
validate_selector_key_complete key (by_id id) (e, h) =
    rw (e, strip_prefix_complete (codes "id:") id, h)
validate_selector_key_complete key (by_name name) (e, h) =
    rw (e, strip_prefix_complete (codes "name:") name) (unfold strip_prefix in rw h)

version_iff :
    (o : Option Text) (e : ClientError)
    → (bail_if (is_some_and o (λ version. not (is_blank version))) e ≡ ok tt) ↔ NoVersion o
version_iff none e = ground arith
version_iff (some version) e = ground arith

selector_from_sound :
    (r : RemoteRef) (s : Selector)
    → selector_from r ≡ ok s
    → NoVersion r.version
      × PropertyOf r.property s.property
      × (s.key ≡ trim r.key)
      × (l : CipherLookup) × Names s.key l
unfolding selector_from
selector_from_sound r s h =
    let (_, e₁, h₁) =
      >>=-eq-ok (map_err validation (require_non_empty r.key "remote_ref.key")) _ h in
    let (_, e₂, h₂) =
      >>=-eq-ok
        (bail_if (is_some_and r.version (λ v. not (is_blank v))) unsupported_version_selector) _
        h₁ in
    let (q, e₃, h₃) = >>=-eq-ok (selector_property r.property) _ h₂ in
    let (_, e₄, h₄) = >>=-eq-ok (validate_selector_key (trim r.key)) _ h₃ in
    let same : s.key ≡ trim r.key = ground arith in
    let property : q ≡ s.property = ground arith in
    let (l, named) = validate_selector_key_sound (trim r.key) e₄ in
    (
      (version_iff r.version unsupported_version_selector).0 e₂,
      (selector_property_iff r.property s.property).0 (e₃ ∙ ap ok property),
      same,
      l,
      subst (λ k. Names k l) (sym same) named,
    )

not_blank : (key : Text) (l : CipherLookup) → Names (trim key) l → is_blank key ≡ false
unfolding is_blank
not_blank key (by_id id) (e, _) = rw e
not_blank key (by_name name) (e, _) = rw e

selector_from_complete :
    (r : RemoteRef) (s : Selector) (l : CipherLookup)
    → NoVersion r.version
    → PropertyOf r.property s.property
    → s.key ≡ trim r.key
    → Names s.key l
    → selector_from r ≡ ok s
unfolding selector_from
selector_from_complete r s l version property same named =
    let trimmed : Names (trim r.key) l = subst (λ k. Names k l) same named in
    let fine : is_blank r.key ≡ false = not_blank r.key l trimmed in
    let present : require_non_empty r.key "remote_ref.key" ≡ ok tt =
      unfold require_non_empty in rw fine in
    rw
      (
        present,
        (version_iff r.version unsupported_version_selector).1 version,
        (selector_property_iff r.property s.property).1 property,
        validate_selector_key_complete (trim r.key) l trimmed,
      )
      (ground arith)

-- A reference is accepted, as the selector `s`, exactly when it has no version but a blank one, its
-- property is absent or not blank and is taken over trimmed, and its trimmed key is the selector's
-- key and has the form `id:` or `name:` with a value that is not blank.
pub selector_from_iff :
    (r : RemoteRef) (s : Selector)
    → (selector_from r ≡ ok s) ↔ (
        NoVersion r.version
        × PropertyOf r.property s.property
        × (s.key ≡ trim r.key)
        × (l : CipherLookup) × Names s.key l)
selector_from_iff r s = (
  selector_from_sound r s,
  λ (version, property, same, l, named). selector_from_complete r s l version property same named,
)

-- The key of an accepted selector is never refused afterwards: it is looked up as what it names.
pub lookup_from_key-Names :
    (key : Text) (l : CipherLookup) → Names key l → lookup_from_key key ≡ ok l
unfolding lookup_from_key lookup_prefixed
lookup_from_key-Names key (by_id id) (e, h) = rw (e, strip_prefix_complete (codes "id:") id)
lookup_from_key-Names key (by_name name) (e, h) =
    rw (e, strip_prefix_complete (codes "name:") name) (unfold strip_prefix in refl)
