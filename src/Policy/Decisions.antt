-- ===== src/Policy/Decisions.antt =====
-- What a policy allows.
use vaultwarden_eso_provider.Prelude.{
  ◌≡◌, ◌↔◌, ◌⊎◌, true, List, ◌++◌, arith, inl, inr, any, any_sound, any_complete, subst, Bool-cases,
  refl,
}
use mathlib.Core.List.{Memᴰ}
use vaultwarden_eso_provider.Text.{Text, text_eq, starts_with}
use vaultwarden_eso_provider.Text.Laws.{text_eq_iff, starts_with_sound, starts_with_complete}
use vaultwarden_eso_provider.Policy.{allow_list, allows}

-- A key of the list, or one that a prefix of the list starts.
abbrev pub Listed : List Text → List Text → Text → Type 0
Listed keys prefixes key =
    Memᴰ key keys
    ⊎ ((prefix : Text) × (rest : Text) × Memᴰ prefix prefixes × (key ≡ prefix ++ rest))

any_key_iff :
    (keys : List Text) (key : Text) → (any (λ k. text_eq k key) keys ≡ true) ↔ Memᴰ key keys
any_key_iff keys key = (
  λ h.
      let (k, listed, same) = any_sound (λ k. text_eq k key) keys h in
      subst (λ x. Memᴰ x keys) ((text_eq_iff k key).0 same) listed,
  λ listed. any_complete (λ k. text_eq k key) listed ((text_eq_iff key key).1 refl),
)

any_prefix_iff :
    (prefixes : List Text) (key : Text)
    → (any (λ prefix. starts_with key prefix) prefixes ≡ true)
      ↔ ((prefix : Text) × (rest : Text) × Memᴰ prefix prefixes × (key ≡ prefix ++ rest))
any_prefix_iff prefixes key = (
  λ h.
      let (prefix, listed, starts) = any_sound (λ prefix. starts_with key prefix) prefixes h in
      let (rest, whole) = starts_with_sound key prefix starts in (prefix, rest, listed, whole),
  λ (prefix, rest, listed, whole).
      any_complete (λ prefix'. starts_with key prefix') listed
        (rw whole (starts_with_complete prefix rest)),
)

-- An allow list allows exactly its keys and what its prefixes start.
pub allows_iff :
    (keys prefixes : List Text) (key : Text)
    → (allows (allow_list keys prefixes) key ≡ true) ↔ Listed keys prefixes key
unfolding allows
allows_iff keys prefixes key = (
  λ h. elim (Bool-cases (any (λ k. text_eq k key) keys)) [
    | inl exact ↦ inl ((any_key_iff keys key).0 exact)
    | inr other ↦ inr ((any_prefix_iff prefixes key).0 (rw other at h))
  ],
  λ listed. elim listed [
    | inl exact ↦ rw ((any_key_iff keys key).1 exact)
    | inr started ↦ ground (arith, (any_prefix_iff prefixes key).1 started)
  ],
)
