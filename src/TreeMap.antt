-- ===== src/TreeMap.antt =====
-- `BTreeMap` as an association list that insertion keeps in the order of its keys.
use vaultwarden_eso_provider.Prelude.{
  ◌≡◌, ◌≢◌, ◌↔◌, refl, Bool, true, false, Option, none, some, List, [], ◌∷◌, arith, Ordering,
  if◌then◌else◌, is_some,
}
use vaultwarden_eso_provider.Text.{Text, text_cmp}
use vaultwarden_eso_provider.Text.Laws.{text_cmp_iff}

-- `Ord`: a comparison that says `eq` of equal keys alone.
pub record Ord {ℓ} (K : Type ℓ) : Type ℓ where
  pub cmp : K → K → Ordering
  pub cmp_iff : (a b : K) → (cmp a b ≡ Ordering.eq) ↔ (a ≡ b)

instance abbrev pub text_ord : Ord Text
text_ord = record { cmp = text_cmp; cmp_iff = text_cmp_iff }

abbrev pub is_eq : Ordering → Bool
is_eq Ordering.eq = true
is_eq _ = false

abbrev pub TreeMap {ℓ κ} : Type ℓ → Type κ → Type (ℓ ⊔ κ)
TreeMap K V = List (K × V)

module _ {ℓ} {K : Type ℓ} ⦃o : Ord K⦄ where
  pub is_eq_sound : (k j : K) → is_eq (o.cmp k j) ≡ true → k ≡ j
  is_eq_sound k j h = ground (arith, o.cmp_iff k j)

module _ {ℓ κ} {K : Type ℓ} {V : Type κ} ⦃o : Ord K⦄ where
  unfoldable pub get : TreeMap K V → K → Option V
  get [] k = none
  get ((j, w) ∷ m) k = if is_eq (o.cmp k j) then some w else get m k

  unfoldable pub insert : K → V → TreeMap K V → TreeMap K V
  insert k v [] = (k, v) ∷ []
  insert k v ((j, w) ∷ m) = elim (o.cmp k j) [
    | Ordering.lt ↦ (k, v) ∷ (j, w) ∷ m
    | Ordering.eq ↦ (k, v) ∷ m
    | Ordering.gt ↦ (j, w) ∷ insert k v m
  ]

  unfoldable pub contains_key : TreeMap K V → K → Bool
  contains_key m k = is_some (get m k)

  pub get-insert :
      (k j : K) (v : V) (m : TreeMap K V)
      → get (insert k v m) j ≡ (if is_eq (o.cmp j k) then some v else get m j)
  unfolding get insert
  get-insert k j v [] = ground arith
  get-insert k j v ((i, w) ∷ m) =
      ground (arith, o.cmp_iff k i, o.cmp_iff j k, o.cmp_iff j i, get-insert k j v m)

  pub get-insert_self : (k : K) (v : V) (m : TreeMap K V) → get (insert k v m) k ≡ some v
  get-insert_self k v m = rw (get-insert k k v m) (ground (arith, (o.cmp_iff k k).1 refl))

  pub get-insert_ne : (k j : K) (v : V) (m : TreeMap K V) → j ≢ k → get (insert k v m) j ≡ get m j
  get-insert_ne k j v m h = rw (get-insert k j v m) (ground (arith, o.cmp_iff j k))
