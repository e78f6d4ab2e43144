-- ===== src/Auth/Scopes.antt =====
-- The scope that a token is given: the rules of the capability that holds it.
use vaultwarden_eso_provider.Prelude.{
  ℕ, ◌≡◌, ◌≤◌, ◌⊎◌, ◌↔◌, true, false, not, ◌&&◌, Option, none, some, List, [], ◌∷◌, arith, ok, inl,
  inr, Bool-cases, Option-cases, refl, sym, ap, subst, ◌∙◌, option_map, is_some, leb, if◌then◌else◌,
}
use mathlib.Core.List.{Memᴰ}
use vaultwarden_eso_provider.Text.{Text, text_eq, byte_len}
use vaultwarden_eso_provider.Text.Laws.{text_eq_iff}
use vaultwarden_eso_provider.Primitives.{Primitives}
use vaultwarden_eso_provider.Policy.{PolicyRules}
use vaultwarden_eso_provider.Auth.{
  ScopedCapability, ScopedAuthRules, scoped, TokenDigest, digest_of, scan_tokens, scan_capabilities,
  authorize_scoped,
}
use vaultwarden_eso_provider.Auth.Config.{RawAuthPolicy, rules_from}
use vaultwarden_eso_provider.Auth.Capabilities.{IsUnique, rules_from-IsUnique, not_in_nil}

-- A capability that holds the digest, with the rules.
abbrev pub Grants : ScopedAuthRules → TokenDigest → PolicyRules → Type 0
Grants rules digest r =
    (c : ScopedCapability) × Memᴰ c rules × Memᴰ digest c.tokens × (c.selector_rules ≡ r)

module _ (p : Primitives) (digest : TokenDigest) where
  scan_tokens_sound :
      (rules : PolicyRules) (matched : Option PolicyRules) (tokens : List TokenDigest)
      (r : PolicyRules)
      → scan_tokens p digest rules matched tokens ≡ some r
      → (matched ≡ some r) ⊎ (Memᴰ digest tokens × (rules ≡ r))
  unfolding scan_tokens
  scan_tokens_sound rules matched [] r h = inl h
  scan_tokens_sound rules matched (t ∷ tokens) r h = elim (Bool-cases (text_eq t digest)) [
    | inl same ↦ elim (scan_tokens_sound rules (some rules) tokens r (rw same at h)) [
      | inl e ↦ inr (Memᴰ.head (sym ((text_eq_iff t digest).0 same)), ground arith)
      | inr (m, e) ↦ inr (Memᴰ.tail m, e)
    ]
    | inr other ↦ elim (scan_tokens_sound rules matched tokens r (rw other at h)) [
      | inl e ↦ inl e
      | inr (m, e) ↦ inr (Memᴰ.tail m, e)
    ]
  ]

  scan_capabilities_sound :
      (matched : Option PolicyRules) (rules : ScopedAuthRules) (r : PolicyRules)
      → scan_capabilities p digest matched rules ≡ some r
      → (matched ≡ some r) ⊎ Grants rules digest r
  unfolding scan_capabilities
  scan_capabilities_sound matched [] r h = inl h
  scan_capabilities_sound matched (c ∷ rules) r h =
      elim (scan_capabilities_sound (scan_tokens p digest c.selector_rules matched c.tokens) rules r
        h) [
          | inr (d, m, at_d, e) ↦ inr (d, Memᴰ.tail m, at_d, e)
          | inl e ↦ elim (scan_tokens_sound c.selector_rules matched c.tokens r e) [
            | inl e' ↦ inl e'
            | inr (m, e') ↦ inr (c, Memᴰ.head refl, m, e')
          ]
        ]

  past_token :
      (t : TokenDigest) (tokens : List TokenDigest) {A : Type 0}
      → text_eq t digest ≡ false
      → A ⊎ Memᴰ digest (t ∷ tokens)
      → A ⊎ Memᴰ digest tokens
  past_token t tokens other (inl a) = inl a
  past_token t tokens other (inr (Memᴰ.head e)) =
      let same = (text_eq_iff t digest).1 (sym e) in absurd (ground arith)
  past_token t tokens other (inr (Memᴰ.tail m)) = inr m

  -- A match is never lost again.
  scan_tokens_keeps :
      (rules : PolicyRules) (matched : Option PolicyRules) (tokens : List TokenDigest)
      → (is_some matched ≡ true) ⊎ Memᴰ digest tokens
      → is_some (scan_tokens p digest rules matched tokens) ≡ true
  unfolding scan_tokens
  scan_tokens_keeps rules matched [] (inl h) = h
  scan_tokens_keeps rules matched [] (inr m) = absurd (not_in_nil m)
  scan_tokens_keeps rules matched (t ∷ tokens) h = elim (Bool-cases (text_eq t digest)) [
    | inl same ↦ rw same (scan_tokens_keeps rules (some rules) tokens (inl refl))
    | inr other ↦ rw other (scan_tokens_keeps rules matched tokens (past_token t tokens other h))
  ]

  scan_capabilities_keeps :
      (matched : Option PolicyRules) (rules : ScopedAuthRules)
      → (is_some matched ≡ true) ⊎ ((c : ScopedCapability) × Memᴰ c rules × Memᴰ digest c.tokens)
      → is_some (scan_capabilities p digest matched rules) ≡ true
  unfolding scan_capabilities
  scan_capabilities_keeps matched [] (inl h) = h
  scan_capabilities_keeps matched [] (inr (c, m, at_c)) = absurd (not_in_nil m)
  scan_capabilities_keeps matched (c ∷ rules) (inl h) =
      scan_capabilities_keeps (scan_tokens p digest c.selector_rules matched c.tokens) rules
        (inl (scan_tokens_keeps c.selector_rules matched c.tokens (inl h)))
  scan_capabilities_keeps matched (c ∷ rules) (inr (d, Memᴰ.head e, at_d)) =
      scan_capabilities_keeps (scan_tokens p digest c.selector_rules matched c.tokens) rules (
        inl (
          scan_tokens_keeps c.selector_rules matched c.tokens
            (inr (subst (λ (x : ScopedCapability). Memᴰ digest x.tokens) e at_d))))
  scan_capabilities_keeps matched (c ∷ rules) (inr (d, Memᴰ.tail m, at_d)) =
      scan_capabilities_keeps (scan_tokens p digest c.selector_rules matched c.tokens) rules
        (inr (d, m, at_d))

  -- With no digest in two capabilities, the last match is the only one.
  scan_capabilities_iff :
      (rules : ScopedAuthRules) (r : PolicyRules)
      → IsUnique rules
      → (scan_capabilities p digest none rules ≡ some r) ↔ Grants rules digest r
  scan_capabilities_iff rules r unique = (
    λ h. elim (scan_capabilities_sound none rules r h) [
      | inl e ↦ absurd (ground arith)
      | inr granted ↦ granted
    ],
    λ (c, m, at_c, e).
        let kept = scan_capabilities_keeps none rules (inr (c, m, at_c)) in
        elim (Option-cases (scan_capabilities p digest none rules)) [
          | inl lost ↦ absurd (ground arith)
          | inr (r', found) ↦ elim (scan_capabilities_sound none rules r' found) [
            | inl e' ↦ absurd (ground arith)
            | inr (d, m', at_d, e') ↦
                let same = unique digest d c m' m at_d at_c in
                found ∙ ap some (sym e' ∙ ap (λ (x : ScopedCapability). x.selector_rules) same ∙ e)
          ]
        ],
  )

bounded_iff :
    (o : Option PolicyRules) (n : ℕ) (r : PolicyRules)
    → ((if not (leb 32 n && leb n 4096) then none else option_map scoped o) ≡ some (scoped r))
      ↔ ((32 ≤ n) × (n ≤ 4096) × (o ≡ some r))
bounded_iff none n r = ground arith
bounded_iff (some r') n r = ground arith

-- Under an accepted policy a token is given the scope `r` exactly when it has between 32 and 4096
-- bytes and its digest is one of a capability whose rules are `r`.
pub authorize_scoped_iff :
    (p : Primitives) (raw : RawAuthPolicy) (rules : ScopedAuthRules) (supplied : Text)
    (r : PolicyRules)
    → rules_from p raw ≡ ok rules
    → (authorize_scoped p rules supplied ≡ some (scoped r)) ↔ (
        (32 ≤ byte_len supplied)
        × (byte_len supplied ≤ 4096)
        × Grants rules (digest_of p supplied) r)
unfolding authorize_scoped
authorize_scoped_iff p raw rules supplied r accepted =
    let found = scan_capabilities p (digest_of p supplied) none rules in
    let (sound, complete) = bounded_iff found (byte_len supplied) r in
    let (granted, grants) =
      scan_capabilities_iff p (digest_of p supplied) rules r
        (rules_from-IsUnique p raw rules accepted) in
    (
      λ h. let (low, high, e) = sound h in (low, high, granted e),
      λ (low, high, g). complete (low, high, grants g),
    )
