-- ===== src/Auth/Capabilities.antt =====
-- An accepted policy gives no token to two capabilities.
use vaultwarden_eso_provider.Prelude.{
  ℕ, ◌+◌, ◌≡◌, false, not, List, [], ◌∷◌, arith, ok, >>=-eq-ok, ok_injective, bail_if,
  bail_if-eq-ok, is_empty, refl, sym, ◌∙◌, any_complete, length, ltb, subst, ◌==◌,
}
use mathlib.Core.List.{Memᴰ}
use vaultwarden_eso_provider.Text.{Text, text_eq, trim}
use vaultwarden_eso_provider.Text.Laws.{text_eq_iff}
use vaultwarden_eso_provider.Primitives.{Primitives}
use vaultwarden_eso_provider.Auth.{ScopedCapability, ScopedAuthRules, TokenDigest, digest_of}
use vaultwarden_eso_provider.Auth.Config.{
  RawCapability, RawAuthPolicy, seen, read_tokens, read_rules, read_capabilities, rules_from,
  validate_scoped_token, duplicate_token, duplicate_name, empty_name, padded_name, no_tokens,
  too_many_tokens, saturating_add, max_auth_tokens, max_auth_capabilities, no_capability,
  too_many_capabilities, unsupported_version,
}

-- No digest belongs to two capabilities.
abbrev pub IsUnique : ScopedAuthRules → Type 0
IsUnique rules =
    (digest : TokenDigest) (c d : ScopedCapability)
    → Memᴰ c rules
    → Memᴰ d rules
    → Memᴰ digest c.tokens
    → Memᴰ digest d.tokens
    → c ≡ d

pub not_in_nil {ℓ} : {A : Type ℓ} {a : A} → ¬ Memᴰ a []
not_in_nil h = elim h [ ]

unseen : (set : List Text) (s : Text) → seen set s ≡ false → ¬ Memᴰ s set
unseen set s h m = let found = any_complete (text_eq s) m ((text_eq_iff s s).1 refl) in ground arith

module _ (p : Primitives) where
  -- The digests of the tokens are new to the set, and in the set that comes out.
  record AreNew (tokens before after : List TokenDigest) : Type 0 where
    fresh : (d : TokenDigest) → Memᴰ d tokens → ¬ Memᴰ d before
    kept : (d : TokenDigest) → Memᴰ d before → Memᴰ d after
    added : (d : TokenDigest) → Memᴰ d tokens → Memᴰ d after

  cons-AreNew :
      (digest : TokenDigest) (tokens before after : List TokenDigest)
      → ¬ Memᴰ digest before
      → AreNew tokens (digest ∷ before) after
      → AreNew (digest ∷ tokens) before after
  cons-AreNew digest tokens before after new r = record {
    fresh = λ d m was. elim m [
      | Memᴰ.head e ↦ new (subst (λ x. Memᴰ x before) e was)
      | Memᴰ.tail m' ↦ r.fresh d m' (Memᴰ.tail was)
    ];
    kept = λ d was. r.kept d (Memᴰ.tail was);
    added = λ d m. elim m [ Memᴰ.head e ↦ r.kept d (Memᴰ.head e) | Memᴰ.tail m' ↦ r.added d m' ];
  }

  read_tokens-AreNew :
      (index : ℕ) (before : List TokenDigest) (raw : List Text) (tokens after : List TokenDigest)
      → read_tokens p index before raw ≡ ok (tokens, after)
      → AreNew tokens before after
  unfolding read_tokens
  read_tokens-AreNew index before [] tokens after h =
      subst (λ r. AreNew r.0 before r.1) (ok_injective h)
        (record {
          fresh = λ d m. absurd (not_in_nil m);
          kept = λ d m. m;
          added = λ d m. absurd (not_in_nil m);
        })
  read_tokens-AreNew index before (token ∷ raw) tokens after h =
      let (_, _, h₁) = >>=-eq-ok (validate_scoped_token index token) _ h in
      let (_, new, h₂) =
        >>=-eq-ok (bail_if (seen before (digest_of p token)) duplicate_token) _ h₁ in
      let ((rest, after'), e, h₃) =
        >>=-eq-ok (read_tokens p index (digest_of p token ∷ before) raw) _ h₂ in
      subst (λ r. AreNew r.0 before r.1) (ok_injective h₃)
        (cons-AreNew (digest_of p token) rest before after'
          (unseen before (digest_of p token) (bail_if-eq-ok _ duplicate_token new))
          (read_tokens-AreNew index (digest_of p token ∷ before) raw rest after' e))

  -- No digest of the capabilities is in the set.
  abbrev AllFresh : ScopedAuthRules → List TokenDigest → Type 0
  AllFresh rules before =
      (digest : TokenDigest) (c : ScopedCapability)
      → Memᴰ c rules
      → Memᴰ digest c.tokens
      → ¬ Memᴰ digest before

  cons-AllFresh :
      (c : ScopedCapability) (rules : ScopedAuthRules) (before after : List TokenDigest)
      → AreNew c.tokens before after
      → AllFresh rules after
      → AllFresh (c ∷ rules) before
  cons-AllFresh c rules before after new later digest d m at_d was = elim m [
    | Memᴰ.head e ↦
        new.fresh digest (subst (λ (x : ScopedCapability). Memᴰ digest x.tokens) e at_d) was
    | Memᴰ.tail m' ↦ later digest d m' at_d (new.kept digest was)
  ]

  cons-IsUnique :
      (c : ScopedCapability) (rules : ScopedAuthRules) (before after : List TokenDigest)
      → AreNew c.tokens before after
      → AllFresh rules after
      → IsUnique rules
      → IsUnique (c ∷ rules)
  cons-IsUnique c rules before after new later unique digest d e (Memᴰ.head h) (Memᴰ.head k) at_d
        at_e =
      h ∙ sym k
  cons-IsUnique c rules before after new later unique digest d e (Memᴰ.head h) (Memᴰ.tail k) at_d
        at_e =
      absurd (
        later digest e k at_e
          (new.added digest (subst (λ (x : ScopedCapability). Memᴰ digest x.tokens) h at_d)))
  cons-IsUnique c rules before after new later unique digest d e (Memᴰ.tail h) (Memᴰ.head k) at_d
        at_e =
      absurd (
        later digest d h at_d
          (new.added digest (subst (λ (x : ScopedCapability). Memᴰ digest x.tokens) k at_e)))
  cons-IsUnique c rules before after new later unique digest d e (Memᴰ.tail h) (Memᴰ.tail k) at_d
        at_e =
      unique digest d e h k at_d at_e

  read_capabilities-IsUnique :
      (index : ℕ) (names : List Text) (before : List TokenDigest) (total : ℕ)
      (raw : List RawCapability) (rules : ScopedAuthRules)
      → read_capabilities p index names before total raw ≡ ok rules
      → AllFresh rules before × IsUnique rules
  unfolding read_capabilities
  read_capabilities-IsUnique index names before total [] rules h =
      subst (λ r. AllFresh r before × IsUnique r) (ok_injective h)
        (λ digest c m. absurd (not_in_nil m), λ digest c d m. absurd (not_in_nil m))
  read_capabilities-IsUnique index names before total (raw ∷ raws) rules h =
      let total' = saturating_add total (length raw.tokens) in
      let (_, _, h₁) = >>=-eq-ok (bail_if (is_empty (trim raw.name)) (empty_name index)) _ h in
      let (_, _, h₂) =
        >>=-eq-ok (bail_if (not (text_eq (trim raw.name) raw.name)) (padded_name index)) _ h₁ in
      let (_, _, h₃) = >>=-eq-ok (bail_if (seen names raw.name) duplicate_name) _ h₂ in
      let (_, _, h₄) = >>=-eq-ok (bail_if (is_empty raw.tokens) (no_tokens index)) _ h₃ in
      let (_, _, h₅) = >>=-eq-ok (bail_if (ltb max_auth_tokens total') too_many_tokens) _ h₄ in
      let ((tokens, after), e, h₆) = >>=-eq-ok (read_tokens p index before raw.tokens) _ h₅ in
      let (selector_rules, _, h₇) = >>=-eq-ok (read_rules p index raw) _ h₆ in
      let (rest, e', h₈) =
        >>=-eq-ok (read_capabilities p (index + 1) (raw.name ∷ names) after total' raws) _ h₇ in
      let capability : ScopedCapability = record {
        tokens = tokens;
        selector_rules = selector_rules;
      } in
      let new = read_tokens-AreNew index before raw.tokens tokens after e in
      let (later, unique) =
        read_capabilities-IsUnique (index + 1) (raw.name ∷ names) after total' raws rest e' in
      subst (λ r. AllFresh r before × IsUnique r) (ok_injective h₈)
        (
          cons-AllFresh capability rest before after new later,
          cons-IsUnique capability rest before after new later unique,
        )

  -- In the rules of an accepted policy no token's digest belongs to two capabilities.
  pub rules_from-IsUnique :
      (raw : RawAuthPolicy) (rules : ScopedAuthRules) → rules_from p raw ≡ ok rules → IsUnique rules
  unfolding rules_from
  rules_from-IsUnique raw rules h =
      let (_, _, h₁) =
        >>=-eq-ok (bail_if (not (raw.version == 1)) (unsupported_version raw.version)) _ h in
      let (_, _, h₂) = >>=-eq-ok (bail_if (is_empty raw.capabilities) no_capability) _ h₁ in
      let (_, _, h₃) =
        >>=-eq-ok
          (bail_if (ltb max_auth_capabilities (length raw.capabilities)) too_many_capabilities) _
          h₂ in
      (read_capabilities-IsUnique 0 [] [] 0 raw.capabilities rules h₃).1
