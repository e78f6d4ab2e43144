-- ===== src/Policy/Reload.antt =====
-- The policy that is served: after the start, and after any reload.
use vaultwarden_eso_provider.Prelude.{
  ◌≡◌, ◌≢◌, ◌⊎◌, Bool, true, false, not, ◌&&◌, ◌||◌, List, [], ◌∷◌, ◌++◌, arith, Result, ok, err,
  >>=-eq-ok, ok_injective, map_err, map_err-eq-ok, bail_if, bail_if-eq-ok, All, All-append,
  Bool-cases, inl, inr, is_empty, refl, if◌then◌else◌, ap, ap₂, is_some, subst,
}
use vaultwarden_eso_provider.Text.{Text}
use vaultwarden_eso_provider.Text.Laws.{text_eq_iff}
use vaultwarden_eso_provider.Policy.{
  Files, PolicyRules, PolicyError, PolicyArgs, SelectorPolicy, PolicySources, allow_all, allow_list,
  evaluate, from_args, reload, swap_rules, has_file, texts_eq, rules_eq, read_if_some,
  zero_file_entries, zero_entries, normalize_policy_entries, validation, policy_missing,
  policy_conflict,
}
use vaultwarden_eso_provider.Policy.Entries.{
  IsEntry, normalize_policy_entries-IsEntry, read_if_some-IsEntry,
}

-- An allow list of entries, of which there is one at least.
abbrev pub IsAllowList : PolicyRules → Type 0
IsAllowList allow_all = ⊥
IsAllowList (allow_list keys prefixes) =
    All IsEntry keys × All IsEntry prefixes × ((keys ≢ []) ⊎ (prefixes ≢ []))

abbrev pub HasEntries : PolicySources → Type 0
HasEntries s = All IsEntry s.inline_keys × All IsEntry s.inline_key_prefixes

-- The policy restricts its keys, from sources that do.
abbrev pub IsRestricted : SelectorPolicy → Type 0
IsRestricted policy = IsAllowList policy.rules × HasEntries policy.sources

-- Everything is allowed, as the arguments say, which then name no entry and no file; or the policy
-- is restricted.
abbrev pub HasStarted : PolicyArgs → SelectorPolicy → Type 0
HasStarted args policy =
    ((args.allow_all_selectors ≡ true)
      × (policy.rules ≡ allow_all)
      × (has_file policy.sources ≡ false)
      × (args.allowed_keys ≡ [])
      × (args.allowed_key_prefixes ≡ []))
    ⊎ ((args.allow_all_selectors ≡ false) × IsRestricted policy)

texts_eq_sound : (ss ts : List Text) → texts_eq ss ts ≡ true → ss ≡ ts
unfolding texts_eq
texts_eq_sound [] [] h = refl
texts_eq_sound [] (t ∷ ts) h = cc
texts_eq_sound (s ∷ ss) [] h = cc
texts_eq_sound (s ∷ ss) (t ∷ ts) h =
    ap₂ (λ x xs. x ∷ xs) ((text_eq_iff s t).0 (ground arith)) (texts_eq_sound ss ts (ground arith))

rules_eq_sound : (r r' : PolicyRules) → rules_eq r r' ≡ true → r ≡ r'
unfolding rules_eq
rules_eq_sound allow_all allow_all h = refl
rules_eq_sound allow_all (allow_list keys prefixes) h = cc
rules_eq_sound (allow_list keys prefixes) allow_all h = cc
rules_eq_sound (allow_list keys prefixes) (allow_list keys' prefixes') h =
    ap₂ allow_list (texts_eq_sound keys keys' (ground arith))
      (texts_eq_sound prefixes prefixes' (ground arith))

some_entry :
    (keys prefixes : List Text)
    → is_empty keys && is_empty prefixes ≡ false
    → (keys ≢ []) ⊎ (prefixes ≢ [])
some_entry [] [] h = cc
some_entry [] (p ∷ prefixes) h = inr (λ e. cc)
some_entry (k ∷ keys) prefixes h = inl (λ e. cc)

module _ (files : Files) where
  evaluate-IsAllowList :
      (s : PolicySources) (rules : PolicyRules)
      → HasEntries s
      → evaluate files s ≡ ok rules
      → IsAllowList rules
  unfolding evaluate
  evaluate-IsAllowList s rules (inline_keys, inline_prefixes) h =
      let (keys, e₁, h₁) = >>=-eq-ok (read_if_some files "allowed_key" s.keys_file) _ h in
      let (prefixes, e₂, h₂) =
        >>=-eq-ok (read_if_some files "allowed_key_prefix" s.key_prefixes_file) _ h₁ in
      let none_left =
        is_empty (s.inline_keys ++ keys) && is_empty (s.inline_key_prefixes ++ prefixes) in
      let (_, _, h₃) =
        >>=-eq-ok
          (bail_if
            (has_file s
              && is_empty (s.inline_keys ++ keys)
              && is_empty (s.inline_key_prefixes ++ prefixes))
            zero_file_entries)
          _ h₂ in
      let (_, left, h₄) = >>=-eq-ok (bail_if none_left zero_entries) _ h₃ in
      rw (← ok_injective h₄) (
        All-append IsEntry s.inline_keys keys inline_keys
            (read_if_some-IsEntry files "allowed_key" s.keys_file keys e₁),
        All-append IsEntry s.inline_key_prefixes prefixes inline_prefixes
            (read_if_some-IsEntry files "allowed_key_prefix" s.key_prefixes_file prefixes e₂),
        some_entry (s.inline_keys ++ keys) (s.inline_key_prefixes ++ prefixes)
            (bail_if-eq-ok none_left zero_entries left),
      )

  -- The two ways to start, from the checks that were passed.
  started :
      (args : PolicyArgs) (sources : PolicySources) (rules : PolicyRules)
      → sources.keys_file ≡ args.allowed_keys_file
      → sources.key_prefixes_file ≡ args.allowed_key_prefixes_file
      → HasEntries sources
      → (args.allow_all_selectors
          && ((not (is_empty args.allowed_keys) || not (is_empty args.allowed_key_prefixes))
              || (is_some args.allowed_keys_file || is_some args.allowed_key_prefixes_file)))
        ≡ false
      → (if args.allow_all_selectors then ok allow_all else evaluate files sources) ≡ ok rules
      → HasStarted args (record { rules = rules; sources = sources })
  unfolding has_file
  started args sources rules f₁ f₂ entries conflict h = elim (Bool-cases args.allow_all_selectors) [
    | inl everything ↦ inl (ground arith)
    | inr restricted ↦
        inr (restricted, (evaluate-IsAllowList sources rules entries (rw restricted at h), entries))
  ]

  -- A policy that starts up either allows everything, which the arguments say and then name no
  -- entry and no file, or restricts its keys to an allow list that is not empty and holds no
  -- empty key or prefix.
  pub from_args-IsRestricted :
      (args : PolicyArgs) (policy : SelectorPolicy)
      → from_args files args ≡ ok policy
      → HasStarted args policy
  unfolding from_args
  from_args-IsRestricted args policy h =
      let has_inline_entries =
        not (is_empty args.allowed_keys) || not (is_empty args.allowed_key_prefixes) in
      let has_file_entries =
        is_some args.allowed_keys_file || is_some args.allowed_key_prefixes_file in
      let all' = args.allow_all_selectors in
      let (_, _, h₁) =
        >>=-eq-ok
          (bail_if (not all' && not has_inline_entries && not has_file_entries) policy_missing) _
          h in
      let (_, conflict, h₂) =
        >>=-eq-ok (bail_if (all' && (has_inline_entries || has_file_entries)) policy_conflict) _
          h₁ in
      let (keys, e₁, h₃) =
        >>=-eq-ok (map_err validation (normalize_policy_entries "allowed_key" args.allowed_keys)) _
          h₂ in
      let (prefixes, e₂, h₄) =
        >>=-eq-ok
          (map_err validation
            (normalize_policy_entries "allowed_key_prefix" args.allowed_key_prefixes))
          _ h₃ in
      let sources : PolicySources = record {
        inline_keys = keys;
        inline_key_prefixes = prefixes;
        keys_file = args.allowed_keys_file;
        key_prefixes_file = args.allowed_key_prefixes_file;
      } in
      let (rules, e₃, h₅) =
        >>=-eq-ok (if all' then ok allow_all else evaluate files sources) _ h₄ in
      let entries : HasEntries sources = (
        normalize_policy_entries-IsEntry "allowed_key" args.allowed_keys keys
            (map_err-eq-ok validation _ e₁),
        normalize_policy_entries-IsEntry "allowed_key_prefix" args.allowed_key_prefixes prefixes
            (map_err-eq-ok validation _ e₂),
      ) in
      subst (HasStarted args) (ok_injective h₅) (
        started args sources rules refl refl entries
          (bail_if-eq-ok (all' && (has_inline_entries || has_file_entries)) policy_conflict
            conflict)
          e₃)

  swap_rules-IsRestricted :
      (policy : SelectorPolicy) (next : Result PolicyError PolicyRules)
      → IsRestricted policy
      → ((rules : PolicyRules) → next ≡ ok rules → IsAllowList rules)
      → IsRestricted (swap_rules policy next).1
  unfolding swap_rules
  swap_rules-IsRestricted policy (err e) r h = r
  swap_rules-IsRestricted policy (ok next) (r, s) h =
      elim (Bool-cases (rules_eq policy.rules next)) [
        | inl same ↦ rw same (r, s)
        | inr changed ↦ rw changed (h next refl, s)
      ]

  -- Whatever the files hold at a reload, a restricted policy stays restricted.
  pub reload-IsRestricted :
      (policy : SelectorPolicy) → IsRestricted policy → IsRestricted (reload files policy).1
  unfolding reload
  reload-IsRestricted policy r = elim (Bool-cases (has_file policy.sources)) [
    | inl some_file ↦ rw some_file (
        swap_rules-IsRestricted policy (evaluate files policy.sources) r
          (λ rules e. evaluate-IsAllowList policy.sources rules r.1 e))
    | inr no_file ↦ rw no_file r
  ]

  -- Where a file is configured, a reload that fails keeps the policy as it was and returns the
  -- error, and one that succeeds leaves exactly the rules that the files now give.
  pub reload_cases :
      (policy : SelectorPolicy)
      → has_file policy.sources ≡ true
      → ((e : PolicyError)
          → evaluate files policy.sources ≡ err e
          → reload files policy ≡ (err e, policy))
        × ((rules : PolicyRules)
            → evaluate files policy.sources ≡ ok rules
            → (changed : Bool) × (reload files policy
                ≡ (ok changed, record policy { rules = rules })))
  unfolding reload swap_rules
  reload_cases policy h = (
    λ e failed. rw (h, failed),
    λ rules given. elim (Bool-cases (rules_eq policy.rules rules)) [
      | inl same ↦ (
        false,
        rw (h, given, same)
            (ap (λ r. (ok false, record policy { rules = r }))
              (rules_eq_sound policy.rules rules same)),
      )
      | inr changed ↦ (true, rw (h, given, changed))
    ],
  )
