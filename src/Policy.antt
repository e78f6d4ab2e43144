-- ===== src/Policy.antt =====
-- The selector policy of crates/vaultwarden-eso-provider/src/main.rs: its allow list, the sources
-- and files that it is read from, and its reload.
pub mod Entries
pub mod Decisions
pub mod Reload
use vaultwarden_eso_provider.Prelude.{
  ℕ, ◌+◌, ◌*◌, String, Bool, true, false, not, ◌&&◌, ◌||◌, Option, none, some, List, [], ◌∷◌, ◌++◌,
  Result, ok, err, ◌>>=◌, ◌>>◌, map_err, ok_or, bail_if, ltb, if◌then◌else◌, length, take, is_empty,
  any, is_some,
}
use vaultwarden_eso_provider.Text.{Text, codes, text_eq, trim, starts_with, split, lines}
use vaultwarden_eso_provider.Utf8.{Bytes, from_utf8}
use vaultwarden_eso_provider.Core.{ValidationError, require_non_empty}

pub data PolicyRules : Type 0 where
  allow_all : PolicyRules
  allow_list : (allowed_keys allowed_key_prefixes : List Text) → PolicyRules

unfoldable pub allows : PolicyRules → Text → Bool
allows allow_all key = true
allows (allow_list allowed_keys allowed_key_prefixes) key =
    any (λ allowed_key. text_eq allowed_key key) allowed_keys
    || any (λ prefix. starts_with key prefix) allowed_key_prefixes

unfoldable pub counts : PolicyRules → ℕ × ℕ
counts allow_all = (0, 0)
counts (allow_list allowed_keys allowed_key_prefixes) =
    (length allowed_keys, length allowed_key_prefixes)

-- The messages of the source as constructors, with the paths and names that they print.
pub data PolicyError : Type 0 where
  policy_missing policy_conflict zero_file_entries zero_entries : PolicyError
  open_failed read_failed file_too_large : String → Text → PolicyError
  validation : ValidationError → PolicyError

-- The bytes behind a path, where it can be opened.
abbrev pub Files : Type 0
Files = Text → Option Bytes

abbrev pub max_policy_file_bytes : ℕ
max_policy_file_bytes = 4 * 1024 * 1024

-- The pieces of one line between its commas.
unfoldable pub piece_entries : List Text → List Text
piece_entries [] = []
piece_entries (raw ∷ pieces) =
    let rest = piece_entries pieces in if is_empty (trim raw) then rest else trim raw ∷ rest

unfoldable pub line_entries : Text → List Text
unfolding piece_entries
line_entries raw =
    let line = trim raw in
    if is_empty line || starts_with line (codes "#") then [] else piece_entries (split b',' line)

unfoldable pub lines_entries : List Text → List Text
unfolding line_entries
lines_entries [] = []
lines_entries (line ∷ rest) = line_entries line ++ lines_entries rest

unfoldable pub normalize_policy_entries : String → List Text → Result ValidationError (List Text)
normalize_policy_entries name [] = ok []
normalize_policy_entries name (entry ∷ entries) = do
  require_non_empty (trim entry) name
  rest ← normalize_policy_entries name entries
  ok (trim entry ∷ rest)

pub record PolicySources : Type 0 where
  pub inline_keys : List Text
  pub inline_key_prefixes : List Text
  pub keys_file : Option Text
  pub key_prefixes_file : Option Text

unfoldable pub has_file : PolicySources → Bool
has_file s = is_some s.keys_file || is_some s.key_prefixes_file

-- The arguments that the policy is built from.
pub record PolicyArgs : Type 0 where
  pub allowed_keys : List Text
  pub allowed_key_prefixes : List Text
  pub allowed_keys_file : Option Text
  pub allowed_key_prefixes_file : Option Text
  pub allow_all_selectors : Bool

pub record SelectorPolicy : Type 0 where
  pub rules : PolicyRules
  pub sources : PolicySources

-- The derived equality of `PolicyRules`.
unfoldable pub texts_eq : List Text → List Text → Bool
texts_eq [] [] = true
texts_eq (s ∷ ss) (t ∷ ts) = text_eq s t && texts_eq ss ts
texts_eq _ _ = false

unfoldable pub rules_eq : PolicyRules → PolicyRules → Bool
rules_eq allow_all allow_all = true
rules_eq (allow_list keys prefixes) (allow_list keys' prefixes') =
    texts_eq keys keys' && texts_eq prefixes prefixes'
rules_eq _ _ = false

-- What a reload does with the rules that the sources evaluate to.
unfoldable pub swap_rules :
    SelectorPolicy → Result PolicyError PolicyRules → Result PolicyError Bool × SelectorPolicy
swap_rules policy (err e) = (err e, policy)
swap_rules policy (ok next) =
    if rules_eq policy.rules next
    then (ok false, policy)
    else (ok true, record policy { rules = next })

module _ (files : Files) where
  -- The file is read up to one byte past the limit; a text that is not UTF-8 fails to read.
  unfoldable pub read_policy_file : String → Text → Result PolicyError (List Text)
  read_policy_file name path = do
    bytes ← ok_or (open_failed name path) (files path)
    let head = take (max_policy_file_bytes + 1) bytes
    contents ← ok_or (read_failed name path) (from_utf8 head)
    bail_if (ltb max_policy_file_bytes (length head)) (file_too_large name path)
    ok (lines_entries (lines contents))

  unfoldable pub read_if_some : String → Option Text → Result PolicyError (List Text)
  read_if_some name none = ok []
  read_if_some name (some path) = read_policy_file name path

  -- `PolicySources::evaluate`.
  unfoldable pub evaluate : PolicySources → Result PolicyError PolicyRules
  evaluate s = do
    from_keys_file ← read_if_some "allowed_key" s.keys_file
    from_prefixes_file ← read_if_some "allowed_key_prefix" s.key_prefixes_file
    let allowed_keys = s.inline_keys ++ from_keys_file
    let allowed_key_prefixes = s.inline_key_prefixes ++ from_prefixes_file
    bail_if (has_file s && is_empty allowed_keys && is_empty allowed_key_prefixes) zero_file_entries
    bail_if (is_empty allowed_keys && is_empty allowed_key_prefixes) zero_entries
    ok (allow_list allowed_keys allowed_key_prefixes)

  -- `SelectorPolicy::from_args`.
  unfoldable pub from_args : PolicyArgs → Result PolicyError SelectorPolicy
  from_args args =
      let has_inline_entries =
        not (is_empty args.allowed_keys) || not (is_empty args.allowed_key_prefixes) in
      let has_file_entries =
        is_some args.allowed_keys_file || is_some args.allowed_key_prefixes_file in
      do
        bail_if (not args.allow_all_selectors && not has_inline_entries && not has_file_entries)
            policy_missing
        bail_if (args.allow_all_selectors && (has_inline_entries || has_file_entries))
            policy_conflict
        keys ← map_err validation (normalize_policy_entries "allowed_key" args.allowed_keys)
        prefixes ←
            map_err validation
              (normalize_policy_entries "allowed_key_prefix" args.allowed_key_prefixes)
        let sources : PolicySources = record {
          inline_keys = keys;
          inline_key_prefixes = prefixes;
          keys_file = args.allowed_keys_file;
          key_prefixes_file = args.allowed_key_prefixes_file;
        }
        rules ← if args.allow_all_selectors then ok allow_all else evaluate sources
        ok (record { rules = rules; sources = sources })

  -- `SelectorPolicy::reload`.
  unfoldable pub reload : SelectorPolicy → Result PolicyError Bool × SelectorPolicy
  reload policy =
      if not (has_file policy.sources)
      then (ok false, policy)
      else swap_rules policy (evaluate policy.sources)
