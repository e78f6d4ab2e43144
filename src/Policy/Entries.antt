-- ===== src/Policy/Entries.antt =====
-- The entries of a policy are trimmed and never empty, wherever they come from.
use vaultwarden_eso_provider.Prelude.{
  ◌≡◌, ◌≢◌, String, false, Option, none, some, List, [], ◌∷◌, arith, ok, >>=-eq-ok, All, All-append,
  Bool-cases, inl, inr, is_empty, ok_or, ok_injective, ltb, length, ◌+◌, take, bail_if, ◌||◌,
}
use vaultwarden_eso_provider.Text.{Text, codes, trim, split, lines, starts_with}
use vaultwarden_eso_provider.Text.Laws.{IsTrimmed, trim-IsTrimmed}
use vaultwarden_eso_provider.Utf8.{from_utf8}
use vaultwarden_eso_provider.Core.{require_non_empty, is_blank}
use vaultwarden_eso_provider.Policy.{
  Files, piece_entries, line_entries, lines_entries, normalize_policy_entries, read_policy_file,
  read_if_some, max_policy_file_bytes, open_failed, read_failed, file_too_large,
}

-- An entry that an empty text, which every key starts with, is not.
abbrev pub IsEntry : Text → Type 0
IsEntry e = IsTrimmed e × (e ≢ [])

trim-IsEntry : (s : Text) → is_empty (trim s) ≡ false → IsEntry (trim s)
trim-IsEntry s h = (trim-IsTrimmed s, λ e. ground arith)

piece_entries-IsEntry : (pieces : List Text) → All IsEntry (piece_entries pieces)
unfolding piece_entries
piece_entries-IsEntry [] = tt
piece_entries-IsEntry (raw ∷ pieces) = elim (Bool-cases (is_empty (trim raw))) [
  | inl empty ↦ rw empty (piece_entries-IsEntry pieces)
  | inr some_text ↦ rw some_text (trim-IsEntry raw some_text, piece_entries-IsEntry pieces)
]

line_entries-IsEntry : (line : Text) → All IsEntry (line_entries line)
unfolding line_entries
line_entries-IsEntry line =
    elim (Bool-cases (is_empty (trim line) || starts_with (trim line) (codes "#"))) [
      | inl comment ↦ rw comment tt
      | inr listed ↦ rw listed (piece_entries-IsEntry (split b',' (trim line)))
    ]

lines_entries-IsEntry : (ls : List Text) → All IsEntry (lines_entries ls)
unfolding lines_entries
lines_entries-IsEntry [] = tt
lines_entries-IsEntry (line ∷ rest) =
    All-append IsEntry (line_entries line) (lines_entries rest) (line_entries-IsEntry line)
      (lines_entries-IsEntry rest)

required-IsEntry :
    (entry : Text) (name : String)
    → require_non_empty (trim entry) name ≡ ok tt
    → IsEntry (trim entry)
unfolding require_non_empty is_blank
required-IsEntry entry name h = trim-IsEntry entry (ground (arith, trim-IsTrimmed entry))

pub normalize_policy_entries-IsEntry :
    (name : String) (entries out : List Text)
    → normalize_policy_entries name entries ≡ ok out
    → All IsEntry out
unfolding normalize_policy_entries
normalize_policy_entries-IsEntry name [] out h = rw (← ok_injective h) tt
normalize_policy_entries-IsEntry name (entry ∷ entries) out h =
    let (_, e₁, h₁) = >>=-eq-ok (require_non_empty (trim entry) name) _ h in
    let (rest, e₂, h₂) = >>=-eq-ok (normalize_policy_entries name entries) _ h₁ in
    let ih = normalize_policy_entries-IsEntry name entries rest e₂ in
    rw (← ok_injective h₂) (required-IsEntry entry name e₁, ih)

module _ (files : Files) where
  read_policy_file-IsEntry :
      (name : String) (path : Text) (out : List Text)
      → read_policy_file files name path ≡ ok out
      → All IsEntry out
  unfolding read_policy_file
  read_policy_file-IsEntry name path out h =
      let (bytes, _, h₁) = >>=-eq-ok (ok_or (open_failed name path) (files path)) _ h in
      let (contents, _, h₂) =
        >>=-eq-ok
          (ok_or (read_failed name path) (from_utf8 (take (max_policy_file_bytes + 1) bytes))) _
          h₁ in
      let (_, _, h₃) =
        >>=-eq-ok
          (bail_if (ltb max_policy_file_bytes (length (take (max_policy_file_bytes + 1) bytes)))
            (file_too_large name path))
          _ h₂ in
      rw (← ok_injective h₃) (lines_entries-IsEntry (lines contents))

  pub read_if_some-IsEntry :
      (name : String) (path : Option Text) (out : List Text)
      → read_if_some files name path ≡ ok out
      → All IsEntry out
  unfolding read_if_some
  read_if_some-IsEntry name none out h = rw (← ok_injective h) tt
  read_if_some-IsEntry name (some path) out h = read_policy_file-IsEntry name path out h
