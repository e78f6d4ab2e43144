-- ===== src/Metrics/Lines.antt =====
-- The lines of the exposition, each ended by one line feed, and a reader that takes them one by one.
use vaultwarden_eso_provider.Prelude.{
  ℕ, zero, suc, ◌+◌, ◌/◌, ◌%◌, ◌≡◌, ◌≢◌, ◌⊎◌, refl, ap, sym, ◌∙◌, Bool, true, false, Option, some,
  [], ◌∷◌, ◌++◌, arith, ◌==◌, if◌then◌else◌, All, All-append, append-nil, append_assoc, Bool-cases,
  inl, inr, and_then, option_map, ltb,
}
use vaultwarden_eso_provider.Text.{Text, split_once}
use vaultwarden_eso_provider.Text.Decimal.{digits, to_string}
use vaultwarden_eso_provider.Text.Splitting.{Avoids, split_once_complete}
use vaultwarden_eso_provider.Metrics.Labels.{
  Labels, escaped_char, append_escaped_label_value, label_list, append_labeled_metric, append_line,
}
use vaultwarden_eso_provider.Metrics.Reading.{
  IsLabelName, read_line, metric_line, read_line-metric_line,
}

-- The first line of a text, read as one with labels, and the text behind its line feed.
unfoldable pub read_metric : Text → Option ((Text × Labels × Text) × Text)
read_metric s =
    and_then (split_once b'\n' s) (λ (line, rest). option_map (λ m. (m, rest)) (read_line line))

-- A text of whole lines: it is empty or ends with a line feed.
abbrev pub IsEnded : Text → Type 0
IsEnded s = (s ≡ []) ⊎ ((t : Text) × (s ≡ t ++ b'\n' ∷ []))

pub IsEnded-append : (s t : Text) → IsEnded s → IsEnded t → IsEnded (s ++ t)
IsEnded-append s t h (inl empty) = rw (empty, append-nil s) h
IsEnded-append s t h (inr (u, e)) =
    inr (s ++ u, ap (λ w. s ++ w) e ∙ sym (append_assoc s u (b'\n' ∷ [])))

pub append_line-IsEnded : (line : Text) → IsEnded (append_line line)
unfolding append_line
append_line-IsEnded line = inr (line, refl)

pub append_labeled_metric-line :
    (name : Text) (labels : Labels) (value : Text)
    → append_labeled_metric name labels value ≡ metric_line name labels value ++ b'\n' ∷ []
unfolding append_labeled_metric
append_labeled_metric-line name labels value = sym (
    append_assoc name (b'{' ∷ (label_list true labels ++ b'}' ∷ b' ' ∷ value)) (b'\n' ∷ [])
    ∙ ap (λ s. name ++ b'{' ∷ s)
        (append_assoc (label_list true labels) (b'}' ∷ b' ' ∷ value) (b'\n' ∷ [])))

pub append_labeled_metric-IsEnded :
    (name : Text) (labels : Labels) (value : Text)
    → IsEnded (append_labeled_metric name labels value)
append_labeled_metric-IsEnded name labels value =
    inr (metric_line name labels value, append_labeled_metric-line name labels value)

escaped_char-Avoids : (c : ℕ) → Avoids b'\n' (escaped_char c)
escaped_char-Avoids c = elim (Bool-cases (c == b'\\')) [
  | inl backslash ↦ rw backslash (omega arith, (omega arith, tt))
  | inr plain ↦ elim (Bool-cases (c == b'"')) [
    | inl quote ↦ rw (plain, quote) (omega arith, (omega arith, tt))
    | inr unquoted ↦ elim (Bool-cases (c == b'\n')) [
      | inl feed ↦ rw (plain, unquoted, feed) (omega arith, (omega arith, tt))
      | inr other ↦ rw (plain, unquoted, other) (ground arith, tt)
    ]
  ]
]

append_escaped_label_value-Avoids : (value : Text) → Avoids b'\n' (append_escaped_label_value value)
unfolding append_escaped_label_value
append_escaped_label_value-Avoids [] = tt
append_escaped_label_value-Avoids (c ∷ value) =
    All-append (λ d. d ≢ b'\n') (escaped_char c) (append_escaped_label_value value)
      (escaped_char-Avoids c) (append_escaped_label_value-Avoids value)

separator-Avoids : (is_first : Bool) → Avoids b'\n' (if is_first then [] else b',' ∷ [])
separator-Avoids true = tt
separator-Avoids false = (omega arith, tt)

label_list-Avoids :
    (is_first : Bool) (labels : Labels)
    → All (λ label. IsLabelName label.0) labels
    → Avoids b'\n' (label_list is_first labels)
unfolding label_list
label_list-Avoids is_first [] h = tt
label_list-Avoids is_first ((label, value) ∷ labels) ((_, _, _, named), names) =
    All-append (λ d. d ≢ b'\n') (if is_first then [] else b',' ∷ [])
      (label ++ b'=' ∷ b'"' ∷ (append_escaped_label_value value ++ b'"' ∷ label_list false labels))
      (separator-Avoids is_first)
      (All-append (λ d. d ≢ b'\n') label
        (b'=' ∷ b'"' ∷ (append_escaped_label_value value ++ b'"' ∷ label_list false labels)) named
        (
          omega arith,
          (
            omega arith,
            All-append (λ d. d ≢ b'\n') (append_escaped_label_value value)
                (b'"' ∷ label_list false labels) (append_escaped_label_value-Avoids value)
                (omega arith, label_list-Avoids false labels names),
          ),
        ))

pub metric_line-Avoids :
    (name : Text) (labels : Labels) (value : Text)
    → Avoids b'\n' name
    → All (λ label. IsLabelName label.0) labels
    → Avoids b'\n' value
    → Avoids b'\n' (metric_line name labels value)
metric_line-Avoids name labels value h names k =
    All-append (λ d. d ≢ b'\n') name (b'{' ∷ (label_list true labels ++ b'}' ∷ b' ' ∷ value)) h
      (
        omega arith,
        All-append (λ d. d ≢ b'\n') (label_list true labels) (b'}' ∷ b' ' ∷ value)
            (label_list-Avoids true labels names) (omega arith, (omega arith, k)),
      )

digits-Avoids : (fuel n : ℕ) (text : Text) → Avoids b'\n' text → Avoids b'\n' (digits fuel n text)
unfolding digits
digits-Avoids zero n text h = h
digits-Avoids (suc fuel) n text h = elim (Bool-cases (ltb n 10)) [
  | inl last ↦ rw last (omega arith, h)
  | inr more ↦ rw more (digits-Avoids fuel (n / 10) ((b'0' + n % 10) ∷ text) (omega arith, h))
]

pub to_string-Avoids : (n : ℕ) → Avoids b'\n' (to_string n)
unfolding to_string
to_string-Avoids n = digits-Avoids (n + 1) n [] tt

-- What a label holds cannot end its line: with a name that has no brace, label names that have no
-- equals sign, brace or comma, and no line feed in these or in the value of the line, the first line
-- of what is written is read back as the name, each label with its value, whatever that holds, and
-- the value of the line; and what was written behind it is left.
pub read_metric-append_labeled_metric :
    (name : Text) (labels : Labels) (value rest : Text)
    → Avoids b'{' name
    → Avoids b'\n' name
    → All (λ label. IsLabelName label.0) labels
    → Avoids b'\n' value
    → read_metric (append_labeled_metric name labels value ++ rest)
      ≡ some ((name, labels, b' ' ∷ value), rest)
unfolding read_metric
read_metric-append_labeled_metric name labels value rest free one_line names h =
    let line = metric_line name labels value in
    let whole : append_labeled_metric name labels value ++ rest ≡ line ++ b'\n' ∷ rest =
      ap (λ s. s ++ rest) (append_labeled_metric-line name labels value)
      ∙ append_assoc line (b'\n' ∷ []) rest in
    ap read_metric whole
    ∙ ap (λ o. and_then o (λ (line', rest'). option_map (λ m. (m, rest')) (read_line line')))
        (split_once_complete b'\n' line rest
          (metric_line-Avoids name labels value one_line names h))
    ∙ ap (option_map (λ m. (m, rest))) (read_line-metric_line name labels value free names)
