-- ===== src/Metrics/Reading.antt =====
-- A reader of the lines with labels, as the text format of Prometheus defines them, and the lines that
-- the registry writes.
use vaultwarden_eso_provider.Prelude.{
  ℕ, zero, suc, ◌+◌, ◌≤◌, ◌<◌, ◌≡◌, refl, ap, ◌∙◌, Bool, true, false, Option, none, some, [], ◌∷◌,
  ◌++◌, arith, ◌==◌, if◌then◌else◌, All, length, length-append, append_assoc, Bool-cases, inl, inr,
  and_then, option_map,
}
use vaultwarden_eso_provider.Text.{Text, split_once, cons_first}
use vaultwarden_eso_provider.Text.Splitting.{Avoids, split_once_complete}
use vaultwarden_eso_provider.Metrics.Labels.{Labels, append_escaped_label_value, label_list}

-- A value up to the quote that ends it, and what follows the quote; the flag says that a backslash
-- stands before.
unfoldable pub read_value : Bool → Text → Option (Text × Text)
unfolding cons_first
read_value escaped [] = none
read_value true (c ∷ s) =
    let rest = read_value false s in cons_first (if c == b'n' then b'\n' else c) rest
read_value false (c ∷ s) =
    let rest = read_value false s in
    let escape = read_value true s in
    if c == b'"' then some ([], s) else if c == b'\\' then escape else cons_first c rest

abbrev pub cons_label : Text × Text → Option (Labels × Text) → Option (Labels × Text)
cons_label label none = none
cons_label label (some (labels, rest)) = some (label ∷ labels, rest)

-- A label, with its quoted value.
unfoldable pub read_quoted : Text × Text → Option ((Text × Text) × Text)
unfolding read_value
read_quoted (label, c ∷ s) =
    if c == b'"'
    then option_map (λ (value, rest). ((label, value), rest)) (read_value false s)
    else none
read_quoted (label, []) = none

-- The labels up to the brace that ends them, on fuel: a comma stands before each but the first.
unfoldable pub read_labels : ℕ → Text → Option (Labels × Text)
read_labels zero s = none
read_labels (suc fuel) [] = none
read_labels (suc fuel) (c ∷ s) =
    if c == b'}'
    then some ([], s)
    else and_then (and_then (split_once b'=' (if c == b',' then s else c ∷ s)) read_quoted)
        (λ (label, rest). cons_label label (read_labels fuel rest))

-- The labels behind a name.
unfoldable pub after_name : Text × Text → Option (Text × Labels × Text)
unfolding read_labels
after_name (name, rest) =
    option_map (λ (labels, value). (name, labels, value)) (read_labels (length rest) rest)

-- The name of a line, its labels, and what follows the brace.
unfoldable pub read_line : Text → Option (Text × Labels × Text)
unfolding after_name
read_line s = and_then (split_once b'{' s) after_name

-- A value is read back from its escape, up to the quote behind it: whatever the value holds, the
-- quote that ends it is the one that the writer put there.
read_value-escaped :
    (value rest : Text)
    → read_value false (append_escaped_label_value value ++ b'"' ∷ rest) ≡ some (value, rest)
unfolding read_value append_escaped_label_value cons_first
read_value-escaped [] rest = refl
read_value-escaped (c ∷ value) rest = elim (Bool-cases (c == b'\\')) [
  | inl backslash ↦ ground (arith, read_value-escaped value rest)
  | inr other ↦ elim (Bool-cases (c == b'"')) [
    | inl quote ↦ ground (arith, read_value-escaped value rest)
    | inr unquoted ↦ ground (arith, read_value-escaped value rest)
  ]
]

-- A label's name: it has no equals sign, brace, comma or line feed.
abbrev pub IsLabelName : Text → Type 0
IsLabelName name = Avoids b'=' name × Avoids b'}' name × Avoids b',' name × Avoids b'\n' name

-- A written label in front of a text.
abbrev label_before : Text → Text → Text → Text
label_before label value s = label ++ b'=' ∷ b'"' ∷ (append_escaped_label_value value ++ b'"' ∷ s)

read_quoted-label_before :
    (label value s : Text)
    → Avoids b'=' label
    → and_then (split_once b'=' (label_before label value s)) read_quoted ≡ some ((label, value), s)
unfolding read_quoted
read_quoted-label_before label value s h =
    let quoted = b'"' ∷ (append_escaped_label_value value ++ b'"' ∷ s) in
    let cut : split_once b'=' (label_before label value s) ≡ some (label, quoted) =
      split_once_complete b'=' label quoted h in
    rw (cut, read_value-escaped value s)

read_labels-next :
    (fuel : ℕ) (label value s : Text)
    → IsLabelName label
    → read_labels (suc fuel) (b',' ∷ label_before label value s)
      ≡ cons_label (label, value) (read_labels fuel s)
unfolding read_labels
read_labels-next fuel label value s (h, _, _, _) = rw (read_quoted-label_before label value s h)

read_labels-first :
    (fuel : ℕ) (label value s : Text)
    → IsLabelName label
    → read_labels (suc fuel) (label_before label value s)
      ≡ cons_label (label, value) (read_labels fuel s)
unfolding read_labels
read_labels-first fuel [] value s (h, _, _, _) = rw (read_quoted-label_before [] value s h)
read_labels-first fuel (d ∷ label) value s (h, (brace, _), (comma, _), _) =
    let no_brace : (d == b'}') ≡ false = ground arith in
    let no_comma : (d == b',') ≡ false = ground arith in
    rw (no_brace, no_comma, read_quoted-label_before (d ∷ label) value s h)

label_list-append :
    (is_first : Bool) (label value : Text) (labels : Labels) (s : Text)
    → (label_list is_first ((label, value) ∷ labels)) ++ s
      ≡ (if is_first then [] else b',' ∷ [])
        ++ label_before label value (label_list false labels ++ s)
unfolding label_list
label_list-append true label value labels s =
    let rest = append_escaped_label_value value ++ b'"' ∷ label_list false labels in
    rw (
      append_assoc label (b'=' ∷ b'"' ∷ rest) s,
      append_assoc (append_escaped_label_value value) (b'"' ∷ label_list false labels) s,
    )
label_list-append false label value labels s =
    let rest = append_escaped_label_value value ++ b'"' ∷ label_list false labels in
    rw (
      append_assoc label (b'=' ∷ b'"' ∷ rest) s,
      append_assoc (append_escaped_label_value value) (b'"' ∷ label_list false labels) s,
    )

read_labels-label_list :
    (fuel : ℕ) (is_first : Bool) (labels : Labels) (s : Text)
    → All (λ label. IsLabelName label.0) labels
    → length labels < fuel
    → read_labels fuel (label_list is_first labels ++ b'}' ∷ s) ≡ some (labels, s)
unfolding read_labels label_list
read_labels-label_list zero is_first labels s names h = absurd (omega arith)
read_labels-label_list (suc fuel) is_first [] s names h = refl
read_labels-label_list (suc fuel) true ((label, value) ∷ labels) s (name, names) h =
    ap (read_labels (suc fuel)) (label_list-append true label value labels (b'}' ∷ s))
    ∙ read_labels-first fuel label value (label_list false labels ++ b'}' ∷ s) name
    ∙ ap (cons_label (label, value))
        (read_labels-label_list fuel false labels s names (omega arith))
read_labels-label_list (suc fuel) false ((label, value) ∷ labels) s (name, names) h =
    ap (read_labels (suc fuel)) (label_list-append false label value labels (b'}' ∷ s))
    ∙ read_labels-next fuel label value (label_list false labels ++ b'}' ∷ s) name
    ∙ ap (cons_label (label, value))
        (read_labels-label_list fuel false labels s names (omega arith))

length-label_before : (label value s : Text) → length s < length (label_before label value s)
length-label_before label value s = omega (
  arith,
  length-append label (b'=' ∷ b'"' ∷ (append_escaped_label_value value ++ b'"' ∷ s)),
  length-append (append_escaped_label_value value) (b'"' ∷ s),
)

length-label_list :
    (is_first : Bool) (labels : Labels) (s : Text)
    → length labels + length s ≤ length (label_list is_first labels ++ s)
unfolding label_list
length-label_list is_first [] s = omega arith
length-label_list true ((label, value) ∷ labels) s = omega (
  arith,
  length-label_list false labels s,
  length-label_before label value (label_list false labels ++ s),
  ap length (label_list-append true label value labels s),
)
length-label_list false ((label, value) ∷ labels) s = omega (
  arith,
  length-label_list false labels s,
  length-label_before label value (label_list false labels ++ s),
  ap length (label_list-append false label value labels s),
)

-- A line with labels, without the line feed that ends it.
abbrev pub metric_line : Text → Labels → Text → Text
metric_line name labels value = name ++ b'{' ∷ (label_list true labels ++ b'}' ∷ b' ' ∷ value)

pub read_line-metric_line :
    (name : Text) (labels : Labels) (value : Text)
    → Avoids b'{' name
    → All (λ label. IsLabelName label.0) labels
    → read_line (metric_line name labels value) ≡ some (name, labels, b' ' ∷ value)
unfolding read_line after_name
read_line-metric_line name labels value free names =
    let tail = b' ' ∷ value in
    let body = label_list true labels ++ b'}' ∷ tail in
    let enough : length labels < length body =
      omega (arith, length-label_list true labels (b'}' ∷ tail)) in
    ap (λ o. and_then o after_name) (split_once_complete b'{' name body free)
    ∙ ap (option_map (λ (labels', value'). (name, labels', value')))
        (read_labels-label_list (length body) true labels tail names enough)
