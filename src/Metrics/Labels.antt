-- ===== src/Metrics/Labels.antt =====
-- The lines with labels: `append_labeled_metric`, the escape of a label's value, and the lines of a
-- histogram. Each function returns what its namesake appends to the output.
use vaultwarden_eso_provider.Prelude.{
  ℕ, Bool, true, false, List, [], ◌∷◌, ◌++◌, ◌==◌, if◌then◌else◌,
}
use vaultwarden_eso_provider.Text.{Text, codes}
use vaultwarden_eso_provider.Text.Decimal.{to_string}
use vaultwarden_eso_provider.Metrics.{Floats, HistogramValues, histogram_buckets}

abbrev pub escaped_char : ℕ → Text
escaped_char c =
    if c == b'\\'
    then b'\\' ∷ b'\\' ∷ []
    else if c == b'"'
    then b'\\' ∷ b'"' ∷ []
    else if c == b'\n'
    then b'\\' ∷ b'n' ∷ []
    else c ∷ []

unfoldable pub append_escaped_label_value : Text → Text
append_escaped_label_value [] = []
append_escaped_label_value (c ∷ value) = escaped_char c ++ append_escaped_label_value value

abbrev pub Labels : Type 0
Labels = List (Text × Text)

-- The loop over the labels; the first one has no comma before it.
unfoldable pub label_list : Bool → Labels → Text
unfolding append_escaped_label_value
label_list is_first [] = []
label_list is_first ((label, value) ∷ labels) =
    (if is_first then [] else b',' ∷ [])
    ++ (label ++ b'=' ∷ b'"' ∷ (append_escaped_label_value value ++ b'"' ∷ label_list false labels))

unfoldable pub append_labeled_metric : Text → Labels → Text → Text
unfolding label_list
append_labeled_metric name labels value =
    name ++ b'{' ∷ (label_list true labels ++ b'}' ∷ b' ' ∷ (value ++ b'\n' ∷ []))

unfoldable pub label_with_extra : Labels → Text × Text → Labels
label_with_extra labels extra = labels ++ extra ∷ []

unfoldable pub append_line : Text → Text
append_line line = line ++ b'\n' ∷ []

module _ (f : Floats) where
  -- The lines of the buckets, bound by bound.
  unfoldable pub bucket_lines : Text → Labels → List ℕ → List ℕ → Text
  unfolding append_labeled_metric label_with_extra to_string
  bucket_lines name labels (bound ∷ bounds) (count ∷ counts) =
      append_labeled_metric (name ++ codes "_bucket")
        (label_with_extra labels (codes "le", f.fixed 3 (f.thousandths bound))) (to_string count)
      ++ bucket_lines name labels bounds counts
  bucket_lines name labels _ _ = []

  unfoldable pub append_histogram : Text → Labels → HistogramValues f → Text
  unfolding bucket_lines
  append_histogram name labels histogram =
      bucket_lines name labels histogram_buckets histogram.buckets
      ++ append_labeled_metric (name ++ codes "_bucket")
          (label_with_extra labels (codes "le", codes "+Inf")) (to_string histogram.count)
      ++ append_labeled_metric (name ++ codes "_sum") labels (f.fixed 6 histogram.sum_seconds)
      ++ append_labeled_metric (name ++ codes "_count") labels (to_string histogram.count)
