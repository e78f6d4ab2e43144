-- ===== src/Tests/Metrics.antt =====
-- Witnesses on the registry and its text.
use vaultwarden_eso_provider.Prelude.{
  ℕ, ◌+◌, ◌*◌, ◌%◌, ◌^◌, ◌≡◌, refl, true, some, none, List, [], ◌∷◌, ◌++◌, arith, leb, length,
}
use vaultwarden_eso_provider.Text.{Text, codes, text_cmp}
use vaultwarden_eso_provider.Text.Decimal.{to_string}
use vaultwarden_eso_provider.Metrics.{Floats}
use vaultwarden_eso_provider.Metrics.Keys.{HttpMetricKey, http_key_cmp}
use vaultwarden_eso_provider.Metrics.Histograms.{
  IsOrdered, IsCumulative, observe_all, observe_all-IsCumulative,
}
use vaultwarden_eso_provider.Metrics.Labels.{append_labeled_metric}
use vaultwarden_eso_provider.Metrics.Reading.{read_line}
use vaultwarden_eso_provider.Metrics.Lines.{read_metric, read_metric-append_labeled_metric}
use vaultwarden_eso_provider.Metrics.Requests.{Call, http_request, after, http_durations}
use vaultwarden_eso_provider.Metrics.Render.{http_labels, render}
use vaultwarden_eso_provider.Metrics.Ends.{HasLine}
use vaultwarden_eso_provider.Metrics.Exposition.{render-HasLine}

-- Numbers of nanoseconds in the place of `f64`.
abbrev pub nanoseconds : Floats
nanoseconds = record {
  F64 = ℕ;
  zero_f64 = 0;
  add_f64 = λ a b. a + b;
  le_f64 = leb;
  thousandths = λ n. n * 1_000_000;
  as_secs_f64 = λ duration. duration;
  fixed = λ digits n. to_string n;
}

nanoseconds-IsOrdered : IsOrdered nanoseconds
nanoseconds-IsOrdered = record {
  le_trans = λ a b c h k. ground arith;
  le_thousandths = λ i j h. ground arith;
}

abbrev durations : List ℕ
durations = 3_000_000 ∷ 70_000_000 ∷ 20_000_000_000 ∷ []

observe_all-IsCumulative_example :
    IsCumulative nanoseconds
      (observe_all nanoseconds durations).buckets
      (observe_all nanoseconds durations).count
observe_all-IsCumulative_example =
    observe_all-IsCumulative nanoseconds nanoseconds-IsOrdered durations (omega arith)

-- A label's value with a quote and a line feed in it, and another line behind.
read_metric-append_labeled_metric_example :
    read_metric (
      append_labeled_metric (codes "up") ((codes "a", b'"' ∷ b'\n' ∷ codes "}") ∷ []) (codes "1")
      ++ codes "down 0")
    ≡ some
        ((codes "up", (codes "a", b'"' ∷ b'\n' ∷ codes "}") ∷ [], b' ' ∷ codes "1"), codes "down 0")
read_metric-append_labeled_metric_example =
    read_metric-append_labeled_metric (codes "up") ((codes "a", b'"' ∷ b'\n' ∷ codes "}") ∷ [])
      (codes "1") (codes "down 0") (omega arith, (omega arith, tt)) (omega arith, (omega arith, tt))
      (((omega arith, tt), (omega arith, tt), (omega arith, tt), (omega arith, tt)), tt)
      (omega arith, tt)

abbrev key : HttpMetricKey
key = record { method = codes "GET"; route = codes "/livez"; status = 204 }

abbrev calls : List Call
calls = http_request key 1_000 ∷ http_request key 2_000 ∷ []

two_calls : http_durations key calls ≡ 1_000 ∷ 2_000 ∷ []
unfolding http_durations http_key_cmp text_cmp
two_calls = refl

render-HasLine_example :
    (line : Text) × HasLine
      (render nanoseconds (codes "1") 5 6 true none (after nanoseconds 0 0 calls))
      line
    × (read_line line
        ≡ some (
          codes "bweso_http_requests_total",
          http_labels key,
          b' ' ∷ to_string (length {A = ℕ} (1_000 ∷ 2_000 ∷ []) % 2 ^ 64),
        ))
render-HasLine_example =
    render-HasLine nanoseconds (codes "1") 5 6 true none 0 0 calls key 1_000 (2_000 ∷ []) two_calls
