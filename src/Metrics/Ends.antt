-- ===== src/Metrics/Ends.antt =====
-- Where the lines of the exposition begin and end.
use vaultwarden_eso_provider.Prelude.{
  ℕ, String, unwrap_or, option_map, ◌≡◌, refl, ap, append_assoc, sym, ◌∙◌, Bool, [], ◌∷◌, ◌++◌, All,
  inl,
}
use vaultwarden_eso_provider.Text.{Text, codes}
use vaultwarden_eso_provider.Text.Decimal.{to_string}
use vaultwarden_eso_provider.Text.Splitting.{Avoids}
use vaultwarden_eso_provider.Metrics.{Floats, AppMetrics, duration_since, unix_epoch, as_secs}
use vaultwarden_eso_provider.Metrics.Keys.{http_key_ord}
use vaultwarden_eso_provider.Metrics.Labels.{Labels, append_line, append_labeled_metric}
use vaultwarden_eso_provider.Metrics.Sections.{append_heading, append_value, append_gauge}
use vaultwarden_eso_provider.Metrics.Reading.{IsLabelName, metric_line}
use vaultwarden_eso_provider.Metrics.Lines.{
  IsEnded, IsEnded-append, append_line-IsEnded, append_labeled_metric-line, metric_line-Avoids,
}
use vaultwarden_eso_provider.Metrics.Render.{u8_from, process_lines}

-- The text has the line: it begins the text or stands behind a line feed, has none in it, and one
-- ends it.
pub record HasLine (s line : Text) : Type 0 where
  pub before : Text
  pub behind : Text
  pub whole : s ≡ before ++ (line ++ b'\n' ∷ behind)
  pub starts : IsEnded before
  pub single : Avoids b'\n' line

pub HasLine-append_left : (s t line : Text) → IsEnded s → HasLine t line → HasLine (s ++ t) line
HasLine-append_left s t line ended h = record {
  before = s ++ h.before;
  behind = h.behind;
  whole = ap (λ u. s ++ u) h.whole ∙ sym (append_assoc s h.before (line ++ b'\n' ∷ h.behind));
  starts = IsEnded-append s h.before ended h.starts;
  single = h.single;
}

pub HasLine-append_right : (s t line : Text) → HasLine s line → HasLine (s ++ t) line
HasLine-append_right s t line h = record {
  before = h.before;
  behind = h.behind ++ t;
  whole =
      ap (λ u. u ++ t) h.whole
      ∙ append_assoc h.before (line ++ b'\n' ∷ h.behind) t
      ∙ ap (λ u. h.before ++ u) (append_assoc line (b'\n' ∷ h.behind) t);
  starts = h.starts;
  single = h.single;
}

pub HasLine-append_labeled_metric :
    (name : Text) (labels : Labels) (value : Text)
    → Avoids b'\n' name
    → All (λ label. IsLabelName label.0) labels
    → Avoids b'\n' value
    → HasLine (append_labeled_metric name labels value) (metric_line name labels value)
HasLine-append_labeled_metric name labels value h names k = record {
  before = [];
  behind = [];
  whole = append_labeled_metric-line name labels value;
  starts = inl refl;
  single = metric_line-Avoids name labels value h names k;
}

pub append_heading-IsEnded : (name help kind : String) → IsEnded (append_heading name help kind)
unfolding append_heading
append_heading-IsEnded name help kind =
    let help_line = codes "# HELP " ++ codes name ++ codes " " ++ codes help in
    let kind_line = codes "# TYPE " ++ codes name ++ codes " " ++ codes kind in
    IsEnded-append (append_line help_line) (append_line kind_line) (append_line-IsEnded help_line)
      (append_line-IsEnded kind_line)

append_gauge-IsEnded : (name help : String) (value : ℕ) → IsEnded (append_gauge name help value)
unfolding append_gauge append_value
append_gauge-IsEnded name help value =
    let value_line = codes name ++ codes " " ++ to_string value in
    IsEnded-append (append_heading name help "gauge") (append_line value_line)
      (append_heading-IsEnded name help "gauge") (append_line-IsEnded value_line)

module _ (f : Floats) where
  pub process_lines-IsEnded :
      (version : Text) (elapsed : ℕ) (ready : Bool) (m : AppMetrics f)
      → IsEnded (process_lines f version elapsed ready m)
  unfolding process_lines
  process_lines-IsEnded version elapsed ready m =
      let start = unwrap_or 0 (option_map as_secs (duration_since m.start_time unix_epoch)) in
      let build =
        append_heading "bweso_build_info" "Vaultwarden ESO Provider build information." "gauge" in
      let build_line = codes "bweso_build_info{version=\"" ++ version ++ codes "\"} 1" in
      let uptime =
        append_heading "bweso_uptime_seconds" "Seconds since the process started." "gauge" in
      let uptime_line = codes "bweso_uptime_seconds " ++ f.fixed 6 (f.as_secs_f64 elapsed) in
      let started =
        append_gauge "bweso_process_start_time_seconds" "Unix timestamp when the process started."
          start in
      let is_ready =
        append_gauge "bweso_ready" "Readiness state exposed by /readyz." (u8_from ready) in
      let first = build ++ append_line build_line in
      let second = first ++ started in
      let third = second ++ uptime in
      let fourth = third ++ append_line uptime_line in
      IsEnded-append fourth is_ready
        (IsEnded-append third (append_line uptime_line)
          (IsEnded-append second uptime
            (IsEnded-append first started
              (IsEnded-append build (append_line build_line)
                (append_heading-IsEnded "bweso_build_info"
                  "Vaultwarden ESO Provider build information." "gauge")
                (append_line-IsEnded build_line))
              (append_gauge-IsEnded "bweso_process_start_time_seconds"
                "Unix timestamp when the process started." start))
            (append_heading-IsEnded "bweso_uptime_seconds" "Seconds since the process started."
              "gauge"))
          (append_line-IsEnded uptime_line))
        (append_gauge-IsEnded "bweso_ready" "Readiness state exposed by /readyz." (u8_from ready))
