-- ===== src/Metrics/Keys.antt =====
-- The keys of the counters of crates/vaultwarden-eso-provider/src/metrics.rs, and their order.
use vaultwarden_eso_provider.Prelude.{ℕ, ◌≡◌, arith, compare, Ordering, ◌↔◌, ap}
use vaultwarden_eso_provider.Text.{Text, text_cmp}
use vaultwarden_eso_provider.Text.Laws.{text_cmp_iff}
use vaultwarden_eso_provider.TreeMap.{Ord}

pub record HttpMetricKey : Type 0 where
  pub method : Text
  pub route : Text
  pub status : ℕ

pub record ResolveMetricKey : Type 0 where
  pub outcome : Text
  pub error_kind : Text
  pub status : ℕ

-- `Ordering::then`, as the derived `Ord` of a struct combines its fields.
abbrev pub then_cmp : Ordering → Ordering → Ordering
then_cmp Ordering.eq next = next
then_cmp Ordering.lt next = Ordering.lt
then_cmp Ordering.gt next = Ordering.gt

unfoldable pub http_key_cmp : HttpMetricKey → HttpMetricKey → Ordering
http_key_cmp a b =
    then_cmp (text_cmp a.method b.method)
      (then_cmp (text_cmp a.route b.route) (compare a.status b.status))

unfoldable pub resolve_key_cmp : ResolveMetricKey → ResolveMetricKey → Ordering
resolve_key_cmp a b =
    then_cmp (text_cmp a.outcome b.outcome)
      (then_cmp (text_cmp a.error_kind b.error_kind) (compare a.status b.status))

three_eq :
    (a b : Text) (c d : Text) (m n : ℕ)
    → (then_cmp (text_cmp a b) (then_cmp (text_cmp c d) (compare m n)) ≡ Ordering.eq)
      ↔ ((a ≡ b) × (c ≡ d) × (m ≡ n))
three_eq a b c d m n = ground (arith, text_cmp_iff a b, text_cmp_iff c d)

pub http_key_iff : (a b : HttpMetricKey) → (http_key_cmp a b ≡ Ordering.eq) ↔ (a ≡ b)
unfolding http_key_cmp
http_key_iff a b =
    let three = three_eq a.method b.method a.route b.route a.status b.status in
    (
      λ h. let (m, r, s) = three.0 h in cc,
      λ e. three.1 (ap (λ k. k.method) e, ap (λ k. k.route) e, ap (λ k. k.status) e),
    )

pub resolve_key_iff : (a b : ResolveMetricKey) → (resolve_key_cmp a b ≡ Ordering.eq) ↔ (a ≡ b)
unfolding resolve_key_cmp
resolve_key_iff a b =
    let three = three_eq a.outcome b.outcome a.error_kind b.error_kind a.status b.status in
    (
      λ h. let (m, r, s) = three.0 h in cc,
      λ e. three.1 (ap (λ k. k.outcome) e, ap (λ k. k.error_kind) e, ap (λ k. k.status) e),
    )

instance abbrev pub http_key_ord : Ord HttpMetricKey
http_key_ord = record { cmp = http_key_cmp; cmp_iff = http_key_iff }

instance abbrev pub resolve_key_ord : Ord ResolveMetricKey
resolve_key_ord = record { cmp = resolve_key_cmp; cmp_iff = resolve_key_iff }
