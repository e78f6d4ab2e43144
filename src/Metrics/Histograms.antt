-- ===== src/Metrics/Histograms.antt =====
-- What a histogram holds after any observations, and why its buckets are cumulative.
use vaultwarden_eso_provider.Prelude.{
  ℕ, ◌+◌, ◌%◌, ◌^◌, ◌≤◌, ◌<◌, ◌≡◌, refl, ap₂, sym, subst, Bool, true, List, [], ◌∷◌, map, length,
  arith, if◌then◌else◌,
}
use vaultwarden_eso_provider.Metrics.{
  Floats, HistogramValues, default_histogram, fill_buckets, observe, histogram_buckets,
}

-- How many of the entries pass the test.
unfoldable pub count_if {ℓ} : {A : Type ℓ} → (A → Bool) → List A → ℕ
count_if p [] = 0
count_if p (x ∷ xs) = (if p x then 1 else 0) + count_if p xs

module _ (f : Floats) where
  -- The observations, the last one first.
  unfoldable pub observe_all : List ℕ → HistogramValues f
  observe_all [] = default_histogram f
  observe_all (duration ∷ earlier) = observe f duration (observe_all earlier)

  abbrev pub within : ℕ → ℕ → Bool
  within bound duration = f.le_f64 (f.as_secs_f64 duration) (f.thousandths bound)

  unfoldable pub sum_of : List ℕ → f.F64
  sum_of [] = f.zero_f64
  sum_of (duration ∷ earlier) = f.add_f64 (sum_of earlier) (f.as_secs_f64 duration)

  -- The histogram of a list of durations, without a bucket that is ever incremented.
  abbrev pub summary : List ℕ → HistogramValues f
  summary durations = record {
    count = length durations % 2 ^ 64;
    sum_seconds = sum_of durations;
    buckets = map (λ bound. count_if (within bound) durations % 2 ^ 64) histogram_buckets;
  }

  fill_buckets-map :
      (duration : ℕ) (earlier : List ℕ) (bounds : List ℕ)
      → fill_buckets f
          (f.as_secs_f64 duration)
          bounds
          (map (λ bound. count_if (within bound) earlier % 2 ^ 64) bounds)
        ≡ map (λ bound. count_if (within bound) (duration ∷ earlier) % 2 ^ 64) bounds
  unfolding fill_buckets count_if
  fill_buckets-map duration earlier [] = refl
  fill_buckets-map duration earlier (bound ∷ bounds) =
      ground (arith, fill_buckets-map duration earlier bounds)

  pub observe-summary :
      (duration : ℕ) (earlier : List ℕ)
      → observe f duration (summary earlier) ≡ summary (duration ∷ earlier)
  unfolding observe sum_of
  observe-summary duration earlier =
      ap₂
        (λ n counts. record {
          count = n;
          sum_seconds = f.add_f64 (sum_of earlier) (f.as_secs_f64 duration);
          buckets = counts;
        })
        (omega arith) (fill_buckets-map duration earlier histogram_buckets)

  pub summary_nil : default_histogram f ≡ summary []
  unfolding default_histogram sum_of count_if
  summary_nil = refl

  -- A histogram after any observations: their number, their sum in that order, and for each bound
  -- the number of those that are within it, numbers that 64 bits hold as they are.
  pub observe_all-summary : (durations : List ℕ) → observe_all durations ≡ summary durations
  unfolding observe_all
  observe_all-summary [] = summary_nil
  observe_all-summary (duration ∷ earlier) =
      rw (observe_all-summary earlier) (observe-summary duration earlier)

  -- A list of counts that never falls, and whose last entry is at most the total.
  abbrev pub IsCumulative : List ℕ → ℕ → Type 0
  IsCumulative [] total = Unit
  IsCumulative (n ∷ []) total = n ≤ total
  IsCumulative (m ∷ n ∷ counts) total = (m ≤ n) × IsCumulative (n ∷ counts) total

  -- The comparison of `f64` is transitive, and literals compare as their numbers do.
  pub record IsOrdered : Type 0 where
    pub le_trans : (a b c : f.F64) → f.le_f64 a b ≡ true → f.le_f64 b c ≡ true → f.le_f64 a c ≡ true
    pub le_thousandths : (i j : ℕ) → i ≤ j → f.le_f64 (f.thousandths i) (f.thousandths j) ≡ true

  module _ (o : IsOrdered) where
    within_mono : (i j duration : ℕ) → i ≤ j → within i duration ≡ true → within j duration ≡ true
    within_mono i j duration h below =
        o.le_trans (f.as_secs_f64 duration) (f.thousandths i) (f.thousandths j) below
          (o.le_thousandths i j h)

    count_within_mono :
        (i j : ℕ) (durations : List ℕ)
        → i ≤ j
        → count_if (within i) durations ≤ count_if (within j) durations
    unfolding count_if
    count_within_mono i j [] h = omega arith
    count_within_mono i j (d ∷ durations) h =
        ground (arith, within_mono i j d h, count_within_mono i j durations h)

    count_within_le :
        (i : ℕ) (durations : List ℕ) → count_if (within i) durations ≤ length durations
    unfolding count_if
    count_within_le i [] = omega arith
    count_within_le i (d ∷ durations) = ground (arith, count_within_le i durations)

    module _ (durations : List ℕ) (few : length durations < 2 ^ 64) where
      mono :
          (i j : ℕ)
          → i ≤ j
          → count_if (within i) durations % 2 ^ 64 ≤ count_if (within j) durations % 2 ^ 64
      mono i j h = omega (arith, count_within_mono i j durations h, count_within_le j durations)

      -- Fewer than 2^64 observations: the buckets never fall from one bound to the next, and the
      -- last one is at most the count.
      pub observe_all-IsCumulative :
          IsCumulative (observe_all durations).buckets (observe_all durations).count
      observe_all-IsCumulative =
          subst (λ h. IsCumulative h.buckets h.count) (sym (observe_all-summary durations))
            (
              mono 5 10 (omega arith),
              (
                mono 10 25 (omega arith),
                (
                  mono 25 50 (omega arith),
                  (
                    mono 50 100 (omega arith),
                    (
                      mono 100 250 (omega arith),
                      (
                        mono 250 500 (omega arith),
                        (
                          mono 500 1000 (omega arith),
                          (
                            mono 1000 2500 (omega arith),
                            (
                              mono 2500 5000 (omega arith),
                              (
                                mono 5000 10000 (omega arith),
                                omega (arith, count_within_le 10000 durations),
                              ),
                            ),
                          ),
                        ),
                      ),
                    ),
                  ),
                ),
              ),
            )
