-- ===== src/Reloading/Gauges.antt =====
-- What the registry says of the policies that are served.
use vaultwarden_eso_provider.Prelude.{
  ℕ, ◌+◌, ◌%◌, ◌^◌, ◌≡◌, refl, Bool, true, false, List, [], ◌∷◌, Result, ok, err, arith, is_some,
  unwrap_or, Bool-cases, inl, inr, if◌then◌else◌,
}
use vaultwarden_eso_provider.Text.{Text, codes, text_eq, text_cmp}
use vaultwarden_eso_provider.TreeMap.{get, text_ord, get-insert, is_eq}
use vaultwarden_eso_provider.Metrics.{Floats, AppMetrics, PolicyMetrics, count_reload, add_one}
use vaultwarden_eso_provider.Reloading.{
  Wake, ticked, shutdown, Served, outcome_of, reload_cycle, reload_loop,
}

-- The cycles that are counted under an outcome.
abbrev pub counted : PolicyMetrics → Text → ℕ
counted m outcome = unwrap_or 0 (get m.reloads outcome)

-- The three counters of the reloads together.
abbrev pub counted_cycles : PolicyMetrics → ℕ
counted_cycles m =
    counted m (codes "success") + counted m (codes "unchanged") + counted m (codes "failure")

-- The ticks at which the policy is reloaded.
unfoldable pub reload_count : {W : Type 0} → List (Wake W) → ℕ
reload_count [] = 0
reload_count (shutdown ∷ wakes) = 0
reload_count (ticked sources is_ready now ∷ wakes) =
    let rest = reload_count wakes in if is_ready then 1 + rest else 0

counted-count_reload :
    (outcome k : Text) (active : ℕ × ℕ) (now : ℕ) (m : PolicyMetrics)
    → counted (count_reload outcome active now m) k
      ≡ (if is_eq (text_cmp k outcome) then add_one (counted m outcome) else counted m k)
unfolding count_reload
counted-count_reload outcome k active now m =
    rw (get-insert outcome k (add_one (counted m outcome)) m.reloads)
      (elim (Bool-cases (is_eq (text_cmp k outcome))) [ inl same ↦ rw same | inr other ↦ rw other ])

counted_cycles-count_reload :
    {E : Type 0} (r : Result E Bool) (active : ℕ × ℕ) (now : ℕ) (m : PolicyMetrics)
    → counted_cycles (count_reload (outcome_of r) active now m) % 2 ^ 64
      ≡ (counted_cycles m + 1) % 2 ^ 64
unfolding outcome_of text_cmp
counted_cycles-count_reload (ok true) active now m = omega (
  arith,
  counted-count_reload (codes "success") (codes "success") active now m,
  counted-count_reload (codes "success") (codes "unchanged") active now m,
  counted-count_reload (codes "success") (codes "failure") active now m,
)
counted_cycles-count_reload (ok false) active now m = omega (
  arith,
  counted-count_reload (codes "unchanged") (codes "success") active now m,
  counted-count_reload (codes "unchanged") (codes "unchanged") active now m,
  counted-count_reload (codes "unchanged") (codes "failure") active now m,
)
counted_cycles-count_reload (err e) active now m = omega (
  arith,
  counted-count_reload (codes "failure") (codes "success") active now m,
  counted-count_reload (codes "failure") (codes "unchanged") active now m,
  counted-count_reload (codes "failure") (codes "failure") active now m,
)

is_some-count_reload :
    (outcome : Text) (active : ℕ × ℕ) (now : ℕ) (m : PolicyMetrics)
    → is_some m.last_success ≡ true
    → is_some (count_reload outcome active now m).last_success ≡ true
unfolding count_reload
is_some-count_reload outcome active now m h =
    elim (Bool-cases (text_eq outcome (codes "failure"))) [
      | inl failed ↦ rw failed h
      | inr other ↦ rw other
    ]

active-count_reload :
    (outcome : Text) (active : ℕ × ℕ) (now : ℕ) (m : PolicyMetrics)
    → (count_reload outcome active now m).active ≡ active
unfolding count_reload
active-count_reload outcome active now m = refl

module _ (f : Floats) {P : Type 0} (counts_of : P → ℕ × ℕ)
    (view : AppMetrics f → PolicyMetrics) where
  -- The gauges have the counts of the policy that is served, and a success was recorded.
  pub record IsShown (s : Served f P) : Type 0 where
    pub unpoisoned : s.metrics.is_poisoned ≡ false
    pub active : (view s.metrics).active ≡ counts_of s.policy
    pub dated : is_some (view s.metrics).last_success ≡ true

  module _ {W E : Type 0} (reload_from : W → P → Result E Bool × P)
      (record_reload : Text → ℕ × ℕ → ℕ → AppMetrics f → AppMetrics f)
      (records : (outcome : Text) (active : ℕ × ℕ) (now : ℕ) (m : AppMetrics f)
        → m.is_poisoned ≡ false
        → ((record_reload outcome active now m).is_poisoned ≡ false)
          × (view (record_reload outcome active now m) ≡ count_reload outcome active now (view m)))
      (Q : P → Type 0)
      (keeps : (sources : W) (policy : P) → Q policy → Q (reload_from sources policy).1) where
    cycle-IsShown :
        (sources : W) (now : ℕ) (s : Served f P)
        → IsShown s
        → Q s.policy
        → let s' = reload_cycle f reload_from counts_of record_reload sources now s in
          IsShown s'
          × Q s'.policy
          × (counted_cycles (view s'.metrics) % 2 ^ 64
              ≡ (counted_cycles (view s.metrics) + 1) % 2 ^ 64)
    unfolding reload_cycle
    cycle-IsShown sources now s shown q =
        let (outcome, policy) = reload_from sources s.policy in
        let (unpoisoned, same) =
          records (outcome_of outcome) (counts_of policy) now s.metrics shown.unpoisoned in
        (
          record {
            unpoisoned = unpoisoned;
            active =
                rw same (
                  active-count_reload (outcome_of outcome) (counts_of policy) now (view s.metrics));
            dated = rw same (
                is_some-count_reload (outcome_of outcome) (counts_of policy) now (view s.metrics)
                  shown.dated);
          },
          keeps sources s.policy q,
          rw same (counted_cycles-count_reload outcome (counts_of policy) now (view s.metrics)),
        )

    -- The gauges show the policy after any wakes, what every reload keeps is kept, and the three
    -- counters grow by the number of reloads.
    pub reload_loop-IsShown :
        (wakes : List (Wake W)) (s : Served f P)
        → IsShown s
        → Q s.policy
        → let s' = (reload_loop f reload_from counts_of record_reload wakes s).1 in
          IsShown s'
          × Q s'.policy
          × (counted_cycles (view s'.metrics) % 2 ^ 64
              ≡ (counted_cycles (view s.metrics) + reload_count wakes) % 2 ^ 64)
    unfolding reload_loop reload_count
    reload_loop-IsShown [] s shown q = (shown, q, omega arith)
    reload_loop-IsShown (shutdown ∷ wakes) s shown q = (shown, q, omega arith)
    reload_loop-IsShown (ticked sources false now ∷ wakes) s shown q = (shown, q, omega arith)
    reload_loop-IsShown (ticked sources true now ∷ wakes) s shown q =
        let (shown', q', one) = cycle-IsShown sources now s shown q in
        let (shown'', q'', rest) =
          reload_loop-IsShown wakes
            (reload_cycle f reload_from counts_of record_reload sources now s) shown' q' in
        (shown'', q'', omega arith)
