-- ===== src/Reloading/Shutdown.antt =====
-- How a reload task ends.
use vaultwarden_eso_provider.Prelude.{
  ℕ, ◌≡◌, refl, Bool, true, false, not, List, [], ◌∷◌, ◌++◌, Result, All,
}
use vaultwarden_eso_provider.Text.{Text}
use vaultwarden_eso_provider.Metrics.{Floats, AppMetrics}
use vaultwarden_eso_provider.Reloading.{Wake, ticked, shutdown, Served, reload_cycle, reload_loop}

-- A wake at which the loop ends: the shutdown, or a tick that finds it under way.
abbrev pub ends : {W : Type 0} → Wake W → Bool
ends shutdown = true
ends (ticked sources is_ready now) = not is_ready

module _ (f : Floats) {W P E : Type 0} (reload_from : W → P → Result E Bool × P)
    (counts_of : P → ℕ × ℕ) (record_reload : Text → ℕ × ℕ → ℕ → AppMetrics f → AppMetrics f) where
  -- The cycles that the wakes up to the end bring.
  unfoldable pub cycles : List (Wake W) → Served f P → Served f P
  cycles [] s = s
  cycles (shutdown ∷ wakes) s = s
  cycles (ticked sources is_ready now ∷ wakes) s =
      cycles wakes (reload_cycle f reload_from counts_of record_reload sources now s)

  -- The loop ends at the first wake that finds the shutdown: the reloads of the wakes before it
  -- have been made, each one, and nothing that comes after it changes the policy or the registry.
  pub reload_loop-ends :
      (before : List (Wake W)) (last : Wake W) (later : List (Wake W)) (s : Served f P)
      → All (λ wake. ends wake ≡ false) before
      → ends last ≡ true
      → reload_loop f reload_from counts_of record_reload (before ++ last ∷ later) s
        ≡ (true, cycles before s)
  unfolding reload_loop cycles
  reload_loop-ends [] shutdown later s none_ends h = refl
  reload_loop-ends [] (ticked sources is_ready now) later s none_ends h = rw h
  reload_loop-ends (shutdown ∷ before) last later s (e, none_ends) h = cc
  reload_loop-ends (ticked sources is_ready now ∷ before) last later s (e, none_ends) h = rw e (
      reload_loop-ends before last later
        (reload_cycle f reload_from counts_of record_reload sources now s) none_ends h)
