-- ===== src/Tests/Shutdown.antt =====
-- Witnesses on the shutdown.
use vaultwarden_eso_provider.Prelude.{false, refl}
use vaultwarden_eso_provider.Lifecycle.{
  Lifecycle, enabled, resolved, initial, is_ready, store_flag, notify_waiters, check_flag, wake,
  stores, notifies, waits, enables, checks, returns, Reach, here, next,
}
use vaultwarden_eso_provider.Lifecycle.Wakeup.{Resolves, Reach-Resolves}

-- The waiter starts to wait, and the shutdown comes.
abbrev waiting : Lifecycle
waiting = check_flag (record initial { waiter = enabled false }) false

abbrev notified : Lifecycle
notified = notify_waiters (store_flag waiting)

waiting-Reach : Reach initial waiting
waiting-Reach =
    next (next here (waits (enables initial refl)))
      (waits (checks (record initial { waiter = enabled false }) false refl))

notified-Reach : Reach initial notified
unfolding store_flag
notified-Reach = next (next waiting-Reach (stores waiting)) (notifies (store_flag waiting) refl)

Reach-Resolves_example : Resolves notified
unfolding notify_waiters
Reach-Resolves_example = Reach-Resolves notified notified-Reach refl

abbrev returned : Lifecycle
returned = record notified { waiter = resolved }

returned-Reach : Reach initial returned
unfolding notify_waiters store_flag check_flag is_ready wake
returned-Reach = next notified-Reach (waits (returns notified refl))
