-- ===== src/Lifecycle.antt =====
-- crates/vaultwarden-eso-provider/src/lifecycle.rs: the shutdown flag and one task that waits for it.
-- `Notify` is tokio's: a waiter that is enabled when `notify_waiters` runs receives the notification,
-- and its `await` returns once it has been received.
pub mod Wakeup
use vaultwarden_eso_provider.Prelude.{◌≡◌, Bool, true, false, not, if◌then◌else◌}

-- How far `shutdown_requested` is; the flag says whether the notification was received.
pub data Waiter : Type 0 where
  starting : Waiter
  enabled awaiting : (received : Bool) → Waiter
  resolved : Waiter

-- `notified` says that `notify_waiters` ran.
pub record Lifecycle : Type 0 where
  pub shutting_down : Bool
  pub notified : Bool
  pub waiter : Waiter

abbrev pub initial : Lifecycle
initial = record { shutting_down = false; notified = false; waiter = starting }

unfoldable pub is_ready : Lifecycle → Bool
is_ready s = not s.shutting_down

unfoldable pub wake : Waiter → Waiter
wake starting = starting
wake (enabled received) = enabled true
wake (awaiting received) = awaiting true
wake resolved = resolved

-- The two statements of `mark_shutting_down`.
unfoldable pub store_flag : Lifecycle → Lifecycle
store_flag s = record s { shutting_down = true }

unfoldable pub notify_waiters : Lifecycle → Lifecycle
notify_waiters s = record s { notified = true; waiter = wake s.waiter }

-- The check of the flag behind the registration.
unfoldable pub check_flag : Lifecycle → Bool → Lifecycle
check_flag s received = record s { waiter = if is_ready s then awaiting received else resolved }

-- One statement of `shutdown_requested`.
pub data WaiterStep : Lifecycle → Lifecycle → Type 0 where
  enables :
      (s : Lifecycle) → s.waiter ≡ starting → WaiterStep s (record s { waiter = enabled false })
  checks :
      (s : Lifecycle) (received : Bool)
      → s.waiter ≡ enabled received
      → WaiterStep s (check_flag s received)
  returns :
      (s : Lifecycle) → s.waiter ≡ awaiting true → WaiterStep s (record s { waiter = resolved })

-- One statement of either task.
pub data Step : Lifecycle → Lifecycle → Type 0 where
  stores : (s : Lifecycle) → Step s (store_flag s)
  notifies : (s : Lifecycle) → s.shutting_down ≡ true → Step s (notify_waiters s)
  waits : {s t : Lifecycle} → WaiterStep s t → Step s t

-- Any order of the statements.
pub data Reach (s : Lifecycle) : Lifecycle → Type 0 where
  here : Reach s s
  next : {t u : Lifecycle} → Reach s t → Step t u → Reach s u

-- Statements of the waiter alone.
pub data Runs (s : Lifecycle) : Lifecycle → Type 0 where
  idle : Runs s s
  runs : {t u : Lifecycle} → Runs s t → WaiterStep t u → Runs s u
