-- ===== src/Lifecycle/Wakeup.antt =====
-- No wake-up is lost, and none comes early.
use vaultwarden_eso_provider.Prelude.{◌≡◌, Bool, true, false, not, arith, refl, if◌then◌else◌}
use vaultwarden_eso_provider.Lifecycle.{
  Lifecycle, Waiter, starting, enabled, awaiting, resolved, initial, is_ready, wake, store_flag,
  notify_waiters, check_flag, Step, stores, notifies, enables, checks, returns, Reach, here, next,
  waits, Runs, idle, runs,
}

-- What holds of the waiter: it has received or seen nothing before the flag is set, and does not
-- wait for a notification that is over.
abbrev WaiterSound : Bool → Bool → Waiter → Type 0
WaiterSound shutting_down notified starting = Unit
WaiterSound shutting_down notified (enabled received) = received ≡ true → shutting_down ≡ true
WaiterSound shutting_down notified (awaiting received) =
    (received ≡ true → shutting_down ≡ true) × (received ≡ false → notified ≡ false)
WaiterSound shutting_down notified resolved = shutting_down ≡ true

abbrev IsSound : Lifecycle → Type 0
IsSound s =
    (s.notified ≡ true → s.shutting_down ≡ true) × WaiterSound s.shutting_down s.notified s.waiter

stored-WaiterSound : (f n : Bool) (w : Waiter) → WaiterSound f n w → WaiterSound true n w
stored-WaiterSound f n starting h = tt
stored-WaiterSound f n (enabled r) h = λ e. refl
stored-WaiterSound f n (awaiting r) h = (λ e. refl, h.1)
stored-WaiterSound f n resolved h = refl

woken-WaiterSound :
    (f n : Bool) (w : Waiter) → f ≡ true → WaiterSound f n w → WaiterSound f true (wake w)
unfolding wake
woken-WaiterSound f n starting e h = tt
woken-WaiterSound f n (enabled r) e h = λ _. e
woken-WaiterSound f n (awaiting r) e h = (λ _. e, λ k. ground arith)
woken-WaiterSound f n resolved e h = e

checked-WaiterSound :
    (f n : Bool) (r : Bool)
    → (n ≡ true → f ≡ true)
    → (r ≡ true → f ≡ true)
    → WaiterSound f n (if not f then awaiting r else resolved)
checked-WaiterSound true n r h k = refl
checked-WaiterSound false n r h k = (k, λ e. ground arith)

Step-IsSound : {s t : Lifecycle} → Step s t → IsSound s → IsSound t
unfolding store_flag notify_waiters check_flag is_ready
Step-IsSound (stores s) (h, w) =
    (λ _. refl, stored-WaiterSound s.shutting_down s.notified s.waiter w)
Step-IsSound (notifies s e) (h, w) =
    (λ _. e, woken-WaiterSound s.shutting_down s.notified s.waiter e w)
Step-IsSound (waits (enables s e)) (h, w) = (h, λ k. ground arith)
Step-IsSound (waits (checks s r e)) (h, w) =
    let k : WaiterSound s.shutting_down s.notified (enabled r) = rw e at w in
    (h, checked-WaiterSound s.shutting_down s.notified r h k)
Step-IsSound (waits (returns s e)) (h, w) =
    let k : WaiterSound s.shutting_down s.notified (awaiting true) = rw e at w in (h, k.0 refl)

Reach-IsSound : {s : Lifecycle} → Reach initial s → IsSound s
Reach-IsSound here = (λ e. ground arith, tt)
Reach-IsSound (next r step) = Step-IsSound step (Reach-IsSound r)

-- `shutdown_requested` returns only once shutdown was requested, in every order of the statements.
pub Reach-resolved : (s : Lifecycle) → Reach initial s → s.waiter ≡ resolved → is_ready s ≡ false
unfolding is_ready
Reach-resolved s r e =
    let k : WaiterSound s.shutting_down s.notified resolved = rw e at (Reach-IsSound r).1 in
    ground arith

-- From a state the waiter returns by statements of its own.
abbrev pub Resolves : Lifecycle → Type 0
Resolves s = (u : Lifecycle) × Runs s u × (u.waiter ≡ resolved)

check-Resolves :
    (s t : Lifecycle) (r : Bool)
    → Runs s t
    → t.waiter ≡ enabled r
    → t.shutting_down ≡ true
    → Resolves s
unfolding check_flag is_ready
check-Resolves s t r path e f = (check_flag t r, runs path (checks t r e), rw f refl)

resolve_from :
    (s : Lifecycle) (w : Waiter) → s.waiter ≡ w → IsSound s → s.notified ≡ true → Resolves s
resolve_from s starting e (h, k) n =
    check-Resolves s (record s { waiter = enabled false }) false (runs idle (enables s e)) refl
      (h n)
resolve_from s (enabled r) e (h, k) n = check-Resolves s s r idle e (h n)
resolve_from s (awaiting true) e (h, k) n =
    (record s { waiter = resolved }, runs idle (returns s e), refl)
resolve_from s (awaiting false) e (h, k) n =
    let k' : WaiterSound s.shutting_down s.notified (awaiting false) = rw e at k in
    let over = k'.1 refl in absurd (ground arith)
resolve_from s resolved e h n = (s, idle, e)

-- In every state that is reached with the notification sent, wherever the waiter is, statements of
-- its own alone let it return.
pub Reach-Resolves : (s : Lifecycle) → Reach initial s → s.notified ≡ true → Resolves s
Reach-Resolves s r e = resolve_from s s.waiter refl (Reach-IsSound r) e
