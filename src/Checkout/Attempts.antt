-- ===== src/Checkout/Attempts.antt =====
-- legacy/server/src/throttle.ts and the timers of routes/checkout.ts: repeated confirmations.

use cauripay.Common.{
  ℕ, zero, suc, ◌+◌, ◌*◌, ◌<◌, ◌≤◌, ◌≡◌, ◌↔◌, refl, ap, ◌∙◌, Bool, true, false, Option, none, some,
  arith, ==_iff, if◌then◌else◌,
}
use cauripay.Common.Dict.{lookup, lookup-insert_self}
use cauripay.Checkout.Store.{
  Status, transitions, Payment, Throttle, Timer, is_terminal, Store, Config, is_checkout_blocked,
  register_pin_failure, blocked_at, next_throttle, put_throttle, failures_of,
  clear_checkout_throttle,
}
use cauripay.Checkout.Payments.{err, invalid_state, TransitionExtra, transition, no_extra}
use cauripay.Checkout.Pages.{fire, fire_by, failure_reason}

-- The store after a number of wrong PINs at one time.
unfoldable pub wrong_pins : Config → (now token : ℕ) → ℕ → Store → Store
wrong_pins config now token zero s = s
wrong_pins config now token (suc n) s =
    (register_pin_failure config now token (wrong_pins config now token n s)).1

one_failure :
    (config : Config) (now token : ℕ) (row : Option Throttle) (s : Store)
    → lookup token s.throttle ≡ row
    → blocked_at now row ≡ false
    → lookup token (register_pin_failure config now token s).1.throttle
      ≡ some (next_throttle config now (failures_of row + 1)).0
one_failure config now token row s e free =
    rw (e, free)
      (lookup-insert_self token (next_throttle config now (failures_of row + 1)).0 s.throttle)

below_maximum :
    (config : Config) (now n : ℕ)
    → n < config.checkout_max_pin_failures
    → (next_throttle config now n).0 ≡ record { failures = n; blocked_until = none }
below_maximum config now n h = ground arith

at_maximum :
    (config : Config) (now n : ℕ)
    → config.checkout_max_pin_failures ≤ n
    → (next_throttle config now n).0
      ≡ record { failures = n; blocked_until = some (now + config.checkout_block_minutes * 60_000) }
at_maximum config now n h = ground arith

-- A token with no row counts up to the maximum and is then blocked.
counted :
    (config : Config) (now token n : ℕ) (s : Store)
    → lookup token s.throttle ≡ none
    → suc n ≤ config.checkout_max_pin_failures
    → lookup token (wrong_pins config now token (suc n) s).throttle
      ≡ some (next_throttle config now (suc n)).0
unfolding wrong_pins
counted config now token zero s e h = one_failure config now token none s e refl
counted config now token (suc n) s e h =
    let before =
      counted config now token n s e (omega arith)
      ∙ ap some (below_maximum config now (suc n) (omega arith)) in
    one_failure config now token (some (record { failures = suc n; blocked_until = none }))
      (wrong_pins config now token (suc n) s) before refl
    ∙ ap (λ k. some (next_throttle config now k).0) (omega arith)

-- A token with no row, after a number of wrong PINs at one time that is at most the maximum, which
-- is not zero: the token is blocked exactly when the maximum is reached, and exactly for the minutes
-- that the configuration sets.
pub is_checkout_blocked_iff :
    (config : Config) (now later token n : ℕ) (s : Store)
    → lookup token s.throttle ≡ none
    → 0 < config.checkout_max_pin_failures
    → n ≤ config.checkout_max_pin_failures
    → (is_checkout_blocked later token (wrong_pins config now token n s) ≡ true) ↔ (
        (n ≡ config.checkout_max_pin_failures)
        × (later < now + config.checkout_block_minutes * 60_000))
unfolding wrong_pins
is_checkout_blocked_iff config now later token zero s e max h = rw e (ground arith)
is_checkout_blocked_iff config now later token (suc n) s e max h =
    rw (counted config now token n s e h) (ground arith)

terminal_stays : (s t : Status) → is_terminal s ≡ true → transitions s t ≡ none
terminal_stays Status.pending t h = ground arith
terminal_stays Status.processing t h = ground arith
terminal_stays Status.succeeded t h = refl
terminal_stays Status.failed t h = refl
terminal_stays Status.cancelled t h = refl
terminal_stays Status.expired t h = refl

terminal_move :
    (now merchant id : ℕ) (target : Status) (extra : TransitionExtra) (s : Store) (p : Payment)
    → lookup id s.payments ≡ some p
    → p.merchant_id ≡ merchant
    → is_terminal p.status ≡ true
    → transition now merchant id target extra s ≡ (err (invalid_state p.status target), s)
unfolding transition
terminal_move now merchant id target extra s p e m h =
    rw (e, (==_iff p.merchant_id merchant).1 m, terminal_stays p.status target h) refl

-- Counting a failure writes neither payments nor events.
Same : Store → Store → Type 0
Same s v = (v.payments ≡ s.payments) × (v.events ≡ s.events)

register_pin_failure-Same :
    (config : Config) (now token : ℕ) (s : Store)
    → Same s (register_pin_failure config now token s).1
unfolding Same
register_pin_failure-Same config now token s = by_block (is_checkout_blocked now token s)
  where
    next : Throttle × Bool
    next = next_throttle config now (failures_of (lookup token s.throttle) + 1)

    counted_store : Bool × Store
    counted_store = (next.1, put_throttle token next.0 s)

    by_block :
        (b : Bool) → let r : Bool × Store = if b then (true, s) else counted_store in Same s r.1
    by_block true = (refl, refl)
    by_block false = (refl, refl)

-- A timer that finds its payment succeeded, failed, expired or cancelled throws, with the code of a
-- forbidden transition, and leaves every payment and every event as it was.
pub fire_terminal :
    (config : Config) (now ref : ℕ) (t : Timer) (s : Store) (p : Payment)
    → lookup t.payment_id s.payments ≡ some p
    → p.merchant_id ≡ t.merchant_id
    → is_terminal p.status ≡ true
    → ((fire config now ref t s).0
        ≡ err (invalid_state p.status (if t.wrong_pin then Status.failed else Status.succeeded)))
      × ((fire config now ref t s).1.payments ≡ s.payments)
      × ((fire config now ref t s).1.events ≡ s.events)
unfolding fire Same
fire_terminal config now ref t s p e m h =
    let (thrown, same) = by_pin t.wrong_pin in (thrown, same.0, same.1)
  where
    by_pin :
        (wrong : Bool)
        → ((fire_by config now ref t wrong s).0
            ≡ err (invalid_state p.status (if wrong then Status.failed else Status.succeeded)))
          × Same s (fire_by config now ref t wrong s).1
    by_pin true =
        let r = register_pin_failure config now t.token s in
        let (a, b) = register_pin_failure-Same config now t.token s in
        let stuck =
          terminal_move now t.merchant_id t.payment_id Status.failed
            (record no_extra { reason = some (failure_reason r.0) }) r.1 p
            (ap (lookup t.payment_id) a ∙ e) m h in
        (ap (λ x. x.0) stuck, (ap (λ x. x.1.payments) stuck ∙ a, ap (λ x. x.1.events) stuck ∙ b))
    by_pin false =
        let v = clear_checkout_throttle t.token s in
        let stuck =
          terminal_move now t.merchant_id t.payment_id Status.succeeded
            (record no_extra { provider_ref = some ref }) v p e m h in
        (ap (λ x. x.0) stuck, (ap (λ x. x.1.payments) stuck, ap (λ x. x.1.events) stuck))
