-- ===== src/Checkout/Timeline.antt =====
-- legacy/server/src/payments.ts and routes/checkout.ts: the events of a payment tell its status.
-- An act is one call or one timer of the server; the id of a new payment is unused.
use cauripay.Common.{
  ℕ, ◌≡◌, refl, Bool, false, true, Option, none, some, List, [], if◌then◌else◌, not,
}
use cauripay.Common.Dict.{lookup}
use cauripay.Checkout.Store.{
  Status, is_terminal, Mode, Payment, Timer, Store, Config, Method, register_pin_failure,
  clear_checkout_throttle, is_checkout_blocked,
}
use cauripay.Checkout.Payments.{
  Reply, ok, err, get_payment, TransitionExtra, transition, approve, Draw, CreatePaymentInput,
  create_payment, check_input, find_duplicate, no_extra, approve_found, start_pending,
  get_payment_by_checkout_token, create_checked, create_or_existing, new_payment,
}
use cauripay.Checkout.Pages.{
  Page, is_valid_phone, is_processing, Pin, initiate, initiate_found, start_payment, start_by,
  chosen, confirm, confirm_found, schedule, fire, fire_by, failure_reason,
}
use cauripay.Rules.{trim}
use cauripay.Checkout.Journal.{
  history, Trail, found, FinalRows, Kept, Kept-here, Kept-next, insert_payment-Kept,
  transition-Kept,
}

pub data Act (config : Config) : Store → Store → Type 0 where
  create :
      {s : Store} (draw : Draw) (merchant : ℕ) (mode : Mode) (input : CreatePaymentInput)
      → lookup draw.fresh_id s.payments ≡ none
      → Act config s (create_payment draw merchant mode input s).1
  move :
      {s : Store} (now merchant id : ℕ) (target : Status) (extra : TransitionExtra)
      → Act config s (transition now merchant id target extra s).1
  approve_act :
      {s : Store} (now ref merchant id : ℕ) → Act config s (approve now ref merchant id s).1
  initiate_act :
      {s : Store} (now token : ℕ) (phone : List ℕ) (method : Option Method)
      → Act config s (initiate now token phone method s).1
  confirm_act : {s : Store} (now token : ℕ) (pin : Pin) → Act config s (confirm now token pin s).1
  fire_act : {s : Store} (now ref : ℕ) (t : Timer) → Act config s (fire config now ref t s).1

pub data Run (config : Config) (s : Store) : Store → Type 0 where
  here : Run config s s
  next : {t u : Store} → Run config s t → Act config t u → Run config s u

-- `create_payment` under a new id.
create_payment-Kept :
    (draw : Draw) (merchant : ℕ) (mode : Mode) (input : CreatePaymentInput) (s : Store)
    → lookup draw.fresh_id s.payments ≡ none
    → Kept s (create_payment draw merchant mode input s).1
unfolding create_payment
create_payment-Kept draw merchant mode input s new = checked (check_input input)
  where
    checked : (r : Reply ℕ) → Kept s (create_checked draw merchant mode input r s).1
    checked (err e) = Kept-here s
    checked (ok amount) =
        existing (find_duplicate merchant input.idempotency_key s)
          (new_payment draw merchant mode input amount) new refl
      where
        existing :
            (o : Option Payment) (p : Payment)
            → lookup p.id s.payments ≡ none
            → p.status ≡ Status.pending
            → Kept s (create_or_existing o p s).1
        existing (some q) p e e' = Kept-here s
        existing none p e e' = insert_payment-Kept p s e e'

approve-Kept : (now ref merchant id : ℕ) (s : Store) → Kept s (approve now ref merchant id s).1
unfolding approve
approve-Kept now ref merchant id s = found-Kept (get_payment merchant id s)
  where
    started : (t : Status) → Kept s (start_pending now merchant id t s)
    started Status.pending = transition-Kept now merchant id Status.processing no_extra s
    started Status.processing = Kept-here s
    started Status.succeeded = Kept-here s
    started Status.failed = Kept-here s
    started Status.cancelled = Kept-here s
    started Status.expired = Kept-here s

    found-Kept : (o : Option Payment) → Kept s (approve_found now ref merchant id o s).1
    found-Kept none = Kept-here s
    found-Kept (some p) =
        let v = start_pending now merchant id p.status s in
        let extra : TransitionExtra = record no_extra { provider_ref = some ref } in
        Kept-next s v (transition now merchant id Status.succeeded extra v).1 (started p.status)
          (transition-Kept now merchant id Status.succeeded extra v)

initiate-Kept :
    (now token : ℕ) (phone : List ℕ) (method : Option Method) (s : Store)
    → Kept s (initiate now token phone method s).1
unfolding initiate
initiate-Kept now token phone method s = found-Kept (get_payment_by_checkout_token token s)
  where
    started : (p : Payment) (m : Option Method) → Kept s (start_payment now (trim phone) p m s).1
    started p none = Kept-here s
    started p (some m) = by_status p.status
      where
        by_status : (t : Status) → Kept s (start_by now (trim phone) p m t s).1
        by_status Status.pending =
            transition-Kept now p.merchant_id p.id Status.processing
              (record no_extra { provider = some m; phone = some (trim phone) }) s
        by_status Status.processing = Kept-here s
        by_status Status.succeeded = Kept-here s
        by_status Status.failed = Kept-here s
        by_status Status.cancelled = Kept-here s
        by_status Status.expired = Kept-here s

    found-Kept : (o : Option Payment) → Kept s (initiate_found now token phone method o s).1
    found-Kept none = Kept-here s
    found-Kept (some p) =
        guards (is_checkout_blocked now token s) (is_terminal p.status)
          (not (is_valid_phone (trim phone)))
      where
        guards :
            (a b c : Bool)
            → Kept s
                (if a
                  then (Page.checkout_blocked, s)
                  else if b
                  then (Page.invalid_state, s)
                  else if c
                  then (Page.invalid_request, s)
                  else start_payment now (trim phone) p (chosen method p.methods) s).1
        guards true b c = Kept-here s
        guards false true c = Kept-here s
        guards false false true = Kept-here s
        guards false false false = started p (chosen method p.methods)

confirm-Kept : (now token : ℕ) (pin : Pin) (s : Store) → Kept s (confirm now token pin s).1
unfolding confirm
confirm-Kept now token pin s = found-Kept (get_payment_by_checkout_token token s)
  where
    scheduled : (p : Payment) (n : Pin) → Kept s (schedule token p n s).1
    scheduled p Pin.malformed = Kept-here s
    scheduled p Pin.zeros = Kept-here s
    scheduled p Pin.accepted = Kept-here s

    found-Kept : (o : Option Payment) → Kept s (confirm_found now token pin o s).1
    found-Kept none = Kept-here s
    found-Kept (some p) = guards (is_checkout_blocked now token s) (not (is_processing p.status))
      where
        guards :
            (a b : Bool)
            → Kept s
                (if a
                  then (Page.checkout_blocked, s)
                  else if b
                  then (Page.invalid_state, s)
                  else schedule token p pin s).1
        guards true b = Kept-here s
        guards false true = Kept-here s
        guards false false = scheduled p pin

fire-Kept :
    (config : Config) (now ref : ℕ) (t : Timer) (s : Store) → Kept s (fire config now ref t s).1
unfolding fire
fire-Kept config now ref t s = by_pin t.wrong_pin
  where
    counted : (b : Bool) (r : Bool × Store) → Kept s r.1 → Kept s (if b then (true, s) else r).1
    counted true r k = Kept-here s
    counted false r k = k

    by_pin : (wrong : Bool) → Kept s (fire_by config now ref t wrong s).1
    by_pin true =
        let r = register_pin_failure config now t.token s in
        let extra : TransitionExtra = record no_extra { reason = some (failure_reason r.0) } in
        Kept-next s r.1 (transition now t.merchant_id t.payment_id Status.failed extra r.1).1
          (counted (is_checkout_blocked now t.token s) _ (Kept-here s))
          (transition-Kept now t.merchant_id t.payment_id Status.failed extra r.1)
    by_pin false =
        let v = clear_checkout_throttle t.token s in
        let extra : TransitionExtra = record no_extra { provider_ref = some ref } in
        transition-Kept now t.merchant_id t.payment_id Status.succeeded extra v

Act-Kept : {config : Config} {s v : Store} → Act config s v → Kept s v
Act-Kept (create draw merchant mode input new) = create_payment-Kept draw merchant mode input _ new
Act-Kept (move now merchant id target extra) = transition-Kept now merchant id target extra _
Act-Kept (approve_act now ref merchant id) = approve-Kept now ref merchant id _
Act-Kept (initiate_act now token phone method) = initiate-Kept now token phone method _
Act-Kept (confirm_act now token pin) = confirm-Kept now token pin _
Act-Kept (fire_act now ref t) = fire-Kept _ now ref t _

Run-Kept : {config : Config} {s v : Store} → Run config s v → Kept s v
Run-Kept {config} {s} here = Kept-here s
Run-Kept {config} {s} {v} (next {t} r a) = Kept-next s t v (Run-Kept r) (Act-Kept a)

abbrev pub empty : Store
empty = record { payments = []; events = []; dispatched = []; throttle = []; timers = [] }

-- After any run of the server from an empty database, the events of every stored payment lead, step
-- by step of the state machine and beginning with `payment.created`, to the payment's status.
pub Run-Trail :
    {config : Config} {s : Store}
    → Run config empty s
    → (id : ℕ) (p : Payment) → lookup id s.payments ≡ some p
    → Trail (history id s.events) p.status
unfolding lookup
Run-Trail {config} {s} r id p e =
    (found id (lookup id s.payments) (history id s.events) p (((Run-Kept r) (λ _. refl)).0 id) e).1

-- A payment that succeeded, failed, expired or was cancelled is never written again: however the
-- server goes on, its row stays the same in every column.
pub Run-FinalRows :
    {config : Config} {s v : Store} → Run config empty s → Run config s v → FinalRows s v
unfolding lookup
Run-FinalRows before after = (Run-Kept after (Run-Kept before (λ _. refl)).0).1
