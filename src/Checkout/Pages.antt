-- ===== src/Checkout/Pages.antt =====
-- legacy/server/src/routes/checkout.ts: the two calls of the checkout page, and the timer of the
-- second. The HTML pages are left out. A throw in a timer is uncaught: it is the `err` of `fire`.
use cauripay.Common.{
  ℕ, Bool, false, true, not, Option, none, some, List, [], ◌∷◌, ◌==◌, ◌&&◌, if◌then◌else◌, all,
  length, leb,
}
use cauripay.Rules.{trim, is_digit}
use cauripay.Checkout.Store.{
  Status, is_terminal, Method, Payment, Timer, Store, Config, is_checkout_blocked,
  register_pin_failure, clear_checkout_throttle, Reason, too_many_attempts, incorrect_pin,
}
use cauripay.Checkout.Payments.{Reply, no_extra, transition, get_payment_by_checkout_token}

-- The status codes 404, 429, 409 and 400, and `done` for 200.
pub data Page : Type 0 where
  not_found checkout_blocked invalid_state invalid_request done : Page

abbrev pub is_processing : Status → Bool
is_processing Status.processing = true
is_processing _ = false

abbrev pub same_method : Method → Method → Bool
same_method Method.orange_money Method.orange_money = true
same_method Method.mtn_momo Method.mtn_momo = true
same_method Method.moov_money Method.moov_money = true
same_method Method.wave Method.wave = true
same_method Method.card Method.card = true
same_method Method.international Method.international = true
same_method (Method.unlisted a) (Method.unlisted b) = a == b
same_method _ _ = false

abbrev pub first : List Method → Option Method
first [] = none
first (m ∷ ms) = some m

abbrev pub pick : Method → List Method → Option Method
pick m [] = none
pick m (a ∷ ms) = if same_method m a then some m else pick m ms

-- The method of the body if the payment allows it, else the first that it allows.
abbrev pub chosen : Option Method → List Method → Option Method
chosen none allowed = first allowed
chosen (some m) allowed = elim (pick m allowed) [ none ↦ first allowed | some m ↦ some m ]

abbrev pub without_plus : List ℕ → List ℕ
without_plus [] = []
without_plus (c ∷ rest) = if c == b'+' then rest else c ∷ rest

-- `isValidPhone` of util.ts: an optional plus sign and eight to fifteen digits.
abbrev pub is_valid_phone : List ℕ → Bool
is_valid_phone text =
    let digits = without_plus (trim text) in
    all is_digit digits && leb 8 (length digits) && leb (length digits) 15

-- Only a pending payment moves; what the move returns is not read.
abbrev pub start_by : ℕ → List ℕ → Payment → Method → Status → Store → Page × Store
start_by now phone p m Status.pending s = (
  Page.done,
  (transition now p.merchant_id p.id Status.processing
      (record no_extra { provider = some m; phone = some phone }) s).1,
)
start_by now phone p m _ s = (Page.done, s)

abbrev pub start_payment : ℕ → List ℕ → Payment → Option Method → Store → Page × Store
start_payment now phone p none s = (Page.invalid_request, s)
start_payment now phone p (some m) s = start_by now phone p m p.status s

abbrev pub initiate_found : ℕ → ℕ → List ℕ → Option Method → Option Payment → Store → Page × Store
initiate_found now token phone method none s = (Page.not_found, s)
initiate_found now token phone method (some p) s =
    if is_checkout_blocked now token s
    then (Page.checkout_blocked, s)
    else if is_terminal p.status
    then (Page.invalid_state, s)
    else if not (is_valid_phone (trim phone))
    then (Page.invalid_request, s)
    else start_payment now (trim phone) p (chosen method p.methods) s

unfoldable pub initiate : ℕ → ℕ → List ℕ → Option Method → Store → Page × Store
initiate now token phone method s =
    initiate_found now token phone method (get_payment_by_checkout_token token s) s

-- The text of the PIN: four digits or not, and then `0000` or not.
pub data Pin : Type 0 where
  malformed zeros accepted : Pin

abbrev pub add_timer : ℕ → Payment → Bool → Store → Store
add_timer token p wrong_pin s = record s {
  timers =
      record {
        token = token;
        merchant_id = p.merchant_id;
        payment_id = p.id;
        wrong_pin = wrong_pin;
      }
      ∷ s.timers;
}

abbrev pub schedule : ℕ → Payment → Pin → Store → Page × Store
schedule token p Pin.malformed s = (Page.invalid_request, s)
schedule token p Pin.zeros s = (Page.done, add_timer token p true s)
schedule token p Pin.accepted s = (Page.done, add_timer token p false s)

abbrev pub confirm_found : ℕ → ℕ → Pin → Option Payment → Store → Page × Store
confirm_found now token pin none s = (Page.not_found, s)
confirm_found now token pin (some p) s =
    if is_checkout_blocked now token s
    then (Page.checkout_blocked, s)
    else if not (is_processing p.status)
    then (Page.invalid_state, s)
    else schedule token p pin s

unfoldable pub confirm : ℕ → ℕ → Pin → Store → Page × Store
confirm now token pin s = confirm_found now token pin (get_payment_by_checkout_token token s) s

abbrev pub failure_reason : Bool → Reason
failure_reason true = too_many_attempts
failure_reason false = incorrect_pin

-- The callback of a timer; `ref` is the random reference.
abbrev pub fire_by : Config → ℕ → ℕ → Timer → Bool → Store → Reply Payment × Store
fire_by config now ref t true s =
    let counted = register_pin_failure config now t.token s in
    transition now t.merchant_id t.payment_id Status.failed
      (record no_extra { reason = some (failure_reason counted.0) }) counted.1
fire_by config now ref t false s =
    transition now t.merchant_id t.payment_id Status.succeeded
      (record no_extra { provider_ref = some ref }) (clear_checkout_throttle t.token s)

unfoldable pub fire : Config → ℕ → ℕ → Timer → Store → Reply Payment × Store
fire config now ref t s = fire_by config now ref t t.wrong_pin s
