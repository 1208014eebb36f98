-- ===== src/Checkout/Payments.antt =====
-- legacy/server/src/payments.ts: creation, lookup and the state machine; and the handlers of
-- routes/payments.ts that move a payment.
use cauripay.Common.{
  ℕ, suc, Bool, false, true, not, ◌&&◌, ◌||◌, Option, none, some, List, [], ◌∷◌, ◌++◌, ltb, ◌==◌,
  if◌then◌else◌, length, all,
}
use cauripay.Common.Int.{ℤ, pos}
use cauripay.Common.Dict.{lookup, insert, find_row}
use cauripay.Rules.{trim}
use cauripay.Checkout.Store.{
  Status, EventType, transitions, Currency, currency_by_code, Method, method_by_id, all_method_ids,
  Mode, Payment, Reason, given, Event, Store,
}

pub data PaymentError : Type 0 where
  not_found : PaymentError
  invalid_state : Status → Status → PaymentError
  invalid_amount unknown_currency unknown_method invalid_request : PaymentError

pub data Reply (A : Type 0) : Type 0 where
  ok : A → Reply A
  err : PaymentError → Reply A

abbrev pub owned : ℕ → Option Payment → Option Payment
owned merchant none = none
owned merchant (some p) = if p.merchant_id == merchant then some p else none

abbrev pub get_payment : (merchant payment : ℕ) → Store → Option Payment
get_payment merchant payment s = owned merchant (lookup payment s.payments)

abbrev pub get_payment_by_checkout_token : ℕ → Store → Option Payment
get_payment_by_checkout_token token s =
    find_row (λ (p : Payment). p.checkout_token == token) s.payments

-- `emitEvent` and `dispatchEvent`, of a payment that was just written.
abbrev pub emit : Payment → EventType → Option Reason → ℕ → Store → Store
emit p type reason now s =
    let event : Event = record {
      payment_id = p.id;
      type = type;
      payment = p;
      reason = reason;
      created_at = now;
    } in
    record s { events = event ∷ s.events; dispatched = event ∷ s.dispatched }

-- `metadata` of the request: an object, or a value that is not one.
pub data Metadata : Type 0 where
  object : ℕ → Metadata
  not_object : Metadata

-- `amount_minor` is an integer or some other number. A missing or empty text is `none`.
pub record CreatePaymentInput : Type 0 where
  pub amount_minor : Option ℤ
  pub currency : Currency
  pub methods : List Method
  pub description : List ℕ
  pub metadata : Option Metadata
  pub redirect_url : Option (List ℕ)
  pub idempotency_key : Option ℕ

abbrev pub starts_with : List ℕ → List ℕ → Bool
starts_with [] text = true
starts_with (c ∷ cs) [] = false
starts_with (c ∷ cs) (d ∷ text) = c == d && starts_with cs text

abbrev pub http : List ℕ
http = b'h' ∷ b't' ∷ b't' ∷ b'p' ∷ []

abbrev pub authority : List ℕ
authority = b':' ∷ b'/' ∷ b'/' ∷ []

abbrev pub is_url : List ℕ → Bool
is_url url = starts_with (http ++ authority) url || starts_with (http ++ b's' ∷ authority) url

abbrev pub url_ok : Option (List ℕ) → Bool
url_ok none = true
url_ok (some url) = is_url url

abbrev pub positive_amount : Option ℤ → Option ℕ
positive_amount (some (pos (suc n))) = some (suc n)
positive_amount _ = none

abbrev pub metadata_ok : Option Metadata → Bool
metadata_ok (some not_object) = false
metadata_ok _ = true

abbrev pub metadata_value : Option Metadata → Option ℕ
metadata_value (some (object m)) = some m
metadata_value _ = none

abbrev pub chosen_methods : List Method → List Method
chosen_methods [] = all_method_ids
chosen_methods (m ∷ ms) = m ∷ ms

-- The checks of `createPayment`, in its order.
abbrev pub check_input : CreatePaymentInput → Reply ℕ
check_input input = elim (positive_amount input.amount_minor) [
  | none ↦ err invalid_amount
  | some n ↦
      if not (currency_by_code input.currency)
      then err unknown_currency
      else if not (all method_by_id (chosen_methods input.methods))
      then err unknown_method
      else if ltb 500 (length input.description)
      then err invalid_request
      else if not (url_ok input.redirect_url)
      then err invalid_request
      else if not (metadata_ok input.metadata)
      then err invalid_request
      else ok n
]

abbrev pub same_key : ℕ → Option ℕ → Bool
same_key key none = false
same_key key (some k) = k == key

abbrev pub find_duplicate : ℕ → Option ℕ → Store → Option Payment
find_duplicate merchant none s = none
find_duplicate merchant (some key) s =
    find_row (λ (p : Payment). p.merchant_id == merchant && same_key key p.idempotency_key)
      s.payments

-- The clock, and the random values of `newId`.
pub record Draw : Type 0 where
  pub now : ℕ
  pub fresh_id : ℕ
  pub fresh_token : ℕ

abbrev pub new_payment : Draw → ℕ → Mode → CreatePaymentInput → ℕ → Payment
new_payment draw merchant mode input amount = record {
  id = draw.fresh_id;
  merchant_id = merchant;
  amount_minor = amount;
  currency = input.currency;
  methods = chosen_methods input.methods;
  status = Status.pending;
  provider = none;
  provider_ref = none;
  phone = none;
  description = trim input.description;
  metadata = metadata_value input.metadata;
  redirect_url = input.redirect_url;
  idempotency_key = input.idempotency_key;
  mode = mode;
  checkout_token = draw.fresh_token;
  created_at = draw.now;
  updated_at = draw.now;
}

abbrev pub save_payment : Payment → Store → Store
save_payment p s = record s { payments = insert p.id p s.payments }

abbrev pub insert_payment : Payment → Store → Reply (Payment × Bool) × Store
insert_payment p s = (ok (p, false), emit p EventType.created none p.created_at (save_payment p s))

abbrev pub create_or_existing : Option Payment → Payment → Store → Reply (Payment × Bool) × Store
create_or_existing (some p) fresh s = (ok (p, true), s)
create_or_existing none fresh s = insert_payment fresh s

-- The second part of the result is `duplicate`. The search by key and the INSERT are synchronous,
-- so that its `catch` block, which repeats the search, has nothing to find.
abbrev pub create_checked :
    Draw → ℕ → Mode → CreatePaymentInput → Reply ℕ → Store → Reply (Payment × Bool) × Store
create_checked draw merchant mode input (err e) s = (err e, s)
create_checked draw merchant mode input (ok amount) s =
    create_or_existing (find_duplicate merchant input.idempotency_key s)
      (new_payment draw merchant mode input amount) s

unfoldable pub create_payment :
    Draw → ℕ → Mode → CreatePaymentInput → Store → Reply (Payment × Bool) × Store
create_payment draw merchant mode input s =
    create_checked draw merchant mode input (check_input input) s

pub record TransitionExtra : Type 0 where
  pub provider : Option Method
  pub provider_ref : Option ℕ
  pub phone : Option (List ℕ)
  pub reason : Option Reason

abbrev pub no_extra : TransitionExtra
no_extra = record { provider = none; provider_ref = none; phone = none; reason = none }

abbrev pub coalesce : {A : Type 0} → Option A → Option A → Option A
coalesce none old = old
coalesce (some a) old = some a

-- The columns that the UPDATE sets.
abbrev pub moved : ℕ → Status → TransitionExtra → Payment → Payment
moved now target extra p = record p {
  status = target;
  provider = coalesce extra.provider p.provider;
  provider_ref = coalesce extra.provider_ref p.provider_ref;
  phone = coalesce extra.phone p.phone;
  updated_at = now;
}

abbrev pub move_row :
    ℕ → Status → TransitionExtra → Payment → Option EventType → Store → Reply Payment × Store
move_row now target extra p none s = (err (invalid_state p.status target), s)
move_row now target extra p (some type) s =
    let fresh = moved now target extra p in
    (ok fresh, emit fresh type extra.reason now (save_payment fresh s))

abbrev pub transition_found :
    ℕ → Status → TransitionExtra → Option Payment → Store → Reply Payment × Store
transition_found now target extra none s = (err not_found, s)
transition_found now target extra (some p) s =
    move_row now target extra p (transitions p.status target) s

unfoldable pub transition :
    ℕ → (merchant payment : ℕ) → Status → TransitionExtra → Store → Reply Payment × Store
transition now merchant payment target extra s =
    transition_found now target extra (get_payment merchant payment s) s

abbrev pub cancel : ℕ → (merchant payment : ℕ) → Store → Reply Payment × Store
cancel now merchant payment s = transition now merchant payment Status.cancelled no_extra s

abbrev pub fail : ℕ → (merchant payment : ℕ) → Option ℕ → Store → Reply Payment × Store
fail now merchant payment reason s =
    transition now merchant payment Status.failed
      (record no_extra { reason = elim reason [ none ↦ none | some r ↦ some (given r) ] }) s

abbrev pub expire : ℕ → (merchant payment : ℕ) → Store → Reply Payment × Store
expire now merchant payment s = transition now merchant payment Status.expired no_extra s

-- A pending payment first goes through `processing`; what that returns is not read.
abbrev pub start_pending : ℕ → (merchant payment : ℕ) → Status → Store → Store
start_pending now merchant payment Status.pending s =
    (transition now merchant payment Status.processing no_extra s).1
start_pending now merchant payment _ s = s

abbrev pub approve_found :
    ℕ → ℕ → (merchant payment : ℕ) → Option Payment → Store → Reply Payment × Store
approve_found now ref merchant payment none s = (err not_found, s)
approve_found now ref merchant payment (some p) s =
    transition now merchant payment Status.succeeded (record no_extra { provider_ref = some ref })
      (start_pending now merchant payment p.status s)

unfoldable pub approve : ℕ → ℕ → (merchant payment : ℕ) → Store → Reply Payment × Store
approve now ref merchant payment s =
    approve_found now ref merchant payment (get_payment merchant payment s) s
