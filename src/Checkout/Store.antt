-- ===== src/Checkout/Store.antt =====
-- legacy/server/src/payments.ts, registries.ts and throttle.ts: the rows, the state machine of a
-- payment, and what one process holds. The rows of `events` are kept newest first; their order by
-- `created_at` and rowid is the order in which they were written. Times are milliseconds.
use cauripay.Common.{
  ℕ, ◌+◌, ◌*◌, Bool, false, true, Option, none, some, List, [], ◌∷◌, ltb, leb, if◌then◌else◌,
  is_some,
}
use cauripay.Common.Dict.{Dict, lookup, insert, erase}

pub data Status : Type 0 where
  pending processing succeeded failed cancelled expired : Status

pub data EventType : Type 0 where
  created processing succeeded failed cancelled expired : EventType

abbrev pub transitions : Status → Status → Option EventType
transitions Status.pending Status.processing = some EventType.processing
transitions Status.pending Status.cancelled = some EventType.cancelled
transitions Status.pending Status.succeeded = some EventType.succeeded
transitions Status.pending Status.failed = some EventType.failed
transitions Status.pending Status.expired = some EventType.expired
transitions Status.processing Status.succeeded = some EventType.succeeded
transitions Status.processing Status.failed = some EventType.failed
transitions Status.processing Status.expired = some EventType.expired
transitions _ _ = none

abbrev pub can_transition : Status → Status → Bool
can_transition source target = is_some (transitions source target)

-- `TERMINAL` of routes/checkout.ts.
abbrev pub is_terminal : Status → Bool
is_terminal Status.pending = false
is_terminal Status.processing = false
is_terminal _ = true

-- `input.currency.toUpperCase()`: a code of the registry, or any other text.
pub data Currency : Type 0 where
  xof xaf gnf cdf ngn ghs eur usd : Currency
  other : ℕ → Currency

abbrev pub currency_by_code : Currency → Bool
currency_by_code (other _) = false
currency_by_code _ = true

pub data Method : Type 0 where
  orange_money mtn_momo moov_money wave card international : Method
  unlisted : ℕ → Method

abbrev pub method_by_id : Method → Bool
method_by_id (unlisted _) = false
method_by_id _ = true

abbrev pub all_method_ids : List Method
all_method_ids =
    Method.orange_money ∷ Method.mtn_momo ∷ Method.moov_money ∷ Method.wave ∷ Method.card
    ∷ Method.international ∷ []

pub data Mode : Type 0 where
  test live : Mode

pub record Payment : Type 0 where
  pub id : ℕ
  pub merchant_id : ℕ
  pub amount_minor : ℕ
  pub currency : Currency
  pub methods : List Method
  pub status : Status
  pub provider : Option Method
  pub provider_ref : Option ℕ
  pub phone : Option (List ℕ)
  pub description : List ℕ
  pub metadata : Option ℕ
  pub redirect_url : Option (List ℕ)
  pub idempotency_key : Option ℕ
  pub mode : Mode
  pub checkout_token : ℕ
  pub created_at : ℕ
  pub updated_at : ℕ

pub data Reason : Type 0 where
  too_many_attempts incorrect_pin : Reason
  given : ℕ → Reason

-- A row of `events`: its data is the payment as it was, and the reason.
pub record Event : Type 0 where
  pub payment_id : ℕ
  pub type : EventType
  pub payment : Payment
  pub reason : Option Reason
  pub created_at : ℕ

pub record Throttle : Type 0 where
  pub failures : ℕ
  pub blocked_until : Option ℕ

-- What `setTimeout` holds for a confirmed checkout; `wrong_pin` is `pin === '0000'`.
pub record Timer : Type 0 where
  pub token : ℕ
  pub merchant_id : ℕ
  pub payment_id : ℕ
  pub wrong_pin : Bool

-- `dispatched` are the calls of `dispatchEvent`, which only reads the payment.
pub record Store : Type 0 where
  pub payments : Dict Payment
  pub events : List Event
  pub dispatched : List Event
  pub throttle : Dict Throttle
  pub timers : List Timer

-- CHECKOUT_MAX_PIN_FAILURES and CHECKOUT_BLOCK_MINUTES, which config.ts reads.
pub record Config : Type 0 where
  pub checkout_max_pin_failures : ℕ
  pub checkout_block_minutes : ℕ

abbrev pub blocked_at : ℕ → Option Throttle → Bool
blocked_at now none = false
blocked_at now (some row) = elim row.blocked_until [ none ↦ false | some t ↦ ltb now t ]

abbrev pub is_checkout_blocked : ℕ → ℕ → Store → Bool
is_checkout_blocked now token s = blocked_at now (lookup token s.throttle)

abbrev pub failures_of : Option Throttle → ℕ
failures_of none = 0
failures_of (some row) = row.failures

abbrev pub put_throttle : ℕ → Throttle → Store → Store
put_throttle token row s = record s { throttle = insert token row s.throttle }

-- What is stored for the next failure, and whether it blocks the token.
abbrev pub next_throttle : Config → ℕ → ℕ → Throttle × Bool
next_throttle config now failures =
    if leb config.checkout_max_pin_failures failures
    then (
      record {
        failures = failures;
        blocked_until = some (now + config.checkout_block_minutes * 60_000);
      },
      true,
    )
    else (record { failures = failures; blocked_until = none }, false)

abbrev pub register_pin_failure : Config → ℕ → ℕ → Store → Bool × Store
register_pin_failure config now token s =
    if is_checkout_blocked now token s
    then (true, s)
    else let next = next_throttle config now (failures_of (lookup token s.throttle) + 1) in
      (next.1, put_throttle token next.0 s)

abbrev pub clear_checkout_throttle : ℕ → Store → Store
clear_checkout_throttle token s = record s { throttle = erase token s.throttle }
