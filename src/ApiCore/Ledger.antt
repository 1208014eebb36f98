-- ===== src/ApiCore/Ledger.antt =====
-- services/api-core/src/ledger-client/ledger-client.service.ts. The ledger is another service: it
-- is a function `serve` from the calls that it has received, the latest first, to the answer of
-- the HTTP exchange, so it may keep any state and fail at any time.
use cauripay.Common.{ℕ, Bool, Option, none, some, List, ◌∷◌, if◌then◌else◌, not, ◌||◌}
use cauripay.ApiCore.World.{Action, Result, ok, err, LedgerCall, ledger_refused, ledger_unavailable}

-- `data` of a successful body: the available balance, or the entries written.
pub record Payload : Type 0 where
  pub available_balance : ℕ
  pub ledger_entry_ids : List ℕ

-- A parsed JSON body: `success`, `data`, and the code of `error`.
pub record Body : Type 0 where
  pub success : Bool
  pub payload : Payload
  pub error_code : Option ℕ

-- What `fetch` gives: an exception (network, abort after the time limit), or a response with the
-- `ok` flag of its status and its body, if that is JSON.
pub data Exchange : Type 0 where
  broken : Exchange
  response : Bool → Option Body → Exchange

-- The code LEDGER_ERROR, which stands for a missing one.
abbrev pub default_code : ℕ
default_code = 0

abbrev pub code_of : Option Body → ℕ
code_of none = default_code
code_of (some b) = elim b.error_code [ none ↦ default_code | some c ↦ c ]

-- `request`: a failed response is a typed error with the ledger's code, anything else that goes
-- wrong is LEDGER_UNAVAILABLE.
unfoldable pub read_exchange : Exchange → Result Payload
read_exchange broken = err ledger_unavailable
read_exchange (response status_ok none) = err (ledger_refused default_code)
read_exchange (response status_ok (some b)) =
    if not status_ok || not b.success then err (ledger_refused (code_of (some b))) else ok b.payload

module _ (serve : List LedgerCall → Exchange) where
  unfoldable pub request : LedgerCall → Action Payload
  unfolding read_exchange
  request c w = (read_exchange (serve (c ∷ w.calls)), record w { calls = c ∷ w.calls })
