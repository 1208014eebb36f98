-- ===== src/ApiCore/World.antt =====
-- What the handlers of services/api-core read and write: the tables of prisma/schema.prisma, the
-- Redis keys, the published events and the calls made to the ledger. A handler is a function from
-- this state to a result or a thrown error and the new state; what was written before a throw
-- stays written. Times are milliseconds. Free text (names, descriptions) is left out.
use cauripay.Common.{
  ◌≡◌, refl, ◌⊎◌, inl, inr, ℕ, Bool, false, true, Option, none, some, List, ltb, if◌then◌else◌,
}
use cauripay.Common.Dict.{Dict}
use cauripay.Rules.{TransactionType, KycLevel, LimitCheck}

-- A secret as password.util.ts stores it: `<salt>:<hash>`.
pub record Secret : Type 0 where
  pub salt : ℕ
  pub digest : ℕ

pub data Role : Type 0 where
  customer merchant agent distributor super_admin compliance_officer : Role
  support_l1 support_l2 finance_manager ops_agent_manager : Role

pub data UserStatus : Type 0 where
  active suspended locked closed : UserStatus

pub record User : Type 0 where
  pub id : ℕ
  pub phone : ℕ
  pub password_hash : Secret
  pub mpin_hash : Option Secret
  pub role : Role
  pub status : UserStatus
  pub kyc_level : KycLevel
  pub phone_verified : Bool
  pub failed_attempts : ℕ
  pub locked_until : Option ℕ

pub data WalletType : Type 0 where
  customer agent agent_float merchant platform_fees platform_revenue : WalletType

pub data WalletStatus : Type 0 where
  active frozen closed : WalletStatus

pub record Wallet : Type 0 where
  pub id : ℕ
  pub account_number : ℕ
  pub type : WalletType
  pub status : WalletStatus
  pub owner_id : Option ℕ

pub data TransactionStatus : Type 0 where
  pending processing success failed cancelled reversed : TransactionStatus

-- `failureReason`: the ledger's code, or LEDGER_ERROR for any other exception.
pub data Failure : Type 0 where
  ledger_code : ℕ → Failure
  ledger_error : Failure

pub record Transaction : Type 0 where
  pub id : ℕ
  pub idempotency_key : ℕ
  pub type : TransactionType
  pub status : TransactionStatus
  pub amount : ℕ
  pub fee_amount : ℕ
  pub sender_id : Option ℕ
  pub recipient_id : Option ℕ
  pub sender_wallet_id : Option ℕ
  pub recipient_wallet_id : Option ℕ
  pub failure_reason : Option Failure
  -- `metadata`: the ids of the ledger's entries, and `reversedAt`
  pub ledger_entry_ids : List ℕ
  pub reversed_at : Option ℕ
  pub created_at : ℕ
  pub processed_at : Option ℕ
  pub expires_at : ℕ

pub data AuditAction : Type 0 where
  transfer_success reverse register change_mpin aml_freeze : AuditAction

pub record AuditLog : Type 0 where
  pub action : AuditAction
  pub resource_id : ℕ
  pub actor_id : Option ℕ

-- A message on `financial.events`; the only event type is `transaction.completed`.
pub record FinancialEvent : Type 0 where
  pub transaction_id : ℕ
  pub type : TransactionType
  pub amount : ℕ
  pub status : TransactionStatus

pub data Purpose : Type 0 where
  login cash_in cash_out : Purpose

pub record OtpRow : Type 0 where
  pub user_id : ℕ
  pub code_hash : Secret
  pub purpose : Purpose
  pub expires_at : ℕ

-- A Redis entry: its value, and when it expires.
pub record Entry (V : Type 0) : Type 0 where
  pub value : V
  pub expires_at : Option ℕ

-- The keys `tx:<id>` and `rev:<id>`.
pub data LedgerKey : Type 0 where
  tx rev : ℕ → LedgerKey

pub data LedgerCall : Type 0 where
  get_balance : (wallet : ℕ) → LedgerCall
  transfer_atomic :
      LedgerKey → (transaction source target amount fee : ℕ) → (platform : Option ℕ) → LedgerCall
  credit debit : LedgerKey → (transaction wallet amount : ℕ) → LedgerCall
  reverse : (transaction : ℕ) → LedgerKey → LedgerCall

pub record World : Type 0 where
  pub users : Dict User
  pub wallets : Dict Wallet
  pub transactions : Dict Transaction
  pub kyc_records : List ℕ
  pub audit_logs : List AuditLog
  pub otp_rows : List OtpRow
  pub events : List FinancialEvent
  pub calls : List LedgerCall
  -- `auth:lock:<phone>`, `auth:fail:<phone>` and `otp:<purpose>:<phone>`
  pub locks : ℕ → Option (Entry (Unit {0}))
  pub fails : ℕ → Option (Entry ℕ)
  pub otps : Purpose → ℕ → Option (Entry Secret)

-- The clock, the starts of the day and of the month, and the random values that a request draws.
pub record Env : Type 0 where
  pub now : ℕ
  pub day_start : ℕ
  pub month_start : ℕ
  pub fresh_id : ℕ
  pub salt : ℕ
  pub otp_code : ℕ

-- The error codes that the handlers throw; `unexpected` is an exception with no code.
pub data ApiError : Type 0 where
  not_found wallet_inactive recipient_not_found client_not_found no_wallet forbidden : ApiError
  kyc_limit_exceeded : LimitCheck → ApiError
  invalid_transition : TransactionStatus → TransactionStatus → ApiError
  ledger_refused : ℕ → ApiError
  ledger_unavailable unexpected : ApiError
  invalid_phone weak_password phone_taken account_locked invalid_credentials : ApiError
  phone_not_verified account_suspended invalid_otp invalid_refresh invalid_mpin : ApiError

pub data Result (A : Type 0) : Type 0 where
  ok : A → Result A
  err : ApiError → Result A

abbrev pub Action : Type 0 → Type 0
Action A = World → Result A × World

module _ {A : Type 0} where
  abbrev pub pure : A → Action A
  pure a w = (ok a, w)

  abbrev pub raise : ApiError → Action A
  raise e w = (err e, w)

  abbrev pub gets : (World → A) → Action A
  gets f w = (ok (f w), w)

  abbrev pub or_raise : Option A → ApiError → Action A
  or_raise none e = raise e
  or_raise (some a) _ = pure a

abbrev pub and_then : {A B : Type 0} → Result A × World → (A → Action B) → Result B × World
and_then (ok a, w) f = f a w
and_then (err e, w) f = (err e, w)

infixl 5 ◌>>=◌ ◌>>◌
abbrev pub ◌>>=◌ : {A B : Type 0} → Action A → (A → Action B) → Action B
◌>>=◌ m f w = and_then (m w) f

abbrev pub ◌>>◌ : {A B : Type 0} → Action A → Action B → Action B
m >> k = m >>= λ _. k

-- `try { m } catch`: the outcome as a value.
abbrev pub attempt : {A : Type 0} → Action A → Action (Result A)
attempt m w = let (r, w') = m w in (ok r, w')

abbrev pub raise_if : Bool → ApiError → Action (Unit {0})
raise_if c e w = (if c then err e else ok tt, w)

abbrev pub modify : (World → World) → Action (Unit {0})
modify f w = (ok tt, f w)

abbrev pub is_active : WalletStatus → Bool
is_active WalletStatus.active = true
is_active _ = false

-- A Redis read: an expired key is absent.
abbrev pub live : {V : Type 0} → ℕ → Option (Entry V) → Option V
live now none = none
live now (some e) = elim e.expires_at [
  | none ↦ some e.value
  | some t ↦ if ltb now t then some e.value else none
]

pub Result-cases :
    {A : Type 0} (r : Result A) → ((a : A) × (r ≡ ok a)) ⊎ ((e : ApiError) × (r ≡ err e))
Result-cases (ok a) = inl (a, refl)
Result-cases (err e) = inr (e, refl)
