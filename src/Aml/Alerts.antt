-- ===== src/Aml/Alerts.antt =====
-- services/aml-service/src/aml/aml.service.ts and rabbit/aml-event.publisher.ts: alerts, what is
-- published, and the decisions of the compliance office; and handleAmlAlert of
-- services/api-core/src/amq/aml-consumer.service.ts, which reads the messages.
use cauripay.Common.{
  ℕ, Bool, true, false, ◌||◌, Option, none, some, List, [], ◌∷◌, ltb, leb, ◌==◌, if◌then◌else◌,
  length,
}
use cauripay.Common.Dict.{Dict, lookup, insert, find_row}
use cauripay.Rules.{TransactionType, trim}
use cauripay.ApiCore.World.{World, Wallet, WalletStatus, AuditAction}
use cauripay.Aml.Names.{Text}
use cauripay.Aml.Screen.{SanctionedEntity, Kind, Match, ScreeningResult, miss, hit, screen}
use cauripay.Aml.Score.{RiskInput, RiskScore, Reason, score}

-- A missing or empty name is `none`. The scoring only asks whether the type is CASH_OUT: the names
-- that the ledger uses and `TransactionType` does not have stand as `p2p`.
pub record FinancialEvent : Type 0 where
  pub transaction_id : ℕ
  pub type : Option TransactionType
  pub amount_minor : Option ℕ
  pub sender_name : Option Text
  pub recipient_name : Option Text
  pub wallet_ids : List ℕ

pub data Severity : Type 0 where
  medium high critical : Severity

pub data AlertStatus : Type 0 where
  opened reviewed confirmed false_positive : AlertStatus

pub data Action : Type 0 where
  review confirm false_positive : Action

pub record Alert : Type 0 where
  pub id : ℕ
  pub transaction_id : ℕ
  pub risk_score : ℕ
  pub severity : Severity
  pub reason : List Reason
  pub status : AlertStatus
  pub comment : Option Text
  pub created_by : Option ℕ

pub record AmlAction : Type 0 where
  pub alert_id : ℕ
  pub action : Action
  pub comment : Text
  pub actor_id : Option ℕ

-- The fields of the JSON objects on `aml.events`, of both sides.
pub data Field : Type 0 where
  alert_id transaction_id severity risk_score wallet_ids freeze resolution wallet_id : Field

pub data Value : Type 0 where
  number : ℕ → Value
  numbers : List ℕ → Value
  level : Severity → Value
  flag : Bool → Value
  decision : Action → Value

abbrev pub Json : Type 0
Json = List (Field × Value)

pub record AmlStore : Type 0 where
  pub alerts : Dict Alert
  pub actions : List AmlAction
  pub published : List Json

abbrev pub first_found : ScreeningResult → ScreeningResult → Option Match
first_found (hit m) other = some m
first_found miss (hit m) = some m
first_found miss miss = none

abbrev pub kind_found : Option Match → Option Kind
kind_found none = none
kind_found (some m) = some m.kind

abbrev pub country_found : Option Match → Option Text
country_found none = none
country_found (some m) = m.entity.country

abbrev pub is_exact : Option Kind → Bool
is_exact (some Kind.exact) = true
is_exact _ = false

abbrev pub type_or_p2p : Option TransactionType → TransactionType
type_or_p2p none = TransactionType.p2p
type_or_p2p (some t) = t

-- `event.amountMinor ?? '0'`.
abbrev pub amount_or_zero : Option ℕ → Option ℕ
amount_or_zero none = some 0
amount_or_zero (some n) = some n

-- What is scored; `todayTransactionCount` always answers zero.
abbrev pub risk_input : FinancialEvent → Option Match → RiskInput
risk_input event found = record {
  amount = amount_or_zero event.amount_minor;
  type = type_or_p2p event.type;
  country = country_found found;
  today_count = 0;
  sanctions_hit = kind_found found;
}

abbrev pub severity_of : Bool → ℕ → Severity
severity_of true n = Severity.critical
severity_of false n = if leb 85 n then Severity.high else Severity.medium

abbrev pub new_alert : ℕ → FinancialEvent → Bool → RiskScore → Alert
new_alert id event is_critical s = record {
  id = id;
  transaction_id = event.transaction_id;
  risk_score = s.score;
  severity = severity_of is_critical s.score;
  reason = s.reasons;
  status = AlertStatus.opened;
  comment = none;
  created_by = none;
}

abbrev pub alert_created : Alert → List ℕ → Bool → Json
alert_created a wallets frozen =
    (Field.alert_id, number a.id)
    ∷ (Field.transaction_id, number a.transaction_id)
    ∷ (Field.severity, level a.severity)
    ∷ (Field.risk_score, number a.risk_score)
    ∷ (Field.wallet_ids, numbers wallets)
    ∷ (Field.freeze, flag frozen)
    ∷ []

abbrev pub alert_resolved : ℕ → ℕ → Action → Json
alert_resolved alert transaction action =
    (Field.alert_id, number alert)
    ∷ (Field.transaction_id, number transaction)
    ∷ (Field.resolution, decision action)
    ∷ []

-- `duplicate`: the column `transactionId` is unique, and the exception sends the event to the dead
-- letters.
pub data Analysis : Type 0 where
  no_alert duplicate : Analysis
  created : ℕ → Analysis

abbrev pub raise_alert : Option Alert → Alert → Json → AmlStore → Analysis × AmlStore
raise_alert (some old) a message store = (duplicate, store)
raise_alert none a message store = (
  created a.id,
  record store { alerts = insert a.id a store.alerts; published = message ∷ store.published },
)

abbrev pub alert_of : ℕ → AmlStore → Option Alert
alert_of transaction store = find_row (λ (a : Alert). a.transaction_id == transaction) store.alerts

abbrev pub decide : Bool → ℕ → FinancialEvent → Bool → RiskScore → AmlStore → Analysis × AmlStore
decide false id event is_critical s store = (no_alert, store)
decide true id event is_critical s store =
    let a = new_alert id event is_critical s in
    raise_alert (alert_of event.transaction_id store) a
      (alert_created a event.wallet_ids (is_critical || leb 85 s.score)) store

abbrev pub assess : ℕ → FinancialEvent → Option Match → AmlStore → Analysis × AmlStore
assess id event found store =
    let s = score (risk_input event found) in
    let is_critical = is_exact (kind_found found) in
    decide (s.alert || is_critical) id event is_critical s store

abbrev pub screened : (Text → ScreeningResult) → Option Text → ScreeningResult
screened f none = miss
screened f (some name) = f name

-- `id` is the id that an alert gets.
unfoldable pub analyze :
    (nfd lower : Text → Text)
    → List SanctionedEntity
    → ℕ
    → FinancialEvent
    → AmlStore
    → Analysis × AmlStore
analyze nfd lower lists id event store =
    assess id event
      (first_found (screened (screen nfd lower lists) event.sender_name)
        (screened (screen nfd lower lists) event.recipient_name))
      store

pub data ActResult : Type 0 where
  comment_required alert_not_found : ActResult
  updated : Alert → ActResult

abbrev pub next_status : Action → AlertStatus
next_status Action.review = AlertStatus.reviewed
next_status Action.confirm = AlertStatus.confirmed
next_status Action.false_positive = AlertStatus.false_positive

abbrev pub resolve : Action → Alert → AmlStore → AmlStore
resolve Action.review a store = store
resolve action a store = record store {
  published = alert_resolved a.id a.transaction_id action ∷ store.published;
}

abbrev pub act_found : Option Alert → ℕ → Action → Text → Option ℕ → AmlStore → ActResult × AmlStore
act_found none id action comment actor store = (alert_not_found, store)
act_found (some a) id action comment actor store =
    let done = record a {
      status = next_status action;
      comment = some (trim comment);
      created_by = actor;
    } in
    (
      updated done,
      resolve action a (record store {
        alerts = insert id done store.alerts;
        actions =
            record { alert_id = id; action = action; comment = trim comment; actor_id = actor }
            ∷ store.actions;
      }),
    )

unfoldable pub act_on_alert : ℕ → Action → Text → Option ℕ → AmlStore → ActResult × AmlStore
act_on_alert id action comment actor store =
    if ltb (length (trim comment)) 5
    then (comment_required, store)
    else act_found (lookup id store.alerts) id action comment actor store

-- `event.walletId` of a parsed message; zero and other values are not ids of wallets.
abbrev pub wallet_id_of : Json → Option ℕ
wallet_id_of [] = none
wallet_id_of ((Field.wallet_id, number n) ∷ rest) = some n
wallet_id_of (x ∷ rest) = wallet_id_of rest

abbrev pub freeze_wallet : ℕ → Option Wallet → World → World
freeze_wallet id none w = w
freeze_wallet id (some x) w = record w {
  wallets = insert id (record x { status = WalletStatus.frozen }) w.wallets;
  audit_logs =
      record { action = AuditAction.aml_freeze; resource_id = id; actor_id = none } ∷ w.audit_logs;
}

abbrev pub freeze_target : Option ℕ → World → World
freeze_target none w = w
freeze_target (some id) w = freeze_wallet id (lookup id w.wallets) w

-- A wallet that is not there makes the update throw, which is caught and logged.
unfoldable pub handle_aml_alert : Json → World → World
handle_aml_alert message w = freeze_target (wallet_id_of message) w
