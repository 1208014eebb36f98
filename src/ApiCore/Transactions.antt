-- ===== src/ApiCore/Transactions.antt =====
-- services/api-core/src/transactions/transactions.service.ts and fees-limits.service.ts. One
-- request runs at a time; the database does not fail, but for an update of a row that is not
-- there. The SVG receipt and the free text of descriptions and reasons are left out.
pub mod Transfer
pub mod Cash
pub mod CashOut
pub mod Reverse
use mathlib.Core.Option
use cauripay.Common.{
  ℕ, ◌+◌, Bool, false, true, ◌||◌, ◌&&◌, not, Option, none, some, List, [], ◌∷◌, leb, ◌==◌,
  if◌then◌else◌, find, sum_by,
}
use cauripay.Common.Int.{pos}
use cauripay.Common.Dict.{Dict, lookup, insert, find_row}
use cauripay.Rules.{
  TransactionType, FeeResult, bad_amount, fee, calculate_fee, LimitCheck, check_kyc_limit,
}
use cauripay.ApiCore.World.{
  Role, User, WalletType, WalletStatus, Wallet, is_active, TransactionStatus, Failure, ledger_code,
  ledger_error, Transaction, AuditAction, AuditLog, FinancialEvent, Purpose, LedgerKey, tx, rev,
  LedgerCall, get_balance, transfer_atomic, credit, debit, World, Env, ApiError, Action, Result, ok,
  err, pure, raise, gets, or_raise, raise_if, modify, ◌>>=◌, ◌>>◌, not_found, wallet_inactive,
  recipient_not_found, client_not_found, no_wallet, forbidden, kyc_limit_exceeded, ledger_refused,
  unexpected, attempt,
}
use cauripay.ApiCore.Status.{same_status, assert_transition}
use cauripay.ApiCore.Ledger.{Exchange, Payload, request}
use cauripay.ApiCore.Auth.{send_otp, verify_otp, find_by_phone}

-- Thirty and five minutes.
abbrev pub transfer_ttl : ℕ
transfer_ttl = 1_800_000

abbrev pub cash_in_ttl : ℕ
cash_in_ttl = 300_000

pub record TransferDto : Type 0 where
  pub idempotency_key : ℕ
  pub to_account_number : ℕ
  pub amount : ℕ

-- The body of cash-in and of cash-out; the code is that of cash-out.
pub record CashDto : Type 0 where
  pub idempotency_key : ℕ
  pub client_phone : ℕ
  pub amount : ℕ
  pub otp : ℕ

abbrev pub is_id : ℕ → Option ℕ → Bool
is_id n none = false
is_id n (some m) = m == n

abbrev pub find_by_key : ℕ → World → Option Transaction
find_by_key key w = find_row (λ (r : Transaction). r.idempotency_key == key) w.transactions

-- `wallets.find((w) => w.status === ACTIVE)` on the wallets of a user.
abbrev pub active_wallet : ℕ → World → Option Wallet
active_wallet owner w =
    find_row (λ (r : Wallet). is_id owner r.owner_id && is_active r.status) w.wallets

abbrev pub find_account : ℕ → World → Option Wallet
find_account number w = find_row (λ (r : Wallet). r.account_number == number) w.wallets

abbrev pub is_platform_fees : WalletType → Bool
is_platform_fees WalletType.platform_fees = true
is_platform_fees _ = false

abbrev pub platform_fees_wallet : World → Option ℕ
platform_fees_wallet w =
    Option.map (λ (r : Wallet). r.id) (find_row (λ r. is_platform_fees r.type) w.wallets)

-- `sumSuccess`: what the user has sent since a time, in completed transactions.
abbrev pub sum_success : ℕ → ℕ → World → ℕ
sum_success user since w =
    sum_by
      (λ (e : ℕ × Transaction).
        if is_id user e.1.sender_id
          && same_status e.1.status TransactionStatus.success
          && leb since e.1.created_at
        then e.1.amount
        else 0)
      w.transactions

abbrev pub failure_of : ApiError → Failure
failure_of (ledger_refused code) = ledger_code code
failure_of _ = ledger_error

abbrev pub save_tx : Transaction → World → World
save_tx t w = record w { transactions = insert t.id t w.transactions }

-- `transaction.update({ where: { id }, data })`, which returns the new row.
abbrev pub write_row : Option Transaction → ℕ → (Transaction → Transaction) → Action Transaction
write_row none id change w = (err unexpected, w)
write_row (some t) id change w =
    (ok (change t), record w { transactions = insert id (change t) w.transactions })

abbrev pub update_tx : ℕ → (Transaction → Transaction) → Action Transaction
update_tx id change w = write_row (lookup id w.transactions) id change w

abbrev pub failed_row : ApiError → Transaction → Transaction
failed_row e t = record t {
  status = TransactionStatus.failed;
  failure_reason = some (failure_of e);
}

abbrev pub succeed : Env → List ℕ → Transaction → Transaction
succeed env ids t = record t {
  status = TransactionStatus.success;
  ledger_entry_ids = ids;
  reversed_at = none;
  processed_at = some env.now;
}

-- The update of `reverse`: the metadata are those of the row that was read, with `reversedAt`.
abbrev pub reversed_row : Env → Transaction → Transaction → Transaction
reversed_row env read t = record t {
  status = TransactionStatus.reversed;
  ledger_entry_ids = read.ledger_entry_ids;
  reversed_at = some env.now;
}

abbrev pub audit : ℕ → AuditAction → ℕ → World → World
audit resource action actor w = record w {
  audit_logs =
      record { action = action; resource_id = resource; actor_id = some actor } ∷ w.audit_logs;
}

abbrev pub publish : Transaction → World → World
publish t w = record w {
  events =
      record { transaction_id = t.id; type = t.type; amount = t.amount; status = t.status }
      ∷ w.events;
}

abbrev pub require_ok : LimitCheck → Action (Unit {0})
require_ok LimitCheck.ok = pure tt
require_ok reason = raise (kyc_limit_exceeded reason)

-- `FeesService.calculate`: a bad amount is an exception with no code.
abbrev pub charge : FeeResult → Action ℕ
charge bad_amount = raise unexpected
charge (fee f base) = pure f

pub data RequiredRole : Type 0 where
  needs_agent needs_support_l2 : RequiredRole

abbrev pub role_allowed : RequiredRole → Role → Bool
role_allowed RequiredRole.needs_agent Role.agent = true
role_allowed RequiredRole.needs_support_l2 Role.support_l2 = true
role_allowed _ Role.super_admin = true
role_allowed _ _ = false

abbrev pub role_result : RequiredRole → Option User → Result User
role_result role none = err not_found
role_result role (some u) = if role_allowed role u.role then ok u else err forbidden

abbrev pub require_role : ℕ → RequiredRole → Action User
require_role user_id role w = (role_result role (lookup user_id w.users), w)

abbrev pub or_existing : {A : Type 0} → Option Transaction → (Transaction → A) → Action A → Action A
or_existing none f m = m
or_existing (some t) f m = pure (f t)

abbrev pub new_transfer : Env → TransferDto → User → Wallet → Wallet → ℕ → Transaction
new_transfer env dto sender source target fee_amount = record {
  id = env.fresh_id;
  idempotency_key = dto.idempotency_key;
  type = TransactionType.p2p;
  status = TransactionStatus.pending;
  amount = dto.amount;
  fee_amount = fee_amount;
  sender_id = some sender.id;
  recipient_id = target.owner_id;
  sender_wallet_id = some source.id;
  recipient_wallet_id = some target.id;
  failure_reason = none;
  ledger_entry_ids = [];
  reversed_at = none;
  created_at = env.now;
  processed_at = none;
  expires_at = env.now + transfer_ttl;
}

abbrev pub new_cash_in : Env → CashDto → User → User → Wallet → Transaction
new_cash_in env dto agent client wallet = record {
  id = env.fresh_id;
  idempotency_key = dto.idempotency_key;
  type = TransactionType.cash_in;
  status = TransactionStatus.pending;
  amount = dto.amount;
  fee_amount = 0;
  sender_id = some agent.id;
  recipient_id = some client.id;
  sender_wallet_id = none;
  recipient_wallet_id = some wallet.id;
  failure_reason = none;
  ledger_entry_ids = [];
  reversed_at = none;
  created_at = env.now;
  processed_at = none;
  expires_at = env.now + cash_in_ttl;
}

abbrev pub new_cash_out : Env → CashDto → User → User → Wallet → ℕ → Transaction
new_cash_out env dto agent client wallet fee_amount = record {
  id = env.fresh_id;
  idempotency_key = dto.idempotency_key;
  type = TransactionType.cash_out;
  status = TransactionStatus.pending;
  amount = dto.amount;
  fee_amount = fee_amount;
  sender_id = some client.id;
  recipient_id = some agent.id;
  sender_wallet_id = some wallet.id;
  recipient_wallet_id = none;
  failure_reason = none;
  ledger_entry_ids = [];
  reversed_at = none;
  created_at = env.now;
  processed_at = none;
  expires_at = env.now + transfer_ttl;
}

abbrev pub is_cash_in : TransactionType → Bool
is_cash_in TransactionType.cash_in = true
is_cash_in _ = false

module _ (serve : List LedgerCall → Exchange) (scrypt : ℕ → ℕ → ℕ) where
  -- What `transfer` does with the ledger's answer: the `catch` block, or steps 8 and 9.
  abbrev pub close_transfer : Env → ℕ → ℕ → Result Payload → Action Transaction
  close_transfer env user_id id (err e) = do update_tx id (failed_row e); raise e
  close_transfer env user_id id (ok reply) = do
    done ← update_tx id (succeed env reply.ledger_entry_ids)
    modify (audit id AuditAction.transfer_success user_id)
    modify (publish done)
    pure done

  -- Steps 6 to 9 of `transfer`, on the row that it creates.
  unfoldable pub settle_transfer : Env → ℕ → Transaction → ℕ → ℕ → Action Transaction
  unfolding request
  settle_transfer env user_id t source target = do
    modify (save_tx t)
    platform ← gets platform_fees_wallet
    reply ← attempt (
        request serve (transfer_atomic (tx t.id) t.id source target t.amount t.fee_amount platform))
    close_transfer env user_id t.id reply

  unfoldable pub start_transfer : Env → ℕ → TransferDto → Action Transaction
  unfolding request
  start_transfer env user_id dto = do
    sender ← or_raise (← gets (λ w. lookup user_id w.users)) not_found
    source ← or_raise (← gets (active_wallet sender.id)) wallet_inactive
    target ← or_raise (← gets (find_account dto.to_account_number)) recipient_not_found
    raise_if (not (is_active target.status)) recipient_not_found
    balance ← request serve (get_balance source.id)
    daily ← gets (sum_success sender.id env.day_start)
    monthly ← gets (sum_success sender.id env.month_start)
    require_ok (check_kyc_limit sender.kyc_level dto.amount daily monthly balance.available_balance)
    fee_amount ← charge (calculate_fee TransactionType.p2p (pos dto.amount))
    settle_transfer env user_id (new_transfer env dto sender source target fee_amount) source.id
        target.id

  unfoldable pub transfer : Env → ℕ → TransferDto → Action Transaction
  transfer env user_id dto = do
    existing ← gets (find_by_key dto.idempotency_key)
    or_existing existing (λ t. t) (start_transfer env user_id dto)

  -- The result is the row's id, and whether a code is awaited.
  unfoldable pub cash_in : Env → ℕ → CashDto → Action (ℕ × Bool)
  cash_in env agent_id dto = do
    agent ← require_role agent_id RequiredRole.needs_agent
    client ← or_raise (← gets (find_by_phone dto.client_phone)) client_not_found
    wallet ← or_raise (← gets (active_wallet client.id)) wallet_inactive
    existing ← gets (find_by_key dto.idempotency_key)
    or_existing existing (λ t. (t.id, false))
        (do
          modify (save_tx (new_cash_in env dto agent client wallet))
          send_otp scrypt env client Purpose.cash_in
          pure (env.fresh_id, true))

  -- `confirmCashIn` once the code is checked.
  unfoldable pub credit_client : Env → ℕ → Action Transaction
  unfolding request
  credit_client env transaction_id = do
    t ← or_raise (← gets (λ w. lookup transaction_id w.transactions)) not_found
    raise_if (not (is_cash_in t.type)) not_found
    assert_transition t.status TransactionStatus.processing
    wallet ← or_raise t.recipient_wallet_id no_wallet
    reply ← request serve (credit (tx t.id) t.id wallet t.amount)
    done ← update_tx t.id (succeed env reply.ledger_entry_ids)
    modify (publish done)
    pure done

  unfoldable pub confirm_cash_in :
      Env → ℕ → (transaction_id client_phone otp : ℕ) → Action Transaction
  unfolding credit_client verify_otp
  confirm_cash_in env agent_id transaction_id client_phone otp = do
    require_role agent_id RequiredRole.needs_agent
    verify_otp scrypt env client_phone otp Purpose.cash_in
    credit_client env transaction_id

  -- The `try` block of `cashOut` after the ledger's answer, and its `catch` block.
  abbrev pub close_cash_out : Env → ℕ → Result Payload → Action Transaction
  close_cash_out env id (err e) = do update_tx id (failed_row e); raise e
  close_cash_out env id (ok reply) = do
    done ← update_tx id (succeed env reply.ledger_entry_ids)
    modify (publish done)
    pure done

  unfoldable pub settle_cash_out : Env → Transaction → ℕ → Action Transaction
  unfolding request
  settle_cash_out env t wallet = do
    modify (save_tx t)
    reply ← attempt (request serve (debit (tx t.id) t.id wallet t.amount))
    close_cash_out env t.id reply

  -- `cashOut` once the code is checked.
  unfoldable pub pay_out : Env → CashDto → User → Action Transaction
  pay_out env dto agent = do
    client ← or_raise (← gets (find_by_phone dto.client_phone)) client_not_found
    wallet ← or_raise (← gets (active_wallet client.id)) wallet_inactive
    existing ← gets (find_by_key dto.idempotency_key)
    or_existing existing (λ t. t)
        (do
          fee_amount ← charge (calculate_fee TransactionType.cash_out (pos dto.amount))
          settle_cash_out env (new_cash_out env dto agent client wallet fee_amount) wallet.id)

  unfoldable pub cash_out : Env → ℕ → CashDto → Action Transaction
  unfolding pay_out verify_otp
  cash_out env agent_id dto = do
    agent ← require_role agent_id RequiredRole.needs_agent
    verify_otp scrypt env dto.client_phone dto.otp Purpose.cash_out
    pay_out env dto agent

  unfoldable pub reverse : Env → (user_id transaction_id : ℕ) → Action Transaction
  unfolding request
  reverse env user_id transaction_id = do
    require_role user_id RequiredRole.needs_support_l2
    t ← or_raise (← gets (λ w. lookup transaction_id w.transactions)) not_found
    assert_transition t.status TransactionStatus.reversed
    request serve (LedgerCall.reverse t.id (rev t.id))
    done ← update_tx transaction_id (reversed_row env t)
    modify (audit transaction_id AuditAction.reverse user_id)
    pure done
