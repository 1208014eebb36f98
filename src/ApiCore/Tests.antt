-- ===== src/ApiCore/Tests.antt =====
-- Runs of the handlers on a small world, and the theorems at concrete inputs.
use cauripay.Common.{
  ℕ, Option, ◌+◌, ◌*◌, ◌<◌, ◌≡◌, ◌≢◌, ◌↔◌, refl, true, none, some, zero, suc, List, [], ◌∷◌, arith,
  ltb, if◌then◌else◌,
}
use cauripay.Common.Dict.{lookup, insert}
use cauripay.Rules.{
  TransactionType, KycLevel, calculate_fee, check_kyc_limit, validate_phone_number,
}
use cauripay.ApiCore.World.{
  Role, UserStatus, User, WalletType, WalletStatus, Wallet, TransactionStatus, Transaction, Purpose,
  LedgerCall, World, Env, ok, err, invalid_otp, invalid_credentials,
}
use cauripay.ApiCore.Ledger.{Exchange, broken, response, read_exchange}
use cauripay.ApiCore.Auth.{Texts, login, send_otp, verify_otp, register, issue_tokens}
use cauripay.ApiCore.Auth.Login.{MayLogIn, login_iff}
use cauripay.ApiCore.Auth.Otp.{send_verify_iff}
use cauripay.ApiCore.Auth.Account.{RegisterOutcome, register-outcome}
use cauripay.ApiCore.Transactions.{
  TransferDto, CashDto, start_transfer, settle_transfer, succeed, transfer, confirm_cash_in,
  cash_out,
}
use cauripay.ApiCore.Transactions.Transfer.{TransferOutcome, transfer-outcome}
use cauripay.ApiCore.Transactions.Cash.{TransactionsKeyed, ConfirmOutcome, confirm_cash_in-outcome}
use cauripay.ApiCore.Transactions.CashOut.{CashOutOutcome, cash_out-outcome}
use cauripay.ApiCore.Calls.{
  Call, post_login, post_transfer, post_change_mpin, post_register, run_calls,
}
use cauripay.ApiCore.Calls.Once.{confirm_cash_in_once}
use cauripay.ApiCore.Calls.Codes.{otp_single_use}
use cauripay.ApiCore.Calls.CashOuts.{cash_out-refused}
use cauripay.ApiCore.Calls.Lock.{lockout_is_permanent}
use cauripay.ApiCore.Calls.LockedRows.{UsersKeyed}

-- A digest that mixes the value and the salt.
abbrev scrypt : ℕ → ℕ → ℕ
scrypt value salt = 1000 * value + salt

abbrev user : ℕ → Role → User
user id role = record {
  id = id;
  phone = 100 + id;
  password_hash = record { salt = 1; digest = 9001 };
  mpin_hash = some (record { salt = 1; digest = 4001 });
  role = role;
  status = UserStatus.active;
  kyc_level = KycLevel.basic;
  phone_verified = true;
  failed_attempts = 0;
  locked_until = none;
}

abbrev wallet : ℕ → ℕ → Wallet
wallet id owner = record {
  id = id;
  account_number = 500 + id;
  type = WalletType.customer;
  status = WalletStatus.active;
  owner_id = some owner;
}

abbrev row : TransactionStatus → Transaction
row status = record {
  id = 70;
  idempotency_key = 7;
  type = TransactionType.cash_in;
  status = status;
  amount = 2500;
  fee_amount = 0;
  sender_id = some 3;
  recipient_id = some 2;
  sender_wallet_id = none;
  recipient_wallet_id = some 22;
  failure_reason = none;
  ledger_entry_ids = [];
  reversed_at = none;
  created_at = 1000;
  processed_at = none;
  expires_at = 301_000;
}

-- Two customers, an agent, a support officer and one row; a code is live for the first customer.
abbrev world : TransactionStatus → World
world status = record {
  users =
      (1, user 1 Role.customer)
      ∷ (2, user 2 Role.customer)
      ∷ (3, user 3 Role.agent)
      ∷ (4, user 4 Role.support_l2)
      ∷ [];
  wallets = (21, wallet 21 1) ∷ (22, wallet 22 2) ∷ [];
  transactions = (70, row status) ∷ [];
  kyc_records = [];
  audit_logs = [];
  otp_rows = [];
  events = [];
  calls = [];
  locks = λ _. none;
  fails = λ p. elim p [ zero ↦ none | suc _ ↦ some (record { value = 2; expires_at = none }) ];
  otps = λ _ _.
      some (record { value = record { salt = 5; digest = 123_005 }; expires_at = some 9000 });
}

abbrev env : Env
env = record { now = 2000; day_start = 0; month_start = 0; fresh_id = 80; salt = 6; otp_code = 55 }

abbrev serve : List LedgerCall → Exchange
serve calls = response true (
    some (record {
      success = true;
      payload = record { available_balance = 900; ledger_entry_ids = 1 ∷ 2 ∷ [] };
      error_code = none;
    }))

abbrev down : List LedgerCall → Exchange
down calls = broken

-- Numbers below a thousand are phones, those above are six digits.
abbrev texts : Texts
texts = record {
  spell = λ n.
      if ltb n 1000
      then b'+' ∷ b'2' ∷ b'3' ∷ b'5' ∷ b'6' ∷ b'6' ∷ b'0' ∷ b'0' ∷ b'0' ∷ b'0' ∷ b'0' ∷ b'1' ∷ []
      else b'1' ∷ b'2' ∷ b'3' ∷ b'4' ∷ b'5' ∷ b'6' ∷ [];
  number = λ _. 777;
}

abbrev dto : TransferDto
dto = record { idempotency_key = 9; to_account_number = 522; amount = 10_000 }

abbrev cash : CashDto
cash = record { idempotency_key = 9; client_phone = 102; amount = 10_000; otp = 123 }

abbrev pending : World
pending = world TransactionStatus.pending

pending-keyed : TransactionsKeyed pending
unfolding lookup
pending-keyed id t e = ground arith

transfer_status :
    elim (transfer serve scrypt env 1 dto pending).0 [ ok t ↦ t.fee_amount | err e ↦ 0 ] ≡ 100
unfolding transfer start_transfer settle_transfer lookup insert calculate_fee check_kyc_limit
transfer_status = refl

transfer-outcome_example :
    TransferOutcome serve scrypt env 1 dto pending (transfer serve scrypt env 1 dto pending)
transfer-outcome_example = transfer-outcome serve scrypt env 1 dto pending refl

confirm_cash_in-outcome_example :
    ConfirmOutcome serve scrypt env 3 70 102 123 pending
      (confirm_cash_in serve scrypt env 3 70 102 123 pending)
confirm_cash_in-outcome_example =
    confirm_cash_in-outcome serve scrypt env 3 70 102 123 pending pending-keyed

cash_out-outcome_example :
    CashOutOutcome serve scrypt env cash pending (cash_out serve scrypt env 3 cash pending)
cash_out-outcome_example = cash_out-outcome serve scrypt env cash pending 3

login_iff_example :
    ((login scrypt texts env 101 9 pending).0 ≡ ok (issue_tokens (user 1 Role.customer))) ↔ (
      (u : User) × MayLogIn scrypt texts env 101 9 pending u
      × (issue_tokens (user 1 Role.customer) ≡ issue_tokens u))
login_iff_example = login_iff scrypt texts env 101 9 pending (issue_tokens (user 1 Role.customer))

register-outcome_example :
    RegisterOutcome scrypt texts env 900 901 pending (register scrypt texts env 900 901 pending)
register-outcome_example = register-outcome scrypt texts env 900 901 pending

-- No refresh token is valid.
abbrev no_refresh : ℕ → Option ℕ
no_refresh token = none

-- A transfer, a registration, a login and a change of an MPIN.
abbrev requests : List (Env × Call)
requests =
    (env, post_transfer 1 dto)
    ∷ (env, post_register 900 901)
    ∷ (env, post_login 102 9)
    ∷ (env, post_change_mpin 1 none 4000)
    ∷ []

confirm_cash_in_once_example :
    confirm_cash_in serve scrypt env 3 70 101 123 (
      run_calls serve scrypt texts no_refresh requests
        (confirm_cash_in serve scrypt env 3 70 102 123 pending).1)
    ≢ (ok (succeed env [] (row TransactionStatus.success)), pending)
unfolding confirm_cash_in lookup insert read_exchange
confirm_cash_in_once_example =
    confirm_cash_in_once serve scrypt texts no_refresh env 3 70 102 123 pending
      (confirm_cash_in serve scrypt env 3 70 102 123 pending).1
      (succeed env (1 ∷ 2 ∷ []) (row TransactionStatus.pending)) requests pending-keyed refl
      (ground arith) env 3 101 123 pending (succeed env [] (row TransactionStatus.success))

otp_single_use_example :
    (verify_otp scrypt env 102 44 Purpose.cash_in (
      run_calls serve scrypt texts no_refresh requests
        (verify_otp scrypt env 102 123 Purpose.cash_in pending).1)).0
    ≡ err invalid_otp
unfolding verify_otp
otp_single_use_example =
    otp_single_use serve scrypt texts no_refresh env env 102 123 44 Purpose.cash_in pending
      (verify_otp scrypt env 102 123 Purpose.cash_in pending).1 requests refl
      (refl, (refl, (refl, (refl, tt))))

users-keyed : UsersKeyed pending.users
users-keyed = ground arith

lockout_is_permanent_example :
    let (r, v) = login scrypt texts env 101 8 pending in
    (r ≡ err invalid_credentials)
    × ((login scrypt texts env 101 9 (run_calls serve scrypt texts no_refresh requests v)).0
        ≢ ok (issue_tokens (user 1 Role.customer)))
unfolding validate_phone_number
lockout_is_permanent_example =
    lockout_is_permanent serve scrypt texts no_refresh env 101 8 pending (user 1 Role.customer) none
      refl refl users-keyed refl refl refl requests (ground arith) env 9
      (issue_tokens (user 1 Role.customer))

send_verify_iff_example :
    ((verify_otp scrypt env 102 55 Purpose.cash_in
        (send_otp scrypt env (user 2 Role.customer) Purpose.cash_in pending).1).0
      ≡ ok tt)
    ↔ ((2000 < 2000 + 300_000) × (scrypt 55 6 ≡ scrypt 55 6) × (true ≡ true))
send_verify_iff_example =
    send_verify_iff scrypt env env (user 2 Role.customer) 55 Purpose.cash_in pending

-- The small world with no code.
abbrev codeless : World
codeless = record pending { otps = λ _ _. none }

cash_out-refused_example :
    (cash_out serve scrypt env 3 cash (run_calls serve scrypt texts no_refresh requests codeless)).0
    ≢ ok (row TransactionStatus.success)
cash_out-refused_example =
    cash_out-refused serve scrypt texts no_refresh requests codeless (λ k. refl) env 3 cash
      (row TransactionStatus.success)
