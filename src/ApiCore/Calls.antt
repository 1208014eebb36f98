-- ===== src/ApiCore/Calls.antt =====
-- services/api-core/src/auth/auth.controller.ts and transactions/transactions.controller.ts: the
-- requests that the two services answer, one after the other. The receipt reads only.
pub mod Keeps
pub mod Handlers
pub mod Payments
pub mod CashIns
pub mod Runs
pub mod Once
pub mod Codes
pub mod CashOuts
pub mod LockedRows
pub mod Lock
use cauripay.Common.{ℕ, Bool, false, ◌&&◌, Option, List, [], ◌∷◌, ◌==◌}
use cauripay.ApiCore.World.{World, Env, Purpose, LedgerCall}
use cauripay.ApiCore.Ledger.{Exchange}
use cauripay.ApiCore.Auth.{Texts, same_purpose, verify_otp, register, login, change_mpin, refresh}
use cauripay.ApiCore.Transactions.{
  TransferDto, CashDto, transfer, cash_in, confirm_cash_in, cash_out, reverse,
}

pub data Call : Type 0 where
  post_register : (phone password : ℕ) → Call
  post_login : (phone password : ℕ) → Call
  post_verify : (phone code : ℕ) → Purpose → Call
  post_refresh : (token : ℕ) → Call
  post_change_mpin : (user_id : ℕ) → (old : Option ℕ) → (new : ℕ) → Call
  post_transfer : (user_id : ℕ) → TransferDto → Call
  post_cash_in : (agent_id : ℕ) → CashDto → Call
  post_confirm_cash_in : (agent_id transaction_id client_phone otp : ℕ) → Call
  post_cash_out : (agent_id : ℕ) → CashDto → Call
  post_reverse : (user_id transaction_id : ℕ) → Call

-- Whether a request may send a code of a purpose to a phone.
abbrev pub sends : Call → Purpose → ℕ → Bool
sends (post_register phone password) p j = same_purpose Purpose.login p && phone == j
sends (post_cash_in agent_id dto) p j = same_purpose Purpose.cash_in p && dto.client_phone == j
sends _ p j = false

module _ (serve : List LedgerCall → Exchange) (scrypt : ℕ → ℕ → ℕ) (texts : Texts)
    (verify_refresh : ℕ → Option ℕ) where
  abbrev pub run_call : Env → Call → World → World
  run_call env (post_register phone password) w = (register scrypt texts env phone password w).1
  run_call env (post_login phone password) w = (login scrypt texts env phone password w).1
  run_call env (post_verify phone code p) w = (verify_otp scrypt env phone code p w).1
  run_call env (post_refresh token) w = (refresh verify_refresh token w).1
  run_call env (post_change_mpin user_id old new) w =
      (change_mpin scrypt texts env user_id old new w).1
  run_call env (post_transfer user_id dto) w = (transfer serve scrypt env user_id dto w).1
  run_call env (post_cash_in agent_id dto) w = (cash_in serve scrypt env agent_id dto w).1
  run_call env (post_confirm_cash_in agent_id id phone otp) w =
      (confirm_cash_in serve scrypt env agent_id id phone otp w).1
  run_call env (post_cash_out agent_id dto) w = (cash_out serve scrypt env agent_id dto w).1
  run_call env (post_reverse user_id id) w = (reverse serve scrypt env user_id id w).1

  -- Each request has its own clock and random values.
  unfoldable pub run_calls : List (Env × Call) → World → World
  run_calls [] w = w
  run_calls ((env, c) ∷ cs) w = run_calls cs (run_call env c w)
