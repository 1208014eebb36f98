-- ===== src/ApiCore/Calls/Runs.antt =====
-- Every request keeps a property that the writes keep.
use cauripay.Common.{ℕ, Option, List, [], ◌∷◌, All, ==_self}
use cauripay.Common.Dict.{Dict}
use cauripay.ApiCore.World.{World, Env, User, Transaction, LedgerCall}
use cauripay.ApiCore.Ledger.{Exchange}
use cauripay.ApiCore.Auth.{Texts}
use cauripay.ApiCore.Calls.{
  Call, post_register, post_login, post_verify, post_refresh, post_change_mpin, post_transfer,
  post_cash_in, post_confirm_cash_in, post_cash_out, post_reverse, run_call, run_calls,
}
use cauripay.ApiCore.Calls.Keeps.{Codes, Closed, Kept}
use cauripay.ApiCore.Calls.Handlers.{
  verify_otp-Kept, login-Kept, register-Kept, change_mpin-Kept, refresh-Kept,
}
use cauripay.ApiCore.Calls.Payments.{transfer-Kept, cash_out-Kept, reverse-Kept}
use cauripay.ApiCore.Calls.CashIns.{cash_in-Kept, confirm_cash_in-Kept}

-- Every run of requests keeps the property.
module _ (U : Dict User → Type 0) (T : Dict Transaction → Type 0) (O : Codes → Type 0)
    (serve : List LedgerCall → Exchange) (scrypt : ℕ → ℕ → ℕ) (texts : Texts)
    (verify_refresh : ℕ → Option ℕ) where
  run_call-Kept :
      (env : Env) (c : Call) (w : World)
      → Closed U T O env c
      → Kept U T O w
      → Kept U T O (run_call serve scrypt texts verify_refresh env c w)
  run_call-Kept env (post_register phone password) w k h =
      register-Kept U T O serve scrypt texts verify_refresh k phone password w (==_self phone) h
  run_call-Kept env (post_login phone password) w k h =
      login-Kept U T O serve scrypt texts verify_refresh k phone password w h
  run_call-Kept env (post_verify phone code p) w k h =
      verify_otp-Kept U T O serve scrypt texts verify_refresh k phone code p w h
  run_call-Kept env (post_refresh token) w k h =
      refresh-Kept U T O serve scrypt texts verify_refresh k token w h
  run_call-Kept env (post_change_mpin user_id old new) w k h =
      change_mpin-Kept U T O serve scrypt texts verify_refresh k user_id old new w h
  run_call-Kept env (post_transfer user_id dto) w k h =
      transfer-Kept U T O serve scrypt k user_id dto w h
  run_call-Kept env (post_cash_in agent_id dto) w k h =
      cash_in-Kept U T O serve scrypt k agent_id dto w (==_self dto.client_phone) h
  run_call-Kept env (post_confirm_cash_in agent_id id phone otp) w k h =
      confirm_cash_in-Kept U T O serve scrypt k agent_id id phone otp w h
  run_call-Kept env (post_cash_out agent_id dto) w k h =
      cash_out-Kept U T O serve scrypt k agent_id dto w h
  run_call-Kept env (post_reverse user_id id) w k h =
      reverse-Kept U T O serve scrypt k user_id id w h

  pub run_calls-Kept :
      (cs : List (Env × Call)) (w : World)
      → All (λ (x : Env × Call). Closed U T O x.0 x.1) cs
      → Kept U T O w
      → Kept U T O (run_calls serve scrypt texts verify_refresh cs w)
  unfolding run_calls
  run_calls-Kept [] w ks h = h
  run_calls-Kept ((env, c) ∷ cs) w (k, ks) h = run_calls-Kept cs _ ks (run_call-Kept env c w k h)
