-- ===== src/ApiCore/Calls/Payments.antt =====
-- Transfers, cash-outs and reversals keep a property that the writes keep.
use cauripay.Common.{ℕ, ◌≡◌, refl, inl, inr, not, none, List, ◌∷◌, Option-cases}
use cauripay.Common.Dict.{Dict, lookup}
use cauripay.Common.Int.{pos}
use cauripay.Rules.{TransactionType, calculate_fee, check_kyc_limit}
use cauripay.ApiCore.World.{
  World, Env, User, is_active, Transaction, TransactionStatus, LedgerCall, rev, get_balance,
  Purpose, Result, ok, err, live, not_found, and_then, client_not_found, wallet_inactive,
  recipient_not_found,
}
use cauripay.ApiCore.Ledger.{Exchange, Payload, read_exchange}
use cauripay.ApiCore.Status.{transition_result}
use cauripay.ApiCore.Reason.{
  or_raise_rule, raise_if_rule, result_rule, require_ok_rule, charge_rule,
}
use cauripay.ApiCore.Auth.{find_by_phone, code_matches, put_otp}
use cauripay.ApiCore.Transactions.{
  TransferDto, CashDto, RequiredRole, role_result, or_existing, find_by_key, active_wallet,
  find_account, sum_success, new_transfer, new_cash_out, save_tx, close_transfer, settle_transfer,
  start_transfer, transfer, close_cash_out, settle_cash_out, pay_out, cash_out, reverse,
}
use cauripay.ApiCore.Calls.{Call}
use cauripay.ApiCore.Calls.Keeps.{Codes, Closed, Kept, update-Kept}

module _ (U : Dict User → Type 0) (T : Dict Transaction → Type 0) (O : Codes → Type 0)
    (serve : List LedgerCall → Exchange) (scrypt : ℕ → ℕ → ℕ) where
  abbrev Good : {A : Type 0} → Result A × World → Type 0
  Good x = Kept U T O x.1

  module _ {env : Env} {c : Call} (closed : Closed U T O env c) where
    close_transfer-Kept :
        (user_id id : ℕ) (r : Result Payload) (w : World)
        → Kept U T O w
        → Good (close_transfer serve scrypt env user_id id r w)
    close_transfer-Kept user_id id (err e) w h =
        update-Kept U T O closed id _ _ w (λ t. refl) (λ t. cc) (λ d v k. k) h
    close_transfer-Kept user_id id (ok p) w h =
        update-Kept U T O closed id _ _ w (λ t. refl) (λ t. cc) (λ d v k. k) h

    close_cash_out-Kept :
        (id : ℕ) (r : Result Payload) (w : World)
        → Kept U T O w
        → Good (close_cash_out serve scrypt env id r w)
    close_cash_out-Kept id (err e) w h =
        update-Kept U T O closed id _ _ w (λ t. refl) (λ t. cc) (λ d v k. k) h
    close_cash_out-Kept id (ok p) w h =
        update-Kept U T O closed id _ _ w (λ t. refl) (λ t. cc) (λ d v k. k) h

    save_tx-Kept :
        (t : Transaction) (w : World)
        → t.id ≡ env.fresh_id
        → Kept U T O w
        → Kept U T O (save_tx t w)
    save_tx-Kept t w new (u, s, o) = (u, closed.added t w.transactions new s, o)

    pub transfer-Kept :
        (user_id : ℕ) (dto : TransferDto) (w : World)
        → Kept U T O w
        → Good (transfer serve scrypt env user_id dto w)
    unfolding transfer start_transfer settle_transfer
    transfer-Kept user_id dto w h = elim (Option-cases (find_by_key dto.idempotency_key w)) [
      | inr (t, old) ↦ rw (old, or_existing) h
      | inl new ↦
          rw (new, or_existing)
            (or_raise_rule Good w _ (lookup user_id w.users) not_found (λ _. h)
              λ sender _.
                or_raise_rule Good w _ (active_wallet sender.id w) wallet_inactive (λ _. h)
                  λ source _.
                    or_raise_rule Good w _ (find_account dto.to_account_number w)
                      recipient_not_found (λ _. h)
                      λ target _.
                        raise_if_rule Good w _ (not (is_active target.status)) recipient_not_found
                          (λ _. h)
                          λ _.
                            result_rule Good (record w { calls = get_balance source.id ∷ w.calls })
                              _ (read_exchange (serve (get_balance source.id ∷ w.calls))) (λ _ _. h)
                              λ balance _.
                                require_ok_rule Good
                                  (record w { calls = get_balance source.id ∷ w.calls }) _
                                  (check_kyc_limit sender.kyc_level dto.amount
                                    (sum_success sender.id env.day_start w)
                                    (sum_success sender.id env.month_start w)
                                    balance.available_balance)
                                  (λ _. h)
                                  λ _.
                                    charge_rule Good
                                      (record w { calls = get_balance source.id ∷ w.calls }) _
                                      (calculate_fee TransactionType.p2p (pos dto.amount)) (λ _. h)
                                      λ n base _.
                                        close_transfer-Kept user_id env.fresh_id (read_exchange _) _
                                          (save_tx-Kept
                                            (new_transfer env dto sender source target n) w refl h))
    ]

    pay_out-Kept :
        (dto : CashDto) (agent : User) (w : World)
        → Kept U T O w
        → Good (pay_out serve scrypt env dto agent w)
    unfolding pay_out settle_cash_out
    pay_out-Kept dto agent w h =
        or_raise_rule Good w _ (find_by_phone dto.client_phone w) client_not_found (λ _. h)
          λ client _.
            or_raise_rule Good w _ (active_wallet client.id w) wallet_inactive (λ _. h)
              λ wallet _. elim (Option-cases (find_by_key dto.idempotency_key w)) [
                | inr (t, old) ↦ rw (old, or_existing) h
                | inl new ↦
                    rw (new, or_existing)
                      (charge_rule Good w _
                        (calculate_fee TransactionType.cash_out (pos dto.amount)) (λ _. h)
                        λ n base _.
                          close_cash_out-Kept env.fresh_id (read_exchange _) _
                            (save_tx-Kept (new_cash_out env dto agent client wallet n) w refl h))
              ]

    pub cash_out-Kept :
        (agent_id : ℕ) (dto : CashDto) (w : World)
        → Kept U T O w
        → Good (cash_out serve scrypt env agent_id dto w)
    unfolding cash_out
    cash_out-Kept agent_id dto w (u, s, o) =
        result_rule Good w _ (role_result RequiredRole.needs_agent (lookup agent_id w.users))
          (λ _ _. (u, s, o))
          λ agent _.
            raise_if_rule (λ r. Good (and_then r (λ _. pay_out serve scrypt env dto agent))) w _
              (not (
                code_matches scrypt dto.otp
                  (live env.now (w.otps Purpose.cash_out dto.client_phone))))
              _ (λ _. (u, s, o))
              λ _.
                pay_out-Kept dto agent (put_otp Purpose.cash_out dto.client_phone none w)
                  (u, s, closed.erased Purpose.cash_out dto.client_phone w.otps o)

    pub reverse-Kept :
        (user_id id : ℕ) (w : World) → Kept U T O w → Good (reverse serve scrypt env user_id id w)
    unfolding reverse
    reverse-Kept user_id id w h =
        result_rule Good w _ (role_result RequiredRole.needs_support_l2 (lookup user_id w.users))
          (λ _ _. h)
          λ officer _.
            or_raise_rule Good w _ (lookup id w.transactions) not_found (λ _. h)
              λ row _.
                result_rule Good w _ (transition_result row.status TransactionStatus.reversed)
                  (λ _ _. h)
                  λ _ _.
                    result_rule Good
                      (record w { calls = LedgerCall.reverse row.id (rev row.id) ∷ w.calls }) _
                      (read_exchange (serve (LedgerCall.reverse row.id (rev row.id) ∷ w.calls)))
                      (λ _ _. h)
                      λ reply _.
                        update-Kept U T O closed id _ _ _ (λ t. refl) (λ t. cc) (λ d v k. k) h
