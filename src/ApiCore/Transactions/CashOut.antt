-- ===== src/ApiCore/Transactions/CashOut.antt =====
-- Cash-out at an agent.
use cauripay.Common.{ℕ, ◌≡◌, refl, not, ◌⊎◌, inl, inr, none, some, List, ◌∷◌, Option-cases}
use cauripay.Common.Int.{pos}
use cauripay.Common.Dict.{lookup, lookup-insert_self}
use cauripay.Rules.{TransactionType, calculate_fee, fee}
use cauripay.ApiCore.World.{
  TransactionStatus, Transaction, LedgerCall, debit, tx, World, Env, ApiError, Result, ok, err,
  User, Wallet, Purpose, live, invalid_otp, and_then, client_not_found, wallet_inactive,
}
use cauripay.ApiCore.Ledger.{Exchange, Payload, read_exchange}
use cauripay.ApiCore.Auth.{put_otp, code_matches, find_by_phone}
use cauripay.ApiCore.Reason.{or_raise_rule, raise_if_rule, result_rule, charge_rule}
use cauripay.ApiCore.Transactions.{
  CashDto, RequiredRole, role_result, active_wallet, find_by_key, or_existing, new_cash_out,
  failure_of, close_cash_out, settle_cash_out, pay_out, cash_out,
}

module _ (serve : List LedgerCall → Exchange) (scrypt : ℕ → ℕ → ℕ) where
  -- A cash-out that succeeded under a new key: the ledger was asked once, to debit the amount alone.
  pub record PaidOut (env : Env) (dto : CashDto) (w : World) (d : Transaction) (v : World)
      : Type 0 where
    pub client : User
    pub wallet : Wallet
    pub base : ℕ
    pub known : find_by_phone dto.client_phone w ≡ some client
    pub owned : active_wallet client.id w ≡ some wallet
    pub charged : calculate_fee TransactionType.cash_out (pos dto.amount) ≡ fee d.fee_amount base
    pub asked : v.calls ≡ debit (tx env.fresh_id) env.fresh_id wallet.id dto.amount ∷ w.calls
    pub status : d.status ≡ TransactionStatus.success
    pub stored : lookup env.fresh_id v.transactions ≡ some d

  pub record NotPaid (env : Env) (w : World) (e : ApiError) (v : World) : Type 0 where
    pub silent : v.events ≡ w.events
    pub row :
        (v.transactions ≡ w.transactions)
        ⊎ ((t : Transaction) × (lookup env.fresh_id v.transactions ≡ some t)
            × (t.status ≡ TransactionStatus.failed)
            × (t.failure_reason ≡ some (failure_of e)))

  abbrev pub CashOutOutcome : Env → CashDto → World → Result Transaction × World → Type 0
  CashOutOutcome env dto w (ok d, v) =
      PaidOut env dto w d v
      ⊎ ((find_by_key dto.idempotency_key w ≡ some d)
          × (v.transactions ≡ w.transactions)
          × (v.calls ≡ w.calls))
  CashOutOutcome env dto w (err e, v) = NotPaid env w e v

  module _ (env : Env) (dto : CashDto) (w : World) where
    Settled-outcome :
        (v : World) (agent client : User) (wallet : Wallet) (n base : ℕ)
        → find_by_phone dto.client_phone w ≡ some client
        → active_wallet client.id w ≡ some wallet
        → calculate_fee TransactionType.cash_out (pos dto.amount) ≡ fee n base
        → v.calls ≡ debit (tx env.fresh_id) env.fresh_id wallet.id dto.amount ∷ w.calls
        → v.events ≡ w.events
        → lookup env.fresh_id v.transactions ≡ some (new_cash_out env dto agent client wallet n)
        → (r : Result Payload)
        → CashOutOutcome env dto w (close_cash_out serve scrypt env env.fresh_id r v)
    Settled-outcome v agent client wallet n base k o c calls silent row (ok p) = rw row (
        inl (record {
          client = client;
          wallet = wallet;
          base = base;
          known = k;
          owned = o;
          charged = c;
          asked = calls;
          status = refl;
          stored = lookup-insert_self _ _ _;
        }))
    Settled-outcome v agent client wallet n base k o c calls silent row (err e) =
        rw row (record { silent = silent; row = inr (_, lookup-insert_self _ _ _, refl, refl) })

    -- A cash-out that succeeds either debited the client's active wallet once, by the amount alone
    -- although a fee is recorded, and stored a row that is SUCCESS; or its key was used before, and it
    -- returns the stored row and asks the ledger nothing. If it throws, no event is published and the row,
    -- if one was created, is FAILED with the reason.
    pub cash_out-outcome :
        (agent_id : ℕ) → CashOutOutcome env dto w (cash_out serve scrypt env agent_id dto w)
    unfolding cash_out pay_out settle_cash_out
    cash_out-outcome agent_id =
        result_rule Q w _ (role_result RequiredRole.needs_agent (lookup agent_id w.users))
          (λ _ _. record { silent = refl; row = inl refl })
          λ agent is_agent.
            raise_if_rule (λ r. Q (and_then r (λ _. pay_out serve scrypt env dto agent))) w _
              (not (
                code_matches scrypt dto.otp
                  (live env.now (w.otps Purpose.cash_out dto.client_phone))))
              invalid_otp (λ _. record { silent = refl; row = inl refl })
              λ code_given.
                or_raise_rule Q used _ (find_by_phone dto.client_phone w) client_not_found
                  (λ _. record { silent = refl; row = inl refl })
                  λ client known.
                    or_raise_rule Q used _ (active_wallet client.id w) wallet_inactive
                      (λ _. record { silent = refl; row = inl refl })
                      λ wallet owned. elim (Option-cases (find_by_key dto.idempotency_key w)) [
                        | inl unused ↦
                            rw (unused, or_existing)
                              (charge_rule Q used _
                                (calculate_fee TransactionType.cash_out (pos dto.amount))
                                (λ _. record { silent = refl; row = inl refl })
                                λ n base charged.
                                  Settled-outcome _ agent client wallet n base known owned charged
                                    refl refl
                                    (lookup-insert_self env.fresh_id
                                      (new_cash_out env dto agent client wallet n) w.transactions)
                                    (read_exchange _))
                        | inr (t, old) ↦ rw (old, or_existing) (inr (old, refl, refl))
                      ]
      where
        Q : Result Transaction × World → Type 0
        Q = CashOutOutcome env dto w

        used : World
        used = put_otp Purpose.cash_out dto.client_phone none w
