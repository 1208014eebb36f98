-- ===== src/ApiCore/Transactions/Transfer.antt =====
-- What a P2P transfer does on each of its branches.
use cauripay.Common.{ℕ, ◌≡◌, refl, true, false, not, ◌⊎◌, inl, inr, none, some, List, ◌∷◌, arith}
use cauripay.Common.Int.{pos}
use cauripay.Common.Dict.{lookup, lookup-insert_self}
use cauripay.Rules.{TransactionType, calculate_fee, fee, LimitCheck, check_kyc_limit}
use cauripay.ApiCore.World.{
  TransactionStatus, Transaction, LedgerCall, get_balance, transfer_atomic, tx, World, Env,
  ApiError, Result, ok, err, User, Wallet, is_active,
}
use cauripay.ApiCore.Ledger.{Exchange, Payload, read_exchange}
use cauripay.ApiCore.Reason.{
  or_raise_rule, raise_if_rule, result_rule, require_ok_rule, charge_rule,
}
use cauripay.ApiCore.Transactions.{
  or_existing, TransferDto, find_by_key, failure_of, close_transfer, failed_row, new_transfer,
  settle_transfer, start_transfer, transfer, platform_fees_wallet, active_wallet, find_account,
  sum_success,
}

module _ (serve : List LedgerCall → Exchange) (scrypt : ℕ → ℕ → ℕ) where
  abbrev pub Settled : Env → Transaction → LedgerCall → World → Result Transaction × World → Type 0
  Settled env t call w (ok d, w') =
      (lookup t.id w'.transactions ≡ some d)
      × (d.status ≡ TransactionStatus.success)
      × (d.amount ≡ t.amount)
      × (d.fee_amount ≡ t.fee_amount)
      × (w'.calls ≡ call ∷ w.calls)
      × (w'.wallets ≡ w.wallets)
  Settled env t call w (err e, w') =
      (lookup t.id w'.transactions ≡ some (failed_row e t))
      × (w'.calls ≡ call ∷ w.calls)
      × (w'.events ≡ w.events)
      × (w'.wallets ≡ w.wallets)

  close_transfer-Settled :
      (env : Env) (user_id : ℕ) (t : Transaction) (call : LedgerCall) (r : Result Payload)
      (w v : World)
      → lookup t.id v.transactions ≡ some t
      → v.calls ≡ call ∷ w.calls
      → v.wallets ≡ w.wallets
      → v.events ≡ w.events
      → Settled env t call w (close_transfer serve scrypt env user_id t.id r v)
  close_transfer-Settled env user_id t call (ok p) w v row c d e =
      rw row (lookup-insert_self _ _ _, refl, refl, refl, c, d)
  close_transfer-Settled env user_id t call (err x) w v row c d e =
      rw row (lookup-insert_self _ _ _, c, e, d)

  settle_transfer-Settled :
      (env : Env) (user_id : ℕ) (t : Transaction) (source target : ℕ) (w : World)
      → Settled env t
          (transfer_atomic
            (tx t.id)
            t.id
            source
            target
            t.amount
            t.fee_amount
            (platform_fees_wallet w))
          w
          (settle_transfer serve scrypt env user_id t source target w)
  unfolding settle_transfer
  settle_transfer-Settled env user_id t source target w =
      close_transfer-Settled env user_id t _ (read_exchange _) w _
        (lookup-insert_self t.id t w.transactions) refl refl refl

  -- What holds of a completed transfer: who sent it, from where to where, that the limits of the
  -- sender's level were respected at the balance that the ledger gave, and what the ledger was asked.
  pub record Completed (env : Env) (user_id : ℕ) (dto : TransferDto) (w : World) (d : Transaction)
      (v : World) : Type 0 where
    pub sender : User
    pub source : Wallet
    pub target : Wallet
    pub balance : Payload
    pub base : ℕ
    pub known : lookup user_id w.users ≡ some sender
    pub owned : active_wallet sender.id w ≡ some source
    pub addressed : find_account dto.to_account_number w ≡ some target
    pub open_target : is_active target.status ≡ true
    pub answered : read_exchange (serve (get_balance source.id ∷ w.calls)) ≡ ok balance
    pub allowed :
        check_kyc_limit sender.kyc_level dto.amount
          (sum_success sender.id env.day_start w)
          (sum_success sender.id env.month_start w)
          balance.available_balance
        ≡ LimitCheck.ok
    pub charged : calculate_fee TransactionType.p2p (pos dto.amount) ≡ fee d.fee_amount base
    pub amount : d.amount ≡ dto.amount
    pub status : d.status ≡ TransactionStatus.success
    pub stored : lookup env.fresh_id v.transactions ≡ some d
    pub asked :
        v.calls
        ≡ transfer_atomic
            (tx env.fresh_id)
            env.fresh_id
            source.id
            target.id
            dto.amount
            d.fee_amount
            (platform_fees_wallet w)
          ∷ get_balance source.id
          ∷ w.calls

  -- What holds of a transfer that threw: no event is published, and either no row was written, or
  -- the new row is FAILED with the ledger's reason.
  pub record Thrown (env : Env) (w : World) (e : ApiError) (v : World) : Type 0 where
    pub silent : v.events ≡ w.events
    pub row :
        (v.transactions ≡ w.transactions)
        ⊎ ((t : Transaction) × (lookup env.fresh_id v.transactions ≡ some t)
            × (t.status ≡ TransactionStatus.failed)
            × (t.failure_reason ≡ some (failure_of e)))

  abbrev pub TransferOutcome : Env → ℕ → TransferDto → World → Result Transaction × World → Type 0
  TransferOutcome env user_id dto w (ok d, v) = Completed env user_id dto w d v
  TransferOutcome env user_id dto w (err e, v) = Thrown env w e v

  untouched-Thrown :
      (env : Env) (w v : World) (e : ApiError)
      → v.events ≡ w.events
      → v.transactions ≡ w.transactions
      → Thrown env w e v
  untouched-Thrown env w v e h k = record { silent = h; row = inl k }

  module _ (env : Env) (user_id : ℕ) (dto : TransferDto) (w : World) where
    Settled-outcome :
        (sender : User) (source target : Wallet) (balance : Payload) (n base : ℕ)
        → lookup user_id w.users ≡ some sender
        → active_wallet sender.id w ≡ some source
        → find_account dto.to_account_number w ≡ some target
        → not (is_active target.status) ≡ false
        → read_exchange (serve (get_balance source.id ∷ w.calls)) ≡ ok balance
        → check_kyc_limit sender.kyc_level dto.amount
            (sum_success sender.id env.day_start w)
            (sum_success sender.id env.month_start w)
            balance.available_balance
          ≡ LimitCheck.ok
        → calculate_fee TransactionType.p2p (pos dto.amount) ≡ fee n base
        → (r : Result Transaction × World)
        → Settled env
            (new_transfer env dto sender source target n)
            (transfer_atomic
              (tx env.fresh_id)
              env.fresh_id
              source.id
              target.id
              dto.amount
              n
              (platform_fees_wallet w))
            (record w { calls = get_balance source.id ∷ w.calls })
            r
        → TransferOutcome env user_id dto w r
    Settled-outcome sender source target balance n base k o a t b l c (ok d, v)
          (row, status, amount, paid, calls, _) =
        record {
          sender = sender;
          source = source;
          target = target;
          balance = balance;
          base = base;
          known = k;
          owned = o;
          addressed = a;
          open_target = ground arith;
          answered = b;
          allowed = l;
          charged = rw paid c;
          amount = amount;
          status = status;
          stored = row;
          asked = rw paid calls;
        }
    Settled-outcome sender source target balance n base k o a t b l c (err e, v)
          (row, _, events, _) =
        record { silent = events; row = inr (_, row, refl, refl) }

    start_transfer-outcome :
        TransferOutcome env user_id dto w (start_transfer serve scrypt env user_id dto w)
    unfolding start_transfer
    start_transfer-outcome =
        or_raise_rule Q w _ (lookup user_id w.users) _ (λ _. untouched-Thrown env w w _ refl refl)
          λ sender known.
            or_raise_rule Q w _ (active_wallet sender.id w) _
              (λ _. untouched-Thrown env w w _ refl refl)
              λ source owned.
                or_raise_rule Q w _ (find_account dto.to_account_number w) _
                  (λ _. untouched-Thrown env w w _ refl refl)
                  λ target addressed.
                    raise_if_rule Q w _ (not (is_active target.status)) _
                      (λ _. untouched-Thrown env w w _ refl refl)
                      λ open_target.
                        result_rule Q (seen source) _
                          (read_exchange (serve (get_balance source.id ∷ w.calls)))
                          (λ _ _. untouched-Thrown env w _ _ refl refl)
                          λ balance answered.
                            require_ok_rule Q (seen source) _
                              (check_kyc_limit sender.kyc_level dto.amount
                                (sum_success sender.id env.day_start w)
                                (sum_success sender.id env.month_start w) balance.available_balance)
                              (λ _. untouched-Thrown env w _ _ refl refl)
                              λ allowed.
                                charge_rule Q (seen source) _
                                  (calculate_fee TransactionType.p2p (pos dto.amount))
                                  (λ _. untouched-Thrown env w _ _ refl refl)
                                  λ n base charged.
                                    Settled-outcome sender source target balance n base known owned
                                      addressed open_target answered allowed charged _
                                      (settle_transfer-Settled env user_id
                                        (new_transfer env dto sender source target n) source.id
                                        target.id (seen source))
      where
        Q : Result Transaction × World → Type 0
        Q = TransferOutcome env user_id dto w

        seen : Wallet → World
        seen source = record w { calls = get_balance source.id ∷ w.calls }

  -- A transfer under an unused key either completes, with everything that `Completed` says, or
  -- throws with no event published and, if a row was created, that row FAILED with the reason.
  pub transfer-outcome :
      (env : Env) (user_id : ℕ) (dto : TransferDto) (w : World)
      → find_by_key dto.idempotency_key w ≡ none
      → TransferOutcome env user_id dto w (transfer serve scrypt env user_id dto w)
  unfolding transfer
  transfer-outcome env user_id dto w unused =
      rw (unused, or_existing) (start_transfer-outcome env user_id dto w)

  -- A key that was used before, by whatever user and with whatever outcome, returns the stored row:
  -- nothing is written and the ledger is not called.
  pub transfer_replay :
      (env : Env) (user_id : ℕ) (dto : TransferDto) (w : World) (t : Transaction)
      → find_by_key dto.idempotency_key w ≡ some t
      → transfer serve scrypt env user_id dto w ≡ (ok t, w)
  unfolding transfer
  transfer_replay env user_id dto w t used = rw (used, or_existing)
