-- ===== src/ApiCore/Calls/CashIns.antt =====
-- The two requests of a cash-in keep a property that the writes keep.
use cauripay.Common.{
  ℕ, ◌≡◌, refl, inl, inr, true, not, none, some, List, ◌∷◌, arith, ◌==◌, Option-cases, ap, ◌∙◌,
}
use cauripay.Common.Dict.{Dict, lookup}
use cauripay.ApiCore.World.{
  World, Env, User, Transaction, TransactionStatus, LedgerCall, tx, credit, Purpose, Result, live,
  not_found, and_then, client_not_found, wallet_inactive, no_wallet,
}
use cauripay.ApiCore.Ledger.{Exchange, read_exchange}
use cauripay.ApiCore.Status.{transition_result}
use cauripay.ApiCore.Reason.{or_raise_rule, raise_if_rule, result_rule}
use cauripay.ApiCore.Auth.{find_by_phone, code_matches, send_otp, put_otp}
use cauripay.ApiCore.Transactions.{
  CashDto, RequiredRole, role_result, or_existing, find_by_key, active_wallet, new_cash_in, cash_in,
  is_cash_in, credit_client, confirm_cash_in,
}
use cauripay.ApiCore.Calls.{Call, sends}
use cauripay.ApiCore.Calls.Keeps.{Codes, Closed, Kept, update-Kept, find_row_sound}

module _ (U : Dict User → Type 0) (T : Dict Transaction → Type 0) (O : Codes → Type 0)
    (serve : List LedgerCall → Exchange) (scrypt : ℕ → ℕ → ℕ) where
  abbrev Good : {A : Type 0} → Result A × World → Type 0
  Good x = Kept U T O x.1

  client_phone :
      (phone : ℕ) (w : World) (x : User) → find_by_phone phone w ≡ some x → x.phone ≡ phone
  client_phone phone w x e =
      ground (arith, find_row_sound (λ (u : User). u.phone == phone) x w.users e)

  module _ {env : Env} {c : Call} (closed : Closed U T O env c) where
    pub cash_in-Kept :
        (agent_id : ℕ) (dto : CashDto) (w : World)
        → sends c Purpose.cash_in dto.client_phone ≡ true
        → Kept U T O w
        → Good (cash_in serve scrypt env agent_id dto w)
    unfolding cash_in send_otp
    cash_in-Kept agent_id dto w may (u, s, o) =
        result_rule Good w _ (role_result RequiredRole.needs_agent (lookup agent_id w.users))
          (λ _ _. (u, s, o))
          λ agent _.
            or_raise_rule Good w _ (find_by_phone dto.client_phone w) client_not_found
              (λ _. (u, s, o))
              λ client known.
                or_raise_rule Good w _ (active_wallet client.id w) wallet_inactive (λ _. (u, s, o))
                  λ wallet _. elim (Option-cases (find_by_key dto.idempotency_key w)) [
                    | inr (t, old) ↦ rw (old, or_existing) (u, s, o)
                    | inl new ↦
                        rw (new, or_existing)
                          (
                            u,
                            closed.added (new_cash_in env dto agent client wallet) w.transactions
                                refl s,
                            closed.sent Purpose.cash_in client.phone _ w.otps
                                (ap (sends c Purpose.cash_in)
                                    (client_phone dto.client_phone w client known)
                                  ∙ may)
                                o,
                          )
                  ]

    credit_client-Kept :
        (id : ℕ) (w : World) → Kept U T O w → Good (credit_client serve scrypt env id w)
    unfolding credit_client
    credit_client-Kept id w h =
        or_raise_rule Good w _ (lookup id w.transactions) not_found (λ _. h)
          λ row _.
            raise_if_rule Good w _ (not (is_cash_in row.type)) not_found (λ _. h)
              λ _.
                result_rule Good w _ (transition_result row.status TransactionStatus.processing)
                  (λ _ _. h)
                  λ _ _.
                    or_raise_rule Good w _ row.recipient_wallet_id no_wallet (λ _. h)
                      λ wallet _.
                        result_rule Good
                          (record w {
                            calls = credit (tx row.id) row.id wallet row.amount ∷ w.calls;
                          })
                          _
                          (read_exchange
                            (serve (credit (tx row.id) row.id wallet row.amount ∷ w.calls)))
                          (λ _ _. h)
                          λ reply _.
                            update-Kept U T O closed row.id _ _ _ (λ t. refl) (λ t. cc) (λ d v k. k)
                              h

    pub confirm_cash_in-Kept :
        (agent_id id phone code : ℕ) (w : World)
        → Kept U T O w
        → Good (confirm_cash_in serve scrypt env agent_id id phone code w)
    unfolding confirm_cash_in
    confirm_cash_in-Kept agent_id id phone code w (u, s, o) =
        result_rule Good w _ (role_result RequiredRole.needs_agent (lookup agent_id w.users))
          (λ _ _. (u, s, o))
          λ agent _.
            raise_if_rule (λ r. Good (and_then r (λ _. credit_client serve scrypt env id))) w _
              (not (code_matches scrypt code (live env.now (w.otps Purpose.cash_in phone)))) _
              (λ _. (u, s, o))
              λ _.
                credit_client-Kept id (put_otp Purpose.cash_in phone none w)
                  (u, s, closed.erased Purpose.cash_in phone w.otps o)
